-- ===== src/FaultApi.antt =====
-- src/timberdoodle/fault_api.py: the handlers of the fault service, with the plumbing of
-- src/timberdoodle/http_handler_base.py and the check of src/timberdoodle/gateway_auth.py. A request's
-- body is the dict that was read; the fresh id and the present moment are arguments.
use timberdoodle.Base.{
  ℕ, zero, suc, ◌+◌, ◌*◌, ◌-◌, String, Bool, true, false, not, ◌&&◌, ◌||◌, Option, none, some, List,
  [], ◌∷◌, ◌++◌, ◌==◌, map, length, str_eq, or_else, is_none, ltb, if◌then◌else◌,
}
use timberdoodle.Base.Int.{ℤ, pos, negsuc}
use timberdoodle.Base.Dict.{text_key, lookup, insert}
use timberdoodle.Values.{Value, null, bool, num, text, tree, Instant}
use timberdoodle.JsonStore.{File, load}
use timberdoodle.JsonStore.Records.{
  Object, save, merge, without, has_record, Response, status, object, objects, served, server_error,
  delete_record, append_record,
}
use timberdoodle.Faults.{
  Fault, FaultTable, Status, opened, resolved, ack_fault, snooze_fault, list_faults,
}
use timberdoodle.Health.{Health, HealthTable}
use timberdoodle.Health.Webhook.{list_webhook_health, enable_webhook}
use timberdoodle.Webhooks.{Network, validate_url}
pub mod Routes
pub mod Records
pub mod Access
mod Examples

pub record Service : Type 0 where
  pub rules : File Object
  pub webhooks : File Object
  pub health : HealthTable String
  pub faults : FaultTable

abbrev pub Step : Type 0
Step = Service × Response

-- `request_came_through_gateway`: no secret that is expected lets nothing through. The header and the
-- secret are ASCII, as `compare_digest` wants.
unfoldable pub came_through_gateway : Option String → String → Bool
came_through_gateway none got = false
came_through_gateway (some expected) got = if str_eq expected "" then false else str_eq got expected

abbrev pub with_rules : Service → File Object × Response → Step
with_rules s r = (record s { rules = r.0 }, r.1)

abbrev pub with_webhooks : Service → File Object × Response → Step
with_webhooks s r = (record s { webhooks = r.0 }, r.1)

abbrev pub rule_names : List String
rule_names = "name" ∷ "mode" ∷ "type" ∷ "applies_to" ∷ []

-- The keys that must be there, in the order in which they are read.
abbrev pub picked : List String → Object → Option Object
unfolding lookup
picked [] body = some []
picked (k ∷ ks) body = elim (lookup k body) [
  | none ↦ none
  | some v ↦ elim (picked ks body) [ none ↦ none | some o ↦ some ((k, v) ∷ o) ]
]

-- The rule that `_create_rule` makes; `none` is a KeyError.
unfoldable pub rule_of : String → Object → Option Object
unfolding lookup merge without picked
rule_of id body = elim (picked rule_names body) [
  | none ↦ none
  | some o ↦ some (merge (("id", text id) ∷ o) (without rule_names body))
]

unfoldable pub create_rule : String → Object → Service → Step
unfolding rule_of append_record
create_rule id body s = elim (rule_of id body) [
  | none ↦ (s, status 400)
  | some r ↦ with_rules s (append_record r s.rules)
]

abbrev pub is_falsy : Value → Bool
is_falsy null = true
is_falsy (bool b) = not b
is_falsy (num (pos n)) = n == 0
is_falsy (num (negsuc n)) = false
is_falsy (text s) = str_eq s ""
is_falsy (tree s shown) = str_eq s "[]" || str_eq s "{}"

-- `validate_url(body["url"])`: `some` is the answer to its exception. A value that is no text has no
-- scheme, or makes `urlparse` raise AttributeError.
unfoldable pub url_problem : Network → Bool → Value → Option Response
unfolding validate_url
url_problem net allow_private (text u) = elim (validate_url net 0 allow_private u) [
  | none ↦ none
  | some e ↦ some (status 400)
]
url_problem net allow_private v = if is_falsy v then some (status 400) else some server_error

abbrev pub new_webhook : String → Value → Value → Object → Object
unfolding lookup
new_webhook id url secret body =
    ("id", text id)
    ∷ ("url", url)
    ∷ ("secret", secret)
    ∷ ("filter", or_else (lookup "filter" body) null)
    ∷ []

-- The URL is looked at before the secret is.
abbrev pub register : String → Object → Value → Option Value → Service → Step
unfolding append_record lookup new_webhook
register id body url none s = (s, status 400)
register id body url (some secret) s =
    with_webhooks s (append_record (new_webhook id url secret body) s.webhooks)

abbrev pub unless_problem : Option Response → Service → Step → Step
unless_problem (some r) s next = (s, r)
unless_problem none s next = next

unfoldable pub create_webhook : Network → Bool → String → Object → Service → Step
unfolding url_problem lookup register append_record
create_webhook net allow_private id body s = elim (lookup "url" body) [
  | none ↦ (s, status 400)
  | some url ↦
      unless_problem (url_problem net allow_private url) s
        (register id body url (lookup "secret" body) s)
]

unfoldable pub delete_rule : String → Service → Step
unfolding delete_record
delete_rule id s = with_rules s (delete_record id s.rules)

unfoldable pub delete_webhook : String → Service → Step
unfolding delete_record
delete_webhook id s = with_webhooks s (delete_record id s.webhooks)

abbrev pub enabled : String → Option Bool → Service → Step
unfolding enable_webhook
enabled id none s = (s, status 400)
enabled id (some false) s = (s, status 404)
enabled id (some true) s = (record s { health = enable_webhook s.health id }, status 204)

unfoldable pub enable_registered : String → Service → Step
unfolding load has_record enabled enable_webhook
enable_registered id s = elim (load s.webhooks) [
  | none ↦ (s, status 400)
  | some ws ↦ enabled id (has_record id ws) s
]

-- The header `X-User`, or "unknown"
unfoldable pub ack : ℕ → Option String → Instant → Service → Step
unfolding ack_fault
ack id user now s =
    let (faults, found) = ack_fault s.faults id (or_else user "unknown") now in
    (record s { faults = faults }, status (if found then 204 else 404))

-- The length of `timedelta(minutes=minutes)` in microseconds, of a positive number; a Boolean is a
-- number.
abbrev pub snooze_length : Value → Option ℕ
snooze_length (num (pos n)) = if n == 0 then none else some (n * 60)
snooze_length (bool true) = some (1000000 * 60)
snooze_length _ = none

-- `datetime.max`
abbrev pub max_instant : Instant
max_instant = 253402300799999999

-- An OverflowError is none of the errors that `handle_traced` answers.
abbrev pub snoozed : ℕ → Option ℕ → Instant → Service → Step
unfolding snooze_fault
snoozed id none now s = (s, status 400)
snoozed id (some length) now s =
    if ltb max_instant (now + length)
    then (s, server_error)
    else (let (faults, found) = snooze_fault s.faults id (now + length) in
        (record s { faults = faults }, status (if found then 200 else 404)))

unfoldable pub snooze : ℕ → Object → Instant → Service → Step
unfolding lookup snoozed snooze_fault
snooze id body now s = elim (lookup "minutes" body) [
  | none ↦ (s, status 400)
  | some minutes ↦ snoozed id (snooze_length minutes) now s
]

abbrev pub status_of : String → Option Status
status_of s =
    if str_eq s "open" then some opened else if str_eq s "resolved" then some resolved else none

-- The parameters of the URL; a status that no fault has selects none.
unfoldable pub get_faults : Option String → Option String → Option String → Service → List Fault
unfolding list_faults
get_faults none point rule s = list_faults s.faults none point rule
get_faults (some t) point rule s = elim (status_of t) [
  | none ↦ []
  | some st ↦ list_faults s.faults (some st) point rule
]

-- `_redact_webhook`
unfoldable pub redact_webhook : Object → Object
unfolding insert
redact_webhook w = insert "secret" null w

abbrev pub default_health : Health
default_health = record { consecutive_failures = 0; disabled = false; last_error = none }

abbrev pub health_object : Health → Object
health_object h =
    ("disabled", bool h.disabled)
    ∷ ("consecutive_failures", num (pos (h.consecutive_failures * 1000000)))
    ∷ ("last_error", elim h.last_error [ none ↦ null | some e ↦ text e ])
    ∷ []

-- An id that is no text has no row, and a list or a dict cannot be looked up.
abbrev pub health_of : HealthTable String → Value → Option Health
unfolding lookup
health_of t (text i) = some (or_else (lookup i t) default_health)
health_of t (tree s shown) = none
health_of t v = some default_health

abbrev pub listed_webhook : HealthTable String → Object → Option Object
unfolding redact_webhook merge lookup insert
listed_webhook t w = elim (lookup "id" w) [
  | none ↦ none
  | some i ↦ elim (health_of t i) [
    | none ↦ none
    | some h ↦ some (merge (redact_webhook w) (health_object h))
  ]
]

unfoldable pub listed_webhooks : HealthTable String → List Object → Option (List Object)
unfolding listed_webhook redact_webhook merge lookup insert
listed_webhooks t [] = some []
listed_webhooks t (w ∷ ws) = elim (listed_webhook t w) [
  | none ↦ none
  | some o ↦ elim (listed_webhooks t ws) [ none ↦ none | some os ↦ some (o ∷ os) ]
]

unfoldable pub get_webhooks : Service → Response
unfolding load listed_webhooks list_webhook_health
get_webhooks s = elim (load s.webhooks) [
  | none ↦ status 400
  | some ws ↦ elim (listed_webhooks (list_webhook_health s.health) ws) [
    | none ↦ status 400
    | some os ↦ objects os
  ]
]

unfoldable pub get_rules : Service → Response
unfolding load
get_rules s = elim (load s.rules) [ none ↦ status 400 | some rs ↦ objects rs ]

-- What the path of a request asks for.
pub data Post : Type 0 where
  rules webhooks : Post
  enable : String → Post
  ack_of snooze_of : ℕ → Post
  unknown : Post

pub data Get : Type 0 where
  openapi docs rules webhooks : Get
  faults : Option String → Option String → Option String → Get
  unknown : Get

pub data Delete : Type 0 where
  rule webhook : String → Delete
  unknown : Delete

-- The rows of faults, or what the other handlers answer.
pub data Answer : Type 0 where
  fault_rows : List Fault → Answer
  answer : Response → Answer

pub record Headers : Type 0 where
  pub gateway_secret : String
  pub user : Option String

-- What the process was given, and what a request finds.
pub record Env : Type 0 where
  pub expected : Option String
  pub network : Network
  pub allow_private : Bool
  pub fresh_id : String
  pub now : Instant

module _ (e : Env) (h : Headers) where
  -- `_require_gateway` before each handler
  abbrev pub guarded : Service → Step → Step
  unfolding came_through_gateway
  guarded s next =
      if came_through_gateway e.expected h.gateway_secret then next else (s, status 401)

  abbrev pub post : Post → Object → Service → Step
  unfolding create_rule create_webhook enable_registered ack snooze
  post rules body s = create_rule e.fresh_id body s
  post webhooks body s = create_webhook e.network e.allow_private e.fresh_id body s
  post (enable id) body s = enable_registered id s
  post (ack_of i) body s = ack i h.user e.now s
  post (snooze_of i) body s = snooze i body e.now s
  post unknown body s = (s, status 404)

  unfoldable pub do_post : Post → Object → Service → Step
  unfolding guarded post came_through_gateway create_rule create_webhook enable_registered ack
      snooze
  do_post p body s = guarded s (post p body s)

  abbrev pub delete : Delete → Service → Step
  unfolding delete_rule delete_webhook
  delete (rule id) s = delete_rule id s
  delete (webhook id) s = delete_webhook id s
  delete unknown s = (s, status 404)

  unfoldable pub do_delete : Delete → Service → Step
  unfolding guarded delete came_through_gateway delete_rule delete_webhook
  do_delete d s = guarded s (delete d s)

  -- The documents are served to everyone.
  unfoldable pub do_get : Get → Service → Answer
  unfolding came_through_gateway get_rules get_webhooks get_faults
  do_get openapi s = answer served
  do_get docs s = answer served
  do_get rules s =
      if came_through_gateway e.expected h.gateway_secret
      then answer (get_rules s)
      else answer (status 401)
  do_get webhooks s =
      if came_through_gateway e.expected h.gateway_secret
      then answer (get_webhooks s)
      else answer (status 401)
  do_get (faults st point rule_id) s =
      if came_through_gateway e.expected h.gateway_secret
      then fault_rows (get_faults st point rule_id s)
      else answer (status 401)
  do_get unknown s =
      if came_through_gateway e.expected h.gateway_secret
      then answer (status 404)
      else answer (status 401)
