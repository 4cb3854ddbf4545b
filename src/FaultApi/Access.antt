-- ===== src/FaultApi/Access.antt =====
-- The state of the fault service behind a request that is refused or fails.
use timberdoodle.Base.{
  ℕ, ◌+◌, ◌≤◌, ◌≡◌, refl, ap, inl, inr, String, Bool, true, false, Option, none, some, List, [],
  ◌∷◌, ◌++◌, ◌==◌, length, map, or_else, if◌then◌else◌, arith, ltb, Bool-cases,
}
use timberdoodle.Base.Dict.{text_key, lookup}
use timberdoodle.Values.{Value, Instant}
use timberdoodle.Webhooks.{Network}
use timberdoodle.JsonStore.{File, load}
use timberdoodle.JsonStore.Records.{
  Object, save, Response, status, object, server_error, append_record, delete_record, has_record,
  others, removed,
}
use timberdoodle.Faults.{Fault, ack_row, snooze_row, has_id}
use timberdoodle.FaultApi.Routes.{post_route, delete_route, handle_post, handle_delete}
use timberdoodle.FaultApi.{
  Service, Step, came_through_gateway, with_rules, with_webhooks, rule_of, create_rule, url_problem,
  new_webhook, register, unless_problem, create_webhook, delete_rule, delete_webhook, enabled,
  enable_registered, ack, snooze_length, max_instant, snoozed, snooze, Post, rules, webhooks,
  enable, ack_of, snooze_of, unknown, Delete, rule, webhook, Env, Headers, guarded, post, do_post,
  delete, do_delete,
}

-- An answer that is an error.
abbrev pub IsError : Response → Type 0
IsError (status c) = 400 ≤ c
IsError server_error = Unit {0}
IsError _ = ⊥

abbrev Keeps : Service → Step → Type 0
Keeps s r = IsError r.1 → r.0 ≡ s

ack_rows-none :
    (i : ℕ) (by : String) (now : Instant) (fs : List Fault)
    → has_id i fs ≡ false
    → map (ack_row i by now) fs ≡ fs
unfolding ack_row
ack_rows-none i by now [] h = refl
ack_rows-none i by now (f ∷ fs) h = ground (arith, h, ack_rows-none i by now fs)

snooze_rows-none :
    (i : ℕ) (until : Instant) (fs : List Fault)
    → has_id i fs ≡ false
    → map (snooze_row i until) fs ≡ fs
unfolding snooze_row
snooze_rows-none i until [] h = refl
snooze_rows-none i until (f ∷ fs) h = ground (arith, h, snooze_rows-none i until fs)

ack-Keeps :
    (i : ℕ) (user : Option String) (now : Instant) (s : Service) → Keeps s (ack i user now s)
unfolding ack
ack-Keeps i user now s h = elim (Bool-cases (has_id i s.faults.rows)) [
  | inl e ↦ absurd (ground (arith, h, e))
  | inr e ↦ ground (arith, ack_rows-none i (or_else user "unknown") now s.faults.rows e)
]

snoozed-Keeps : (i : ℕ) (l : Option ℕ) (now : Instant) (s : Service) → Keeps s (snoozed i l now s)
unfolding snoozed
snoozed-Keeps i none now s h = refl
snoozed-Keeps i (some l) now s h = elim (Bool-cases (ltb max_instant (now + l))) [
  | inl k ↦ rw k refl
  | inr k ↦ elim (Bool-cases (has_id i s.faults.rows)) [
    | inl e ↦ absurd (ground (arith, h, k, e))
    | inr e ↦ ground (arith, k, snooze_rows-none i (now + l) s.faults.rows e)
  ]
]

snooze-Keeps : (i : ℕ) (body : Object) (now : Instant) (s : Service) → Keeps s (snooze i body now s)
unfolding snooze
snooze-Keeps i body now s = go (lookup "minutes" body)
  where
    go :
        (o : Option Value)
        → Keeps s (elim o [ none ↦ (s, status 400) | some m ↦ snoozed i (snooze_length m) now s ])
    go none h = refl
    go (some m) h = snoozed-Keeps i (snooze_length m) now s h

abbrev FileKeeps : File Object → File Object × Response → Type 0
FileKeeps f r = IsError r.1 → r.0 ≡ f

append_record-Keeps : (r : Object) (f : File Object) → FileKeeps f (append_record r f)
unfolding append_record
append_record-Keeps r f = go (load f)
  where
    go :
        (o : Option (List Object))
        → FileKeeps f
            (elim o [ none ↦ (f, status 400) | some rs ↦ (save (rs ++ r ∷ []), object 201 r) ])
    go none h = refl
    go (some rs) h = absurd h

removed-Keeps :
    (f : File Object) (rs : List Object) (o : Option (List Object)) → FileKeeps f (removed f rs o)
unfolding removed
removed-Keeps f rs none h = refl
removed-Keeps f rs (some rest) h = elim (Bool-cases (length rest == length rs)) [
  | inl e ↦ rw e refl
  | inr e ↦ ground (arith, e, h)
]

delete_record-Keeps : (i : String) (f : File Object) → FileKeeps f (delete_record i f)
unfolding delete_record
delete_record-Keeps i f = go (load f)
  where
    go :
        (o : Option (List Object))
        → FileKeeps f (elim o [ none ↦ (f, status 400) | some rs ↦ removed f rs (others i rs) ])
    go none h = refl
    go (some rs) h = removed-Keeps f rs (others i rs) h

with_rules-Keeps :
    (s : Service) (r : File Object × Response) → FileKeeps s.rules r → Keeps s (with_rules s r)
with_rules-Keeps s r k h = ap (λ f. record s { rules = f }) (k h)

with_webhooks-Keeps :
    (s : Service) (r : File Object × Response)
    → FileKeeps s.webhooks r
    → Keeps s (with_webhooks s r)
with_webhooks-Keeps s r k h = ap (λ f. record s { webhooks = f }) (k h)

create_rule-Keeps : (id : String) (body : Object) (s : Service) → Keeps s (create_rule id body s)
unfolding create_rule
create_rule-Keeps id body s = go (rule_of id body)
  where
    go :
        (o : Option Object)
        → Keeps s
            (elim o [ none ↦ (s, status 400) | some r ↦ with_rules s (append_record r s.rules) ])
    go none h = refl
    go (some r) h = with_rules-Keeps s (append_record r s.rules) (append_record-Keeps r s.rules) h

create_webhook-Keeps :
    (net : Network) (allow : Bool) (id : String) (body : Object) (s : Service)
    → Keeps s (create_webhook net allow id body s)
unfolding create_webhook
create_webhook-Keeps net allow id body s = go (lookup "url" body)
  where
    stored : (url : Value) (o : Option Value) → Keeps s (register id body url o s)
    stored url none h = refl
    stored url (some secret) h =
        with_webhooks-Keeps s (append_record (new_webhook id url secret body) s.webhooks)
          (append_record-Keeps (new_webhook id url secret body) s.webhooks) h

    checked : (o : Option Response) (t : Step) → Keeps s t → Keeps s (unless_problem o s t)
    checked (some r) t k h = refl
    checked none t k h = k h

    go :
        (o : Option Value)
        → Keeps s (elim o [
          | none ↦ (s, status 400)
          | some url ↦
              unless_problem
                (url_problem net allow url)
                s
                (register id body url (lookup "secret" body) s)
        ])
    go none h = refl
    go (some url) h =
        checked (url_problem net allow url) (register id body url (lookup "secret" body) s)
          (stored url (lookup "secret" body)) h

enable_registered-Keeps : (id : String) (s : Service) → Keeps s (enable_registered id s)
unfolding enable_registered
enable_registered-Keeps id s = go (load s.webhooks)
  where
    known : (o : Option Bool) → Keeps s (enabled id o s)
    known none h = refl
    known (some false) h = refl
    known (some true) h = absurd (omega (arith, h))

    go :
        (o : Option (List Object))
        → Keeps s (elim o [ none ↦ (s, status 400) | some ws ↦ enabled id (has_record id ws) s ])
    go none h = refl
    go (some ws) h = known (has_record id ws) h

post-Keeps :
    (e : Env) (h : Headers) (p : Post) (body : Object) (s : Service) → Keeps s (post e h p body s)
unfolding post
post-Keeps e h rules body s = create_rule-Keeps e.fresh_id body s
post-Keeps e h webhooks body s = create_webhook-Keeps e.network e.allow_private e.fresh_id body s
post-Keeps e h (enable id) body s = enable_registered-Keeps id s
post-Keeps e h (ack_of i) body s = ack-Keeps i h.user e.now s
post-Keeps e h (snooze_of i) body s = snooze-Keeps i body e.now s
post-Keeps e h unknown body s = λ _. refl

delete-Keeps : (e : Env) (h : Headers) (d : Delete) (s : Service) → Keeps s (delete e h d s)
unfolding delete delete_rule delete_webhook
delete-Keeps e h (rule id) s =
    with_rules-Keeps s (delete_record id s.rules) (delete_record-Keeps id s.rules)
delete-Keeps e h (webhook id) s =
    with_webhooks-Keeps s (delete_record id s.webhooks) (delete_record-Keeps id s.webhooks)
delete-Keeps e h unknown s = λ _. refl

guarded-Keeps :
    (e : Env) (h : Headers) (s : Service) (t : Step) → Keeps s t → Keeps s (guarded e h s t)
unfolding guarded
guarded-Keeps e h s t k = go (came_through_gateway e.expected h.gateway_secret)
  where
    go : (b : Bool) → Keeps s (if b then t else (s, status 401))
    go true i = k i
    go false i = refl

-- A request that may change something, by its path and, of a POST, its body.
pub data Request : Type 0 where
  posted : String → Object → Request
  deleted : String → Request

unfoldable pub handle : Env → Headers → Request → Service → Step
unfolding handle_post handle_delete
handle e h (posted path body) s = handle_post e h path body s
handle e h (deleted path) s = handle_delete e h path s

-- A POST or DELETE request, whatever its path, that is answered with an error, one without the
-- gateway's secret among them, leaves the rules, the webhooks, their health and the faults as they
-- were.
pub handle-error :
    (e : Env) (h : Headers) (r : Request) (s : Service)
    → IsError (handle e h r s).1
    → (handle e h r s).0 ≡ s
unfolding handle handle_post handle_delete do_post do_delete
handle-error e h (posted path body) s i =
    guarded-Keeps e h s (post e h (post_route path) body s)
      (post-Keeps e h (post_route path) body s) i
handle-error e h (deleted path) s i =
    guarded-Keeps e h s (delete e h (delete_route path) s) (delete-Keeps e h (delete_route path) s)
      i
