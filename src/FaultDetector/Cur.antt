-- ===== src/FaultDetector/Cur.antt =====
-- Cur-mode rules: what one MQTT reading does to the faults, and the deliveries that it starts.
use timberdoodle.Base.{
  ℕ, String, Bool, true, false, ◌&&◌, Option, none, some, List, [], ◌∷◌, ◌++◌, or_else, contains,
  str_append, if◌then◌else◌,
}
use timberdoodle.Values.{Instant, Value, null}
use timberdoodle.Faults.{FaultTable, Detail, open_fault, close_fault}
use timberdoodle.JsonStore.{File}
use timberdoodle.FaultDetector.{
  Brick, get, Rule, Scope, RuleCache, is_text, evaluate_range_rule, rule_ids_for_point, both,
}
use timberdoodle.FaultDetector.Deliver.{
  Webhook, Payload, Job, Event, fault_opened, fault_resolved, fire_webhooks,
}

-- The faults, and the deliveries that were started, in order.
pub record Detector : Type 0 where
  pub faults : FaultTable
  pub fired : List Job

-- A step that may raise keeps what it wrote before: the second part says whether it raised.
abbrev pub Step : Type 0
Step = Detector × Bool

-- `json_store.load(webhooks_path)` is `none` where it raises.
unfoldable pub fire : Option (List Webhook) → Payload → Detector → Step
unfolding fire_webhooks
fire none payload s = (s, true)
fire (some webhooks) payload s =
    (record s { fired = s.fired ++ fire_webhooks webhooks payload }, false)

abbrev pub payload_of : Event → String → String → Option Value → Payload
payload_of event rule point detail = record {
  event = event;
  rule_id = rule;
  point_uri = point;
  detail = detail;
}

unfoldable pub announce : Option (List Webhook) → Payload → Detector → Option ℕ → Step
unfolding fire
announce webhooks payload s none = (s, false)
announce webhooks payload s (some _) = fire webhooks payload s

-- The two branches on `faulted`, which both modes share.
module _ (webhooks : Option (List Webhook)) (now : Instant) (rule point : String)
    (shown : Option Value) where
  unfoldable pub raise_fault : Option Detail → String → Detector → Step
  unfolding announce
  raise_fault detail severity s =
      let (faults, fault_id) = open_fault s.faults rule point now detail severity in
      announce webhooks (payload_of fault_opened rule point shown) (record s { faults = faults })
        fault_id

  unfoldable pub clear_fault : Detector → Step
  unfolding announce
  clear_fault s =
      let (faults, fault_id) = close_fault s.faults rule point now in
      announce webhooks (payload_of fault_resolved rule point shown) (record s { faults = faults })
        fault_id

-- `topic_to_point_uri` of ingest.py
abbrev pub point_of : String → String
point_of topic = str_append "urn:point:" topic

-- `fnmatch` is the standard library's matcher, an argument here: nothing below depends on it.
module _ (fnmatch : String → String → Bool) (cache : RuleCache) (topic point : String) where
  -- Whether a rule is for this point; `none` is a KeyError.
  unfoldable pub in_scope : Rule → Scope → Option Bool
  in_scope rule scope = elim scope.brick_class [
    | some _ ↦ some (contains (rule_ids_for_point cache point) rule.id)
    | none ↦ both scope.topic_glob (λ glob. some (fnmatch topic glob))
  ]

  unfoldable pub applies : Rule → Option Bool
  unfolding in_scope
  applies rule =
      if is_text rule.mode "cur" && is_text rule.type "range"
      then both rule.applies_to (in_scope rule)
      else some false

-- The detail reads both bounds, so a rule with no `max` raises here when the value is below `min`.
unfoldable pub detail_of : Rule → Value → Option Detail
detail_of rule value =
    both rule.min (λ lo. both rule.max (λ hi. some (record { value = value; min = lo; max = hi })))

module _ (fnmatch : String → String → Bool) (cache : RuleCache) (webhooks : Option (List Webhook))
    (now : Instant) (topic : String) (value : Value) where
  abbrev pub severity_of : Rule → String
  severity_of rule = or_else rule.severity "warning"

  -- `none` is a verdict that raised.
  unfoldable pub act : Rule → Option Bool → Detector → Step
  unfolding raise_fault clear_fault detail_of
  act rule none s = (s, true)
  act rule (some true) s = elim (detail_of rule value) [
    | none ↦ (s, true)
    | some d ↦
        raise_fault webhooks now rule.id (point_of topic) (some value) (some d) (severity_of rule) s
  ]
  act rule (some false) s = clear_fault webhooks now rule.id (point_of topic) (some value) s

  unfoldable pub handle_rule : Rule → Detector → Step
  unfolding act
  handle_rule rule s = elim (applies fnmatch cache topic (point_of topic) rule) [
    | none ↦ (s, true)
    | some false ↦ (s, false)
    | some true ↦ act rule (evaluate_range_rule rule value) s
  ]

  unfoldable pub handle_rules : List Rule → Detector → Step
  unfolding handle_rule
  handle_rules [] s = (s, false)
  handle_rules (rule ∷ rules) s =
      let (s', raised) = handle_rule rule s in if raised then (s', true) else handle_rules rules s'

-- What `rule_cache.get()` finds, and then the loop over the rules.
module _ (fnmatch : String → String → Bool) (brick : Brick) where
  unfoldable pub handle_cur_reading :
      Option ℕ
      → File Rule
      → Option (List Webhook)
      → Instant
      → String
      → Value
      → RuleCache × Detector
      → (RuleCache × Detector) × Bool
  unfolding handle_rules
  handle_cur_reading stat file webhooks now topic value (c, s) =
      let (c', found) = get brick c stat file in
      elim found [
        | none ↦ ((c', s), true)
        | some rules ↦
            let (s', raised) = handle_rules fnmatch c' webhooks now topic value rules s in
            ((c', s'), raised)
      ]

-- The bytes of a message: no JSON, a JSON value that is no object, or an object with its "value".
pub data Message : Type 0 where
  undecodable not_an_object : Message
  object : Option Value → Message

module _ (fnmatch : String → String → Bool) (brick : Brick) where
  unfoldable pub on_message :
      Option ℕ
      → File Rule
      → Option (List Webhook)
      → Instant
      → String
      → Message
      → RuleCache × Detector
      → (RuleCache × Detector) × Bool
  unfolding handle_cur_reading
  on_message stat file webhooks now topic undecodable s = (s, false)
  on_message stat file webhooks now topic not_an_object s = (s, true)
  on_message stat file webhooks now topic (object value) s =
      handle_cur_reading fnmatch brick stat file webhooks now topic (or_else value null) s
