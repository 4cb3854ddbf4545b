-- ===== src/FaultDetector/Edges.antt =====
-- The deliveries that webhooks hear of the openings and closings of faults.
use timberdoodle.Base.{
  ℕ, ◌+◌, ◌≡◌, refl, String, Bool, true, false, ◌&&◌, Option, none, some, List, [], ◌∷◌, ◌++◌, map,
  ap, keep, ap, length, arith, str_eq, eq_iff, if◌then◌else◌, is_some, Bool-cases, Option-cases,
  inl, inr,
}
use timberdoodle.Values.{Instant, Value}
use timberdoodle.Faults.{FaultTable, Detail, find_open, open_fault, close_fault}
use timberdoodle.Faults.Transitions.{
  open_fault_new, open_fault_old, find_open-open, find_open-close, first_some,
}
use timberdoodle.Webhooks.{matches_filter}
use timberdoodle.FaultDetector.{Rule, RuleCache, evaluate_range_rule}
use timberdoodle.FaultDetector.Deliver.{
  Webhook, Payload, Job, Event, fault_opened, fault_resolved, fire_webhooks,
}
use timberdoodle.FaultDetector.Cur.{
  Detector, announce, raise_fault, clear_fault, payload_of, point_of, applies, detail_of, act,
  handle_rule, handle_rules,
}

abbrev pub same_event : Event → Event → Bool
same_event fault_opened fault_opened = true
same_event fault_resolved fault_resolved = true
same_event _ _ = false

-- Whether a delivery is of this event of this rule on this point.
abbrev pub tells : Event → String → String → Payload → Bool
tells e r p x = same_event x.event e && (str_eq x.rule_id r && str_eq x.point_uri p)

-- How many deliveries of the event were started.
abbrev pub sent : Event → String → String → List Job → ℕ
sent e r p [] = 0
sent e r p (j ∷ js) = (if tells e r p j.payload then 1 else 0) + sent e r p js

-- How many webhooks a rule's faults go to.
abbrev pub listeners : List Webhook → String → ℕ
listeners ws r = length (keep (λ w. matches_filter w.filter r) ws)

-- The openings that were told are the closings that were told and those of a fault still open.
abbrev pub IsBalanced : List Webhook → String → String → Detector → Type 0
IsBalanced ws r p s =
    sent fault_opened r p s.fired
    ≡ sent fault_resolved r p s.fired
      + (if is_some (find_open r p s.faults.rows) then listeners ws r else 0)

sent-append :
    (e : Event) (r p : String) (xs ys : List Job)
    → sent e r p (xs ++ ys) ≡ sent e r p xs + sent e r p ys
sent-append e r p [] ys = omega arith
sent-append e r p (j ∷ js) ys = omega (arith, sent-append e r p js ys)

sent-jobs :
    (e : Event) (r p : String) (x : Payload) (ws : List Webhook)
    → sent e r p (map (λ w. record { webhook = w; payload = x }) ws)
      ≡ (if tells e r p x then length ws else 0)
sent-jobs e r p x [] = ground arith
sent-jobs e r p x (w ∷ ws) = ground (arith, sent-jobs e r p x ws)

sent-fire :
    (e : Event) (r p : String) (x : Payload) (ws : List Webhook)
    → sent e r p (fire_webhooks ws x) ≡ (if tells e r p x then listeners ws r else 0)
unfolding fire_webhooks
sent-fire e r p x ws =
    rw (sent-jobs e r p x (keep (λ w. matches_filter w.filter x.rule_id) ws))
      (ground (arith, eq_iff x.rule_id r))

-- A fault row changed as the told event says.
module _ (ws : List Webhook) (r' p' : String) (v : Option Value) (s : Detector)
    (t : FaultTable) where
  told : Event → Detector
  told e = record { faults = t; fired = s.fired ++ fire_webhooks ws (payload_of e r' p' v) }

  told_opened :
      (i : ℕ) (r p : String)
      → find_open r' p' s.faults.rows ≡ none
      → find_open r p t.rows
        ≡ first_some
            (find_open r p s.faults.rows)
            (if str_eq r' r && str_eq p' p then some i else none)
      → IsBalanced ws r p s
      → IsBalanced ws r p (told fault_opened)
  unfolding told
  told_opened i r p closed now_open h =
      let x = payload_of fault_opened r' p' v in
      ground (
        arith,
        sent-append fault_opened r p s.fired (fire_webhooks ws x),
        sent-append fault_resolved r p s.fired (fire_webhooks ws x),
        sent-fire fault_opened r p x ws,
        sent-fire fault_resolved r p x ws,
        eq_iff r' r,
        eq_iff p' p,
      )

  told_resolved :
      (i : ℕ) (r p : String)
      → find_open r' p' s.faults.rows ≡ some i
      → find_open r p t.rows
        ≡ (if str_eq r' r && str_eq p' p then none else find_open r p s.faults.rows)
      → IsBalanced ws r p s
      → IsBalanced ws r p (told fault_resolved)
  unfolding told
  told_resolved i r p was_open now_open h =
      let x = payload_of fault_resolved r' p' v in
      ground (
        arith,
        sent-append fault_opened r p s.fired (fire_webhooks ws x),
        sent-append fault_resolved r p s.fired (fire_webhooks ws x),
        sent-fire fault_opened r p x ws,
        sent-fire fault_resolved r p x ws,
        eq_iff r' r,
        eq_iff p' p,
      )

module _ (ws : List Webhook) (now : Instant) (r' p' : String) (v : Option Value) where
  pub raise_fault-IsBalanced :
      (d : Option Detail) (sev : String) (s : Detector) (r p : String)
      → IsBalanced ws r p s
      → IsBalanced ws r p (raise_fault (some ws) now r' p' v d sev s).0
  unfolding raise_fault told
  raise_fault-IsBalanced d sev s r p h = elim (Option-cases (find_open r' p' s.faults.rows)) [
    | inl e ↦ rw (ap (λ x. x.1) (open_fault_new s.faults r' p' now d sev e)) (
        told_opened ws r' p' v s (open_fault s.faults r' p' now d sev).0 s.faults.next_id r p e
          (find_open-open s.faults r' p' now d sev r p) h)
    | inr (i, e) ↦ rw (open_fault_old s.faults r' p' now d sev i e) h
  ]

  pub clear_fault-IsBalanced :
      (s : Detector) (r p : String)
      → IsBalanced ws r p s
      → IsBalanced ws r p (clear_fault (some ws) now r' p' v s).0
  unfolding clear_fault told close_fault
  clear_fault-IsBalanced s r p h = elim (Option-cases (find_open r' p' s.faults.rows)) [
    | inr (i, e) ↦
        rw (e, announce)
          (told_resolved ws r' p' v s (close_fault s.faults r' p' now).0 i r p e
            (find_open-close r' p' now r p s.faults.rows) h)
    | inl e ↦
        rw (e, announce)
          (rw (find_open-close r' p' now r p s.faults.rows)
            (ground (arith, eq_iff r' r, eq_iff p' p, e)))
  ]

module _ (fnmatch : String → String → Bool) (cache : RuleCache) (ws : List Webhook) (now : Instant)
    (topic : String) (value : Value) (r p : String) where
  abbrev pub Keeps : (Detector → Detector × Bool) → Type 0
  Keeps f = (s : Detector) → IsBalanced ws r p s → IsBalanced ws r p (f s).0

  act-Keeps :
      (rule : Rule) (o : Option Bool) → Keeps (act fnmatch cache (some ws) now topic value rule o)
  unfolding act
  act-Keeps rule none s h = h
  act-Keeps rule (some true) s h = elim (Option-cases (detail_of rule value)) [
    | inl e ↦ rw (e, act) h
    | inr (d, e) ↦
        rw (e, act)
          (raise_fault-IsBalanced ws now rule.id (point_of topic) (some value) (some d) _ s r p h)
  ]
  act-Keeps rule (some false) s h =
      clear_fault-IsBalanced ws now rule.id (point_of topic) (some value) s r p h

  handle_rule-Keeps :
      (rule : Rule) → Keeps (handle_rule fnmatch cache (some ws) now topic value rule)
  unfolding handle_rule
  handle_rule-Keeps rule s h = verdict (applies fnmatch cache topic (point_of topic) rule) refl
    where
      verdict :
          (o : Option Bool)
          → applies fnmatch cache topic (point_of topic) rule ≡ o
          → IsBalanced ws r p (handle_rule fnmatch cache (some ws) now topic value rule s).0
      verdict none e = rw (e, handle_rule) h
      verdict (some false) e = rw (e, handle_rule) h
      verdict (some true) e =
          rw (e, handle_rule) (act-Keeps rule (evaluate_range_rule rule value) s h)

  pub handle_rules-Keeps :
      (rules : List Rule) → Keeps (handle_rules fnmatch cache (some ws) now topic value rules)
  unfolding handle_rules
  handle_rules-Keeps [] s h = h
  handle_rules-Keeps (rule ∷ rules) s h =
      let first = handle_rule-Keeps rule s h in
      elim (Bool-cases (handle_rule fnmatch cache (some ws) now topic value rule s).1) [
        | inl e ↦ rw (e, handle_rules) first
        | inr e ↦
            rw (e, handle_rules)
              (handle_rules-Keeps rules
                (handle_rule fnmatch cache (some ws) now topic value rule s).0 first)
      ]
