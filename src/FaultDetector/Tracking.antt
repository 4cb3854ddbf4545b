-- ===== src/FaultDetector/Tracking.antt =====
-- The open faults of a point after a reading of it, and the rules that its value breaks.
use timberdoodle.Base.{
  ℕ, ◌≡◌, refl, String, Bool, true, false, ◌&&◌, Option, none, some, List, [], ◌∷◌, ap, arith,
  str_eq, eq_iff, if◌then◌else◌, is_some, Bool-cases, Option-cases, inl, inr, contains, distinct,
  All, sym, subst, ◌∙◌,
}
use timberdoodle.Values.{Instant, Value}
use timberdoodle.Faults.{Detail, find_open, open_fault, close_fault}
use timberdoodle.Faults.Transitions.{find_open-open, find_open-close}
use timberdoodle.FaultDetector.{Rule, RuleCache, evaluate_range_rule}
use timberdoodle.FaultDetector.Deliver.{Webhook, Payload}
use timberdoodle.FaultDetector.Cur.{
  Detector, announce, raise_fault, clear_fault, point_of, applies, detail_of, act, handle_rule,
  handle_rules,
}

faults-announce :
    (ws : Option (List Webhook)) (x : Payload) (s : Detector) (o : Option ℕ)
    → (announce ws x s o).0.faults ≡ s.faults
unfolding announce
faults-announce ws x s none = refl
faults-announce none x s (some i) = refl
faults-announce (some w) x s (some i) = refl

abbrev open_in : String → String → Detector → Bool
open_in r p s = is_some (find_open r p s.faults.rows)

module _ (ws : Option (List Webhook)) (now : Instant) (r' p' : String) (v : Option Value)
    (s : Detector) (r p : String) where
  open-raise_fault :
      (d : Option Detail) (sev : String)
      → open_in r p (raise_fault ws now r' p' v d sev s).0
        ≡ (if str_eq r' r && str_eq p' p then true else open_in r p s)
  unfolding raise_fault
  open-raise_fault d sev =
      rw
        (
          faults-announce ws _ (record s { faults = (open_fault s.faults r' p' now d sev).0 })
              (open_fault s.faults r' p' now d sev).1,
          find_open-open s.faults r' p' now d sev r p,
        )
        (ground arith)

  open-clear_fault :
      open_in r p (clear_fault ws now r' p' v s).0
      ≡ (if str_eq r' r && str_eq p' p then false else open_in r p s)
  unfolding clear_fault close_fault
  open-clear_fault =
      rw
        (
          faults-announce ws _ (record s { faults = (close_fault s.faults r' p' now).0 })
              (close_fault s.faults r' p' now).1,
          find_open-close r' p' now r p s.faults.rows,
        )
        (ground arith)

abbrev pub ids : List Rule → List String
ids [] = []
ids (rule ∷ rules) = rule.id ∷ ids rules

module _ (fnmatch : String → String → Bool) (cache : RuleCache) (ws : Option (List Webhook))
    (now : Instant) (topic : String) (value : Value) where
  abbrev turn : Rule → Detector → Detector × Bool
  turn = handle_rule fnmatch cache ws now topic value

  abbrev turns : List Rule → Detector → Detector × Bool
  turns = handle_rules fnmatch cache ws now topic value

  abbrev fits : Rule → Option Bool
  fits = applies fnmatch cache topic (point_of topic)

  -- The fault of a rule that is for this point is open exactly if the value breaks the rule.
  abbrev pub IsTracked : Detector → Rule → Type 0
  IsTracked s rule =
      fits rule ≡ some true
      → evaluate_range_rule rule value ≡ some (open_in rule.id (point_of topic) s)

  act_tracks :
      (rule : Rule) (o : Option Bool) (s : Detector)
      → (act fnmatch cache ws now topic value rule o s).1 ≡ false
      → o
        ≡ some (open_in rule.id (point_of topic) (act fnmatch cache ws now topic value rule o s).0)
  unfolding act
  act_tracks rule none s h = cc
  act_tracks rule (some true) s h = elim (Option-cases (detail_of rule value)) [
    | inl e ↦ absurd (ground (arith, e))
    | inr (d, e) ↦
        rw (e, act)
          (rw
            (open-raise_fault ws now rule.id (point_of topic) (some value) s rule.id
              (point_of topic) (some d) _)
            (ground (arith, eq_iff rule.id rule.id, eq_iff (point_of topic) (point_of topic))))
  ]
  act_tracks rule (some false) s h =
      rw (open-clear_fault ws now rule.id (point_of topic) (some value) s rule.id (point_of topic))
        (ground (arith, eq_iff rule.id rule.id, eq_iff (point_of topic) (point_of topic)))

  act_other :
      (rule : Rule) (o : Option Bool) (s : Detector) (r p : String)
      → str_eq rule.id r ≡ false
      → open_in r p (act fnmatch cache ws now topic value rule o s).0 ≡ open_in r p s
  unfolding act
  act_other rule none s r p h = refl
  act_other rule (some true) s r p h = elim (Option-cases (detail_of rule value)) [
    | inl e ↦ rw (e, act) refl
    | inr (d, e) ↦
        rw (e, act)
          (rw (open-raise_fault ws now rule.id (point_of topic) (some value) s r p (some d) _)
            (ground (arith, h)))
  ]
  act_other rule (some false) s r p h =
      rw (open-clear_fault ws now rule.id (point_of topic) (some value) s r p) (ground (arith, h))

  turn_tracks :
      (rule : Rule) (s : Detector) → (turn rule s).1 ≡ false → IsTracked (turn rule s).0 rule
  unfolding handle_rule
  turn_tracks rule s h e =
      let acted = act_tracks rule (evaluate_range_rule rule value) s in
      rw (e, handle_rule) (acted (ground (arith, e)))

  turn_other :
      (rule : Rule) (s : Detector) (r p : String)
      → str_eq rule.id r ≡ false
      → open_in r p (turn rule s).0 ≡ open_in r p s
  unfolding handle_rule
  turn_other rule s r p h = verdict (fits rule) refl
    where
      verdict : (o : Option Bool) → fits rule ≡ o → open_in r p (turn rule s).0 ≡ open_in r p s
      verdict none e = rw (e, handle_rule) refl
      verdict (some false) e = rw (e, handle_rule) refl
      verdict (some true) e =
          rw (e, handle_rule) (act_other rule (evaluate_range_rule rule value) s r p h)

  turns_other :
      (rules : List Rule) (s : Detector) (r p : String)
      → contains (ids rules) r ≡ false
      → open_in r p (turns rules s).0 ≡ open_in r p s
  unfolding handle_rules
  turns_other [] s r p h = refl
  turns_other (rule ∷ rules) s r p h = elim (Bool-cases (turn rule s).1) [
    | inl e ↦ rw (e, handle_rules) (turn_other rule s r p (ground arith))
    | inr e ↦
        rw (e, handle_rules)
          (turns_other rules (turn rule s).0 r p (ground arith)
            ∙ turn_other rule s r p (ground arith))
  ]

  turns_step :
      (rule : Rule) (rules : List Rule) (s : Detector)
      → (turn rule s).1 ≡ false
      → turns (rule ∷ rules) s ≡ turns rules (turn rule s).0
  unfolding handle_rules
  turns_step rule rules s e = rw (e, handle_rules) refl

  raised_first :
      (rule : Rule) (rules : List Rule) (s : Detector)
      → (turns (rule ∷ rules) s).1 ≡ false
      → (turn rule s).1 ≡ false
  unfolding handle_rules
  raised_first rule rules s h = ground arith

  -- A reading that no rule raised on leaves, for each rule that is for its point, a fault open exactly
  -- if the value breaks that rule's range; the rules' ids are distinct.
  pub turns_track :
      (rules : List Rule) (s : Detector)
      → distinct (ids rules) ≡ true
      → (turns rules s).1 ≡ false
      → All (IsTracked (turns rules s).0) rules
  turns_track [] s d h = tt
  turns_track (rule ∷ rules) s d h =
      let e = raised_first rule rules s h in
      let step = turns_step rule rules s e in
      let kept = turns_other rules (turn rule s).0 rule.id (point_of topic) (ground arith) in
      subst (λ (x : Detector × Bool). IsTracked x.0 rule × All (IsTracked x.0) rules) (sym step)
        (
          (λ f. turn_tracks rule s e f ∙ ap some (sym kept)),
          turns_track rules (turn rule s).0 (ground arith) (ap (λ x. x.1) (sym step) ∙ h),
        )
