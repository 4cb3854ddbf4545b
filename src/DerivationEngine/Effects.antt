-- ===== src/DerivationEngine/Effects.antt =====
-- What a pass over the derivations can change.
use timberdoodle.Base.{
  String, Bool, true, false, Option, none, some, List, [], ◌∷◌, ◌≡◌, refl, ◌∙◌, inl, inr,
  Bool-cases, Option-cases, arith, str_eq, eq_iff, str_append, ◌&&◌, leb,
}
use timberdoodle.Base.Dict.{pair_key, lookup, lookup-insert}
use timberdoodle.Values.{Instant, Value}
use timberdoodle.Faults.{FaultTable}
use timberdoodle.Health.{Health, count_failure, record_failure, record_success, is_disabled}
use timberdoodle.Health.Target.{
  TargetTable, record_target_failure, record_target_success, is_target_disabled,
}
use timberdoodle.TimeSeries.{moment_key}
use timberdoodle.DerivationEngine.{Derivation, Output, World, Engine}
use timberdoodle.DerivationEngine.Evaluate.{
  fail_target, succeed_target, is_skipped, is_null, with_health, write_and_attach,
}
use timberdoodle.DerivationEngine.Sweep.{evaluate_derivations, on_message, wants, evaluate_formula}
use timberdoodle.DerivationEngine.Steps.{IsKept, evaluate_derivations-Keeps, evaluate_formula-Keeps}

dry_run-IsKept : IsKept true (λ w w'. w' ≡ w)
unfolding fail_target succeed_target
dry_run-IsKept = record {
  same = λ w. refl;
  chain = λ u v w h k. k ∙ h;
  fails = λ d w t e h. refl;
  succeeds = λ d w o now t v inputs h. refl;
}

-- A dry run writes nothing: the graph, the history and the health stay as they were, whatever the
-- functions return or raise.
pub evaluate_derivations_dry_run :
    (engine : Engine) (faults : Option FaultTable) (now : Instant)
    (find_cycle : List (String × List String) → Option (List String)) (ds : List Derivation)
    (only_ids : Option (List String)) (w : World)
    → (evaluate_derivations engine faults now true find_cycle ds only_ids w).0 ≡ w
evaluate_derivations_dry_run engine faults now find_cycle ds only_ids w =
    evaluate_derivations-Keeps true _ dry_run-IsKept engine faults now find_cycle ds only_ids w

on_message-Keeps :
    (R : World → World → Type 0) (kept : IsKept false R) (engine : Engine)
    (faults : Option FaultTable) (now : Instant) (fnmatch : String → String → Bool) (topic : String)
    (ds : List Derivation) (w : World)
    → R w (on_message engine faults fnmatch now topic ds w)
unfolding on_message
on_message-Keeps R kept engine faults now fnmatch topic [] w = kept.same w
on_message-Keeps R kept engine faults now fnmatch topic (d ∷ ds) w =
    let next =
      (evaluate_formula engine faults now false d (some (str_append "urn:point:" topic)) w).0 in
    elim (Bool-cases (wants engine faults fnmatch d topic)) [
      | inr e ↦ rw (e, on_message) (on_message-Keeps R kept engine faults now fnmatch topic ds w)
      | inl e ↦
          rw (e, on_message)
            (kept.chain w next _
              (evaluate_formula-Keeps false R kept engine faults now d
                (some (str_append "urn:point:" topic)) w)
              (on_message-Keeps R kept engine faults now fnmatch topic ds next))
    ]

-- The health row of a target of a derivation.
abbrev pub row_of : String → String → World → Option Health
row_of d t w = elim w.health [ none ↦ none | some table ↦ lookup (d, t) table ]

module _ (d t : String) where
  abbrev Same : World → World → Type 0
  Same w w' = is_skipped d w t ≡ true → row_of d t w' ≡ row_of d t w

  skipped_by_row :
      (w w' : World)
      → row_of d t w' ≡ row_of d t w
      → is_skipped d w t ≡ true
      → is_skipped d w' t ≡ true
  unfolding is_skipped is_target_disabled is_disabled
  skipped_by_row w w' h k = elim (Option-cases w.health) [
    | inl e ↦ absurd (ground (arith, e))
    | inr (x, e) ↦ elim (Option-cases w'.health) [
      | inl f ↦ ground (arith, e, f)
      | inr (y, f) ↦ ground (arith, e, f)
    ]
  ]

  module _ (d' t' : String) (other : (str_eq d' d && str_eq t' t) ≡ false) where
    failure_other :
        (table : TargetTable) (error : String)
        → lookup (d, t) (record_target_failure table d' t' error).0 ≡ lookup (d, t) table
    unfolding record_target_failure record_failure
    failure_other table error =
        elim (Bool-cases
          (leb 5 (count_failure (lookup (d', t') table) error).consecutive_failures)) [
            | inl f ↦
                rw (f, record_failure)
                  (rw (lookup-insert (d', t') (d, t) _ table) (ground (arith, other)))
            | inr f ↦
                rw (f, record_failure)
                  (rw (lookup-insert (d', t') (d, t) _ table) (ground (arith, other)))
          ]

    success_other :
        (table : TargetTable)
        → lookup (d, t) (record_target_success table d' t') ≡ lookup (d, t) table
    unfolding record_target_success record_success
    success_other table = rw (lookup-insert (d', t') (d, t) _ table) (ground (arith, other))

  with_health_other :
      (f : TargetTable → TargetTable) (w : World)
      → ((table : TargetTable) → lookup (d, t) (f table) ≡ lookup (d, t) table)
      → row_of d t (with_health f w) ≡ row_of d t w
  with_health_other f w h = elim (Option-cases w.health) [
    | inl e ↦ rw e refl
    | inr (x, e) ↦ rw e (h x)
  ]

  another :
      (d' t' : String) (w : World)
      → is_skipped d' w t' ≡ false
      → is_skipped d w t ≡ true
      → (str_eq d' d && str_eq t' t) ≡ false
  another d' t' w h k = elim (Bool-cases (str_eq d' d && str_eq t' t)) [
    | inr e ↦ e
    | inl e ↦ absurd (
        ground
          (arith, h, k, (eq_iff d' d).0 (ground (arith, e)), (eq_iff t' t).0 (ground (arith, e))))
  ]

  disabled-IsKept : (dry_run : Bool) → IsKept dry_run Same
  unfolding fail_target succeed_target write_and_attach
  disabled-IsKept dry_run = record {
    same = λ w h. refl;
    chain = λ u v w h k skipped. k (skipped_by_row u v (h skipped) skipped) ∙ h skipped;
    fails = λ d' w t' e h skipped. failed_kept dry_run d' w t' e h skipped;
    succeeds =
        λ d' w o now t' v inputs h skipped. succeeded_kept dry_run d' w o now t' v inputs h skipped;
  }
    where
      failed_kept :
          (dry_run : Bool) (d' : String) (w : World) (t' e : String)
          → is_skipped d' w t' ≡ false
          → is_skipped d w t ≡ true
          → row_of d t (fail_target d' dry_run w t' e) ≡ row_of d t w
      failed_kept true d' w t' e h k = refl
      failed_kept false d' w t' e h k =
          with_health_other _ w (λ table. failure_other d' t' (another d' t' w h k) table e)

      succeeded_kept :
          (dry_run : Bool) (d' : String) (w : World) (o : Output) (now : Instant) (t' : String)
          (v : Value) (inputs : List String)
          → is_skipped d' w t' ≡ false
          → is_skipped d w t ≡ true
          → row_of d t (succeed_target d' dry_run w o now t' v inputs) ≡ row_of d t w
      succeeded_kept true d' w o now t' v inputs h k = refl
      succeeded_kept false d' w o now t' v inputs h k =
          let counted = with_health_other _ w (success_other d' t' (another d' t' w h k)) in
          elim (Bool-cases (is_null v)) [
            | inl e ↦ rw (e, succeed_target) counted
            | inr e ↦ rw (e, succeed_target) counted
          ]

-- A target that is disabled for a derivation stays so, with its row untouched, over any pass and any
-- message: neither counts a failure or a success for it.
pub evaluate_derivations-keeps_disabled :
    (engine : Engine) (faults : Option FaultTable) (now : Instant) (dry_run : Bool)
    (find_cycle : List (String × List String) → Option (List String)) (ds : List Derivation)
    (only_ids : Option (List String)) (fnmatch : String → String → Bool) (topic : String)
    (w : World) (d t : String)
    → is_skipped d w t ≡ true
    → (row_of d t (evaluate_derivations engine faults now dry_run find_cycle ds only_ids w).0
        ≡ row_of d t w)
      × (row_of d t (on_message engine faults fnmatch now topic ds w) ≡ row_of d t w)
evaluate_derivations-keeps_disabled engine faults now dry_run find_cycle ds only_ids fnmatch topic w
      d t h =
    (
      evaluate_derivations-Keeps dry_run (Same d t) (disabled-IsKept d t dry_run) engine faults now
          find_cycle ds only_ids w h,
      on_message-Keeps (Same d t) (disabled-IsKept d t false) engine faults now fnmatch topic ds w
          h,
    )
