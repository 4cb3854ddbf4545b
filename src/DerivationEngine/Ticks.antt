-- ===== src/DerivationEngine/Ticks.antt =====
-- The ticks of the main loop: which derivations are due, and when they are next.
use timberdoodle.Base.{
  ℕ, ◌+◌, String, Bool, true, false, ◌&&◌, Option, none, some, List, [], ◌∷◌, ◌++◌, ◌==◌, ◌≡◌, refl,
  ◌∙◌, arith, leb, str_eq, eq_iff, contains, contains-append, distinct, if◌then◌else◌, or_else, inl,
  inr, Bool-cases,
}
use timberdoodle.Base.Dict.{text_key, lookup, insert, lookup-insert}
use timberdoodle.Values.{Instant}
use timberdoodle.Faults.{FaultTable}
use timberdoodle.DerivationEngine.{Derivation, Engine, World}
use timberdoodle.DerivationEngine.Sweep.{evaluate_derivations}

abbrev pub NextRun : Type 0
NextRun = List (String × Instant)

-- `d.get("interval_seconds") or tick_seconds`, in microseconds as an instant is.
abbrev pub interval : ℕ → Derivation → ℕ
interval tick d = elim d.interval_seconds [ none ↦ tick | some n ↦ if n == 0 then tick else n ]

abbrev pub is_due : NextRun → Instant → String → Bool
is_due next now id = leb (or_else (lookup id next) now) now

abbrev pub due_ids : NextRun → Instant → List Derivation → List String
due_ids next now [] = []
due_ids next now (d ∷ ds) =
    let rest = due_ids next now ds in if is_due next now d.id then d.id ∷ rest else rest

unfoldable pub reschedule : ℕ → Instant → List String → List Derivation → NextRun → NextRun
reschedule tick now due [] next = next
reschedule tick now due (d ∷ ds) next =
    reschedule tick now due ds
      (if contains due d.id then insert d.id (now + interval tick d) next else next)

module _ (engine : Engine) (faults : Option FaultTable)
    (find_cycle : List (String × List String) → Option (List String)) (tick : ℕ) where
  -- With nothing due the pass does nothing either.
  unfoldable pub run_tick : Instant → List Derivation → World × NextRun → World × NextRun
  unfolding reschedule evaluate_derivations
  run_tick now ds (w, next) =
      let due = due_ids next now ds in
      (
        (evaluate_derivations engine faults now false find_cycle ds (some due) w).0,
        reschedule tick now due ds next,
      )

abbrev pub ids_of : List Derivation → List String
ids_of [] = []
ids_of (d ∷ ds) = d.id ∷ ids_of ds

ids_of-append : (xs ys : List Derivation) → ids_of (xs ++ ys) ≡ ids_of xs ++ ids_of ys
ids_of-append [] ys = refl
ids_of-append (x ∷ xs) ys = cc (ids_of-append xs ys)

contains-due_ids :
    (next : NextRun) (now : Instant) (ds : List Derivation) (id : String)
    → contains (due_ids next now ds) id ≡ (contains (ids_of ds) id && is_due next now id)
contains-due_ids next now [] id = refl
contains-due_ids next now (d ∷ ds) id =
    ground (arith, contains-due_ids next now ds id, eq_iff d.id id)

lookup-reschedule_other :
    (tick : ℕ) (now : Instant) (due : List String) (ds : List Derivation) (next : NextRun)
    (id : String)
    → contains (ids_of ds) id ≡ false
    → lookup id (reschedule tick now due ds next) ≡ lookup id next
unfolding reschedule
lookup-reschedule_other tick now due [] next id h = refl
lookup-reschedule_other tick now due (d ∷ ds) next id h = elim (Bool-cases (contains due d.id)) [
  | inr e ↦ rw (e, reschedule) (lookup-reschedule_other tick now due ds next id (ground (arith, h)))
  | inl e ↦
      rw (e, reschedule)
        (lookup-reschedule_other tick now due ds (insert d.id (now + interval tick d) next) id
            (ground (arith, h))
          ∙ (lookup-insert d.id id (now + interval tick d) next ∙ ground (arith, h)))
]

lookup-reschedule :
    (tick : ℕ) (now : Instant) (due : List String) (pre post : List Derivation) (d : Derivation)
    (next : NextRun)
    → distinct (ids_of (pre ++ d ∷ post)) ≡ true
    → lookup d.id (reschedule tick now due (pre ++ d ∷ post) next)
      ≡ (if contains due d.id then some (now + interval tick d) else lookup d.id next)
unfolding reschedule
lookup-reschedule tick now due [] post d next h = elim (Bool-cases (contains due d.id)) [
  | inr e ↦
      rw (e, reschedule) (lookup-reschedule_other tick now due post next d.id (ground (arith, h)))
  | inl e ↦
      rw (e, reschedule)
        (lookup-reschedule_other tick now due post (insert d.id (now + interval tick d) next) d.id
            (ground (arith, h))
          ∙ (lookup-insert d.id d.id (now + interval tick d) next
              ∙ ground (arith, eq_iff d.id d.id)))
]
lookup-reschedule tick now due (x ∷ pre) post d next h =
    let apart : str_eq x.id d.id ≡ false = ground (
      arith,
      h,
      ids_of-append pre (d ∷ post),
      contains-append (ids_of pre) (ids_of (d ∷ post)) x.id,
      eq_iff x.id d.id,
      eq_iff d.id x.id,
    ) in
    elim (Bool-cases (contains due x.id)) [
      | inr e ↦
          rw (e, reschedule) (lookup-reschedule tick now due pre post d next (ground (arith, h)))
      | inl e ↦
          rw (e, reschedule)
            (lookup-reschedule tick now due pre post d (insert x.id (now + interval tick x) next)
                (ground (arith, h))
              ∙ ground (arith, lookup-insert x.id d.id (now + interval tick x) next, apart))
    ]

-- A derivation that a tick evaluates is due again exactly when its own interval, or that of the ticks
-- if it has none, has passed; one that the tick passes over is due when it was to be. The ids of the
-- derivations are distinct.
pub run_tick_spaces_runs :
    (engine : Engine) (faults : Option FaultTable)
    (find_cycle : List (String × List String) → Option (List String)) (tick : ℕ)
    (now later : Instant) (pre post : List Derivation) (d : Derivation) (w : World) (next : NextRun)
    → distinct (ids_of (pre ++ d ∷ post)) ≡ true
    → is_due (run_tick engine faults find_cycle tick now (pre ++ d ∷ post) (w, next)).1 later d.id
      ≡ (if is_due next now d.id then leb (now + interval tick d) later else is_due next later d.id)
unfolding run_tick
run_tick_spaces_runs engine faults find_cycle tick now later pre post d w next h =
    let ds = pre ++ d ∷ post in
    let found = lookup-reschedule tick now (due_ids next now ds) pre post d next h in
    rw found (
      ground (
        arith,
        contains-due_ids next now ds d.id,
        ids_of-append pre (d ∷ post),
        contains-append (ids_of pre) (ids_of (d ∷ post)) d.id,
        eq_iff d.id d.id,
      ))
