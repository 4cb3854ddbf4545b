-- ===== src/DerivationEngine/Order/Kahn/Steps.antt =====
-- What holds while a sorter hands out its nodes, and when it is done.
use timberdoodle.Base.{
  ℕ, zero, suc, ◌≤◌, ◌≡◌, String, true, false, ◌||◌, List, [], ◌∷◌, ◌++◌, all, contains,
  contains-append, distinct, str_eq, eq_iff, arith, all-contains, Bool-cases, inl, inr,
}
use timberdoodle.DerivationEngine.Order.{Graph, keys, deps_of, ready_after, hand_out}
use timberdoodle.DerivationEngine.Order.Kahn.{
  IsOrdered, all_mono, all_without, IsOrdered-mem, distinct-append, contains-ready_after,
  distinct-ready_after, remaining, remaining-lt,
}

pub record Inv (g : Graph) (queue done : List String) : Type 0 where
  pub ordered : IsOrdered g done
  pub queue_keys : (s : String) → contains queue s ≡ true → contains (keys g) s ≡ true
  pub queue_ready :
      (s : String) → contains queue s ≡ true → all (contains done) (deps_of g s) ≡ true
  pub apart : (s : String) → contains queue s ≡ true → contains done s ≡ false
  pub distinct_queue : distinct queue ≡ true
  pub distinct_done : distinct done ≡ true
  pub done_keys : (s : String) → contains done s ≡ true → contains (keys g) s ≡ true
  pub covers :
      (s : String)
      → contains (keys g) s ≡ true
      → all (contains done) (deps_of g s) ≡ true
      → (contains queue s || contains done s) ≡ true

module _ (g : Graph) (unique : distinct (keys g) ≡ true) (n : String) (queue done : List String)
    (inv : Inv g (n ∷ queue) done) where
  abbrev fresh : List String
  fresh = ready_after g n (n ∷ done)

  -- a node that becomes ready waited on `n`, and so had not been ready
  fresh_lem :
      (s : String)
      → contains fresh s ≡ true
      → (contains (keys g) s ≡ true)
        × (contains (deps_of g s) n ≡ true)
        × (all (contains (n ∷ done)) (deps_of g s) ≡ true)
  fresh_lem s m = ground (arith, contains-ready_after g n (n ∷ done) s unique)

  head_new : contains done n ≡ false
  head_new = inv.apart n (ground (arith, eq_iff n n))

  not_waiting :
      (s : String) → contains fresh s ≡ true → all (contains done) (deps_of g s) ≡ true → ⊥
  not_waiting s m h =
      cc (all-contains (contains done) (deps_of g s) n h (fresh_lem s m).1, head_new)

  fresh_apart : (s : String) → contains queue s ≡ true → contains fresh s ≡ false
  fresh_apart s m = elim (Bool-cases (contains fresh s)) [
    | inl e ↦ absurd (not_waiting s e (inv.queue_ready s (ground arith)))
    | inr e ↦ e
  ]

  fresh_new : (s : String) → contains fresh s ≡ true → contains (n ∷ done) s ≡ false
  fresh_new s m = elim (Bool-cases (contains (n ∷ done) s)) [
    | inr e ↦ e
    | inl e ↦ elim (Bool-cases (str_eq n s)) [
      | inl q ↦ absurd (not_waiting s m (inv.queue_ready s (ground arith)))
      | inr q ↦ absurd (not_waiting s m (IsOrdered-mem g done s inv.ordered (ground arith)))
    ]
  ]

  step_apart : (s : String) → contains (queue ++ fresh) s ≡ true → contains (n ∷ done) s ≡ false
  step_apart s m = ground (
    arith,
    contains-append queue fresh s,
    fresh_new s,
    inv.apart s,
    inv.distinct_queue,
    eq_iff n s,
  )

  step_covers :
      (s : String)
      → contains (keys g) s ≡ true
      → all (contains (n ∷ done)) (deps_of g s) ≡ true
      → (contains (queue ++ fresh) s || contains (n ∷ done) s) ≡ true
  step_covers s k h = ground (
    arith,
    contains-append queue fresh s,
    contains-ready_after g n (n ∷ done) s unique,
    inv.covers s k,
    all_without n done (deps_of g s),
  )

  step_queue_ready :
      (s : String)
      → contains (queue ++ fresh) s ≡ true
      → all (contains (n ∷ done)) (deps_of g s) ≡ true
  step_queue_ready s m = ground (
    arith,
    contains-append queue fresh s,
    fresh_lem s,
    inv.queue_ready s,
    all_mono n done (deps_of g s),
  )

  pub step-Inv : Inv g (queue ++ ready_after g n (n ∷ done)) (n ∷ done)
  step-Inv = record {
    ordered = (inv.queue_ready n (ground (arith, eq_iff n n)), inv.ordered);
    queue_keys =
        λ s m. ground (arith, contains-append queue fresh s, fresh_lem s, inv.queue_keys s);
    queue_ready = step_queue_ready;
    apart = step_apart;
    distinct_queue =
        distinct-append queue fresh (ground (arith, inv.distinct_queue))
          (distinct-ready_after g n (n ∷ done) unique) fresh_apart;
    distinct_done = ground (arith, inv.distinct_done, head_new);
    done_keys = λ s m. ground (arith, inv.done_keys s, inv.queue_keys s, eq_iff n s);
    covers = step_covers;
  }

-- With a unit of fuel for each node that is left, the queue runs empty.
pub hand_out-Inv :
    (g : Graph) (fuel : ℕ) (queue done : List String)
    → distinct (keys g) ≡ true
    → remaining (keys g) done ≤ fuel
    → Inv g queue done
    → Inv g [] (hand_out fuel g queue done)
unfolding hand_out
hand_out-Inv g zero [] done u h inv = inv
hand_out-Inv g zero (n ∷ queue) done u h inv = absurd (
    omega (
      arith,
      remaining-lt (keys g) n done (inv.queue_keys n (ground (arith, eq_iff n n)))
          (inv.apart n (ground (arith, eq_iff n n))),
    ))
hand_out-Inv g (suc fuel) [] done u h inv = inv
hand_out-Inv g (suc fuel) (n ∷ queue) done u h inv =
    hand_out-Inv g fuel (queue ++ ready_after g n (n ∷ done)) (n ∷ done) u
      (omega (
        arith,
        remaining-lt (keys g) n done (inv.queue_keys n (ground (arith, eq_iff n n)))
            (inv.apart n (ground (arith, eq_iff n n))),
      ))
      (step-Inv g u n queue done inv)
