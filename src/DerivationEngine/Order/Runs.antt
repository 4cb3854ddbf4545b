-- ===== src/DerivationEngine/Order/Runs.antt =====
-- What `_topological_order` gives.
use timberdoodle.Base.{
  ℕ, zero, suc, ◌<◌, ◌≡◌, refl, sym, ap, ◌∙◌, String, true, false, ◌||◌, Option, List, [], ◌∷◌,
  length, all, contains, distinct, str_eq, eq_iff, arith, all-contains, Bool-cases, Option-cases,
  inl, inr, subst, is_some, ◌↔◌,
}
use timberdoodle.Base.Dict.{text_key, lookup}
use timberdoodle.DerivationEngine.Order.{
  Graph, keys, deps_of, prune, rev_onto, static_order, without, order_from, topological_order,
  hand_out, sources,
}
use timberdoodle.DerivationEngine.Order.Graphs.{
  IsPart, IsClosed, prune-IsClosed, contains-keys, deps_of-some, deps_of_same, length-prune,
}
use timberdoodle.DerivationEngine.Order.Kahn.{IsOrdered}
use timberdoodle.DerivationEngine.Order.Kahn.Steps.{Inv}
use timberdoodle.DerivationEngine.Order.Kahn.Start.{end-Inv}
use timberdoodle.DerivationEngine.Order.Kept.{
  Runnable, run, FindsCycles, Keeps, prune-Keeps, without-Keeps, length-without, Runnable-part,
  all_if,
}

-- Each node stands behind all that must run before it.
abbrev pub InOrder : Graph → List String → List String → Type 0
InOrder g seen [] = Unit
InOrder g seen (n ∷ ns) = (all (contains seen) (deps_of g n) ≡ true) × InOrder g (n ∷ seen) ns

InOrder-rev_onto :
    (g : Graph) (done acc : List String)
    → IsOrdered g done
    → InOrder g done acc
    → InOrder g [] (rev_onto done acc)
InOrder-rev_onto g [] acc h k = k
InOrder-rev_onto g (n ∷ done) acc h k = InOrder-rev_onto g done (n ∷ acc) h.1 (h.0, k)

contains-rev_onto :
    (xs acc : List String) (a : String)
    → contains (rev_onto xs acc) a ≡ (contains xs a || contains acc a)
contains-rev_onto [] acc a = refl
contains-rev_onto (x ∷ xs) acc a = ground (arith, contains-rev_onto xs (x ∷ acc) a)

distinct-rev_onto :
    (xs acc : List String)
    → distinct xs ≡ true
    → distinct acc ≡ true
    → ((s : String) → contains xs s ≡ true → contains acc s ≡ false)
    → distinct (rev_onto xs acc) ≡ true
distinct-rev_onto [] acc h k apart = k
distinct-rev_onto (x ∷ xs) acc h k apart =
    distinct-rev_onto xs (x ∷ acc) (ground arith) (ground (arith, apart x, eq_iff x x))
      (λ s m. ground (arith, apart s, eq_iff x s))

pub record IsSchedule (g : Graph) (o : List String) : Type 0 where
  pub in_order : InOrder g [] o
  pub once : distinct o ≡ true
  pub nodes : (n : String) → contains o n ≡ true → contains (keys g) n ≡ true
  pub all_runnable : (n : String) → Runnable g n → contains o n ≡ true

Runnable-done :
    (g : Graph) (done : List String)
    → Inv g [] done
    → (n : String) → Runnable g n
    → contains done n ≡ true
Runnable-done g done inv n (run ds e f) =
    inv.covers n (contains-keys g n ∙ ap is_some e)
      (rw (deps_of-some g n ds e) (all_if done ds (λ d m. Runnable-done g done inv d (f d m))))

static_order-IsSchedule :
    (g : Graph) → IsClosed g → distinct (keys g) ≡ true → IsSchedule g (static_order g)
unfolding static_order
static_order-IsSchedule g closed unique =
    let inv = end-Inv g closed unique in
    let done = hand_out (length g) g (sources g) [] in
    record {
      in_order = InOrder-rev_onto g done [] inv.ordered tt;
      once = distinct-rev_onto done [] inv.distinct_done refl (λ s m. refl);
      nodes = λ n m. inv.done_keys n (ground (arith, contains-rev_onto done [] n));
      all_runnable =
          λ n r. ground (arith, contains-rev_onto done [] n, Runnable-done g done inv n r);
    }

InOrder-part :
    (h g : Graph) (seen o : List String)
    → IsPart h g
    → ((n : String) → contains o n ≡ true → contains (keys h) n ≡ true)
    → InOrder h seen o
    → InOrder g seen o
InOrder-part h g seen [] part within k = tt
InOrder-part h g seen (n ∷ o) part within k = (
  rw (deps_of_same h g n (part.same n (within n (ground (arith, eq_iff n n))))) at k.0,
  InOrder-part h g (n ∷ seen) o part (λ m p. within m (ground arith)) k.1,
)

lift-IsSchedule : (h g : Graph) (o : List String) → Keeps h g → IsSchedule h o → IsSchedule g o
lift-IsSchedule h g o kept s = record {
  in_order = InOrder-part h g [] o kept.part s.nodes s.in_order;
  once = s.once;
  nodes = λ n m.
      contains-keys g n
      ∙ ap is_some (sym (kept.part.same n (s.nodes n m)))
      ∙ sym (contains-keys h n)
      ∙ s.nodes n m;
  all_runnable = λ n r. s.all_runnable n (Runnable-part h g kept n r);
}

module _ (find_cycle : Graph → Option (List String)) (sound : FindsCycles find_cycle) where
  order_from-IsSchedule :
      (fuel : ℕ) (g : Graph)
      → length g < fuel
      → distinct (keys g) ≡ true
      → IsSchedule g (order_from find_cycle fuel g)
  unfolding order_from
  order_from-IsSchedule zero g h unique = absurd (omega arith)
  order_from-IsSchedule (suc fuel) g h unique =
      let alive = prune (length g) g in
      let kept = prune-Keeps (length g) g unique in
      let unique' = kept.part.distinct_keys unique in
      elim (Option-cases (find_cycle alive)) [
        | inl e ↦
            rw (e, order_from)
              (lift-IsSchedule alive g _ kept
                (static_order-IsSchedule alive (prune-IsClosed (length g) g (omega arith)) unique'))
        | inr (c, e) ↦
            let kept' = without-Keeps c alive (sound alive c e) in
            rw (e, order_from)
              (lift-IsSchedule alive g _ kept (
                lift-IsSchedule (without c alive) alive _ kept' (
                  order_from-IsSchedule fuel (without c alive)
                    (omega
                      (arith, length-without c alive (sound alive c e), length-prune (length g) g))
                    (kept'.part.distinct_keys unique'))))
      ]

head_Runnable :
    (g : Graph) (seen : List String) (n : String)
    → contains (keys g) n ≡ true
    → ((m : String) → contains seen m ≡ true → Runnable g m)
    → all (contains seen) (deps_of g n) ≡ true
    → Runnable g n
head_Runnable g seen n key known ready = elim (Option-cases (lookup n g)) [
  | inl e ↦ cc (key, contains-keys g n, ap is_some e)
  | inr (ds, e) ↦
      run ds e
        λ d m. known d (all-contains (contains seen) ds d (rw (deps_of-some g n ds e) at ready) m)
]

InOrder→Runnable :
    (g : Graph) (seen o : List String)
    → ((n : String) → contains o n ≡ true → contains (keys g) n ≡ true)
    → ((n : String) → contains seen n ≡ true → Runnable g n)
    → InOrder g seen o
    → (n : String) → contains o n ≡ true
    → Runnable g n
InOrder→Runnable g seen [] nodes known k n m = cc
InOrder→Runnable g seen (a ∷ o) nodes known k n m =
    let here = head_Runnable g seen a (nodes a (ground (arith, eq_iff a a))) known k.0 in
    elim (Bool-cases (str_eq a n)) [
      | inl e ↦ subst (Runnable g) ((eq_iff a n).0 e) here
      | inr e ↦
          InOrder→Runnable g (a ∷ seen) o (λ s p. nodes s (ground arith))
            (λ s p. elim (Bool-cases (str_eq a s)) [
              | inl q ↦ subst (Runnable g) ((eq_iff a s).0 q) here
              | inr q ↦ known s (ground arith)
            ])
            k.1 n (ground arith)
    ]

-- Whatever cycles graphlib reports, as it documents them: in the order that `_topological_order`
-- gives, each node stands behind all that it depends on and stands once; and the order has exactly the
-- nodes that can run, so a node is left out only for a dependency that is missing or cyclic, its own
-- or that of something that it depends on.
pub topological_order_exact :
    (find_cycle : Graph → Option (List String)) (g : Graph)
    → FindsCycles find_cycle
    → distinct (keys g) ≡ true
    → InOrder g [] (topological_order find_cycle g)
      × (distinct (topological_order find_cycle g) ≡ true)
      × ((n : String) → (contains (topological_order find_cycle g) n ≡ true) ↔ Runnable g n)
unfolding topological_order
topological_order_exact find_cycle g sound unique =
    let s = order_from-IsSchedule find_cycle sound (suc (length g)) g (omega arith) unique in
    (
      s.in_order,
      s.once,
      λ n. (
        InOrder→Runnable g [] (order_from find_cycle (suc (length g)) g) s.nodes (λ m p. cc)
            s.in_order n,
        s.all_runnable n,
      ),
    )
