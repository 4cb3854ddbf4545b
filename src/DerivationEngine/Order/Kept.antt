-- ===== src/DerivationEngine/Order/Kept.antt =====
-- Pruning, the removal of cycles, and the nodes that can run.
use timberdoodle.Base.{
  ℕ, zero, suc, ◌<◌, ◌≡◌, refl, ap, ◌∙◌, String, true, false, not, Option, some, List, [], ◌∷◌,
  ◌++◌, ◌==◌, length, all, keep, contains, contains-append, keep-contains, distinct, str_eq, eq_iff,
  arith, length-keep, Bool-cases, inl, inr, is_some, All,
}
use timberdoodle.Base.Dict.{text_key, lookup}
use timberdoodle.DerivationEngine.Order.{Graph, keys, deps_of, delete, prune_pass, prune, without}
use timberdoodle.DerivationEngine.Order.Graphs.{
  IsPart, IsPart-refl, IsPart-trans, keep-IsPart, keys-keep, contains-keys, deps_of-some,
  delete-IsPart,
}

-- A node that can run: it is there, and so can all that must run before it. No such node misses a
-- dependency, directly or not, and none lies on a cycle or behind one.
pub data Runnable (g : Graph) : String → Type 0 where
  run :
      {n : String} (ds : List String)
      → lookup n g ≡ some ds
      → ((d : String) → contains ds d ≡ true → Runnable g d)
      → Runnable g n

-- Each node is an immediate predecessor of the next.
abbrev pub IsWalk : Graph → String → List String → Type 0
IsWalk g a [] = Unit
IsWalk g a (b ∷ rest) = (contains (deps_of g b) a ≡ true) × IsWalk g b rest

-- What graphlib documents of the cycle in a CycleError: a walk whose first and last node are the same.
pub record IsCycle (g : Graph) (c : List String) : Type 0 where
  pub first : String
  pub inner : List String
  pub shape : c ≡ first ∷ (inner ++ first ∷ [])
  pub walk : IsWalk g first (inner ++ first ∷ [])

abbrev pub FindsCycles : (Graph → Option (List String)) → Type 0
FindsCycles find_cycle = (g : Graph) (c : List String) → find_cycle g ≡ some c → IsCycle g c

pub all_if :
    (xs ys : List String)
    → ((a : String) → contains ys a ≡ true → contains xs a ≡ true)
    → all (contains xs) ys ≡ true
all_if xs [] h = refl
all_if xs (y ∷ ys) h = ground (arith, h y, eq_iff y y, all_if xs ys (λ a m. h a (ground arith)))

walk_pred :
    (g : Graph) (a : String) (xs : List String) (n : String)
    → IsWalk g a xs
    → contains xs n ≡ true
    → (m : String) × (contains (a ∷ xs) m ≡ true) × (contains (deps_of g n) m ≡ true)
walk_pred g a [] n w h = cc
walk_pred g a (b ∷ xs) n w h = elim (Bool-cases (str_eq b n)) [
  | inl e ↦ (a, ground (arith, eq_iff a a), rw ((eq_iff b n).0 e) at w.0)
  | inr e ↦ let (m, p, q) = walk_pred g b xs n w.1 (ground arith) in (m, ground arith, q)
]

cycle_pred :
    (g : Graph) (c : List String) (n : String)
    → IsCycle g c
    → contains c n ≡ true
    → (m : String) × (contains c m ≡ true) × (contains (deps_of g n) m ≡ true)
cycle_pred g c n k h =
    let (m, p, q) =
      walk_pred g k.first (k.inner ++ k.first ∷ []) n k.walk
        (ground (arith, k.shape, contains-append k.inner (k.first ∷ []) n, eq_iff k.first n)) in
    (m, rw k.shape p, q)

Runnable-not_cyclic :
    (g : Graph) (c : List String)
    → IsCycle g c
    → (n : String) → Runnable g n
    → contains c n ≡ true
    → ⊥
Runnable-not_cyclic g c k n (run ds e f) h =
    let (m, p, q) = cycle_pred g c n k h in
    Runnable-not_cyclic g c k m (f m (rw (deps_of-some g n ds e) at q)) p

pub record Keeps (h g : Graph) : Type 0 where
  pub part : IsPart h g
  pub kept : (n : String) → Runnable g n → contains (keys h) n ≡ true

pub Runnable-part : (h g : Graph) → Keeps h g → (n : String) → Runnable g n → Runnable h n
Runnable-part h g k n (run ds e f) =
    run ds (k.part.same n (k.kept n (run ds e f)) ∙ e) (λ d m. Runnable-part h g k d (f d m))

Keeps-trans : (f g h : Graph) → Keeps f g → Keeps g h → Keeps f h
Keeps-trans f g h a b = record {
  part = IsPart-trans f g h a.part b.part;
  kept = λ n r. a.kept n (Runnable-part g h b n r);
}

delete_kept :
    (n : String) (g : Graph) (m : String)
    → contains (keys g) m ≡ true
    → str_eq m n ≡ false
    → contains (keys (delete n g)) m ≡ true
unfolding delete
delete_kept n g m h d =
    rw (keys-keep (λ k. not (str_eq k n)) g)
      (keep-contains (λ k. not (str_eq k n)) (keys g) m h (ground (arith, d)))

prune_pass-Keeps :
    (es alive g : Graph)
    → All (λ e. lookup e.0 g ≡ some e.1) es
    → Keeps alive g
    → Keeps (prune_pass es alive) g
unfolding prune_pass
prune_pass-Keeps [] alive g h k = k
prune_pass-Keeps ((n, ds) ∷ es) alive g h k = elim (Bool-cases (all (contains (keys alive)) ds)) [
  | inl e ↦ rw e (prune_pass-Keeps es alive g h.1 k)
  | inr e ↦ rw e (
      prune_pass-Keeps es (delete n alive) g h.1 (record {
        part = IsPart-trans (delete n alive) alive g (delete-IsPart n alive) k.part;
        kept = λ m r. delete_kept n alive m (k.kept m r) (not_deleted m r e);
      }))
]
  where
    stays : (m : String) → Runnable g m → m ≡ n → all (contains (keys alive)) ds ≡ true
    stays m (run es' q f) p =
        all_if (keys alive) ds (λ d i. k.kept d (f d (ground (arith, h.0, q, p, i))))

    not_deleted :
        (m : String) → Runnable g m → all (contains (keys alive)) ds ≡ false → str_eq m n ≡ false
    not_deleted m r e = elim (Bool-cases (str_eq m n)) [
      | inr q ↦ q
      | inl q ↦ cc (stays m r ((eq_iff m n).0 q), e)
    ]

All-lift :
    (es g : Graph) (m : String) (ds : List String)
    → contains (keys es) m ≡ false
    → All (λ e. lookup e.0 g ≡ some e.1) es
    → All (λ e. lookup e.0 ((m, ds) ∷ g) ≡ some e.1) es
unfolding lookup
All-lift [] g m ds h k = tt
All-lift ((n, es) ∷ r) g m ds h k =
    (ground (arith, eq_iff m n, eq_iff n m), All-lift r g m ds (ground arith) k.1)

entries_lookup : (g : Graph) → distinct (keys g) ≡ true → All (λ e. lookup e.0 g ≡ some e.1) g
entries_lookup [] h = tt
entries_lookup ((m, ds) ∷ g) h = (
  unfold lookup in ground (arith, eq_iff m m),
  All-lift g g m ds (ground arith) (entries_lookup g (ground arith)),
)

Keeps-refl : (g : Graph) → Keeps g g
Keeps-refl g = record { part = IsPart-refl g; kept = λ n r. in_keys n r }
  where
    in_keys : (n : String) → Runnable g n → contains (keys g) n ≡ true
    in_keys n (run ds e f) = contains-keys g n ∙ ap is_some e

pub prune-Keeps : (fuel : ℕ) (g : Graph) → distinct (keys g) ≡ true → Keeps (prune fuel g) g
unfolding prune
prune-Keeps zero g u = Keeps-refl g
prune-Keeps (suc fuel) g u =
    let once = prune_pass-Keeps g g g (entries_lookup g u) (Keeps-refl g) in
    elim (Bool-cases (length (prune_pass g g) == length g)) [
      | inl e ↦ rw e once
      | inr e ↦ rw e (
          Keeps-trans (prune fuel (prune_pass g g)) (prune_pass g g) g
            (prune-Keeps fuel (prune_pass g g) (once.part.distinct_keys u)) once)
    ]

module _ (c : List String) (g : Graph) (k : IsCycle g c) where
  pub without-Keeps : Keeps (without c g) g
  unfolding without
  without-Keeps = record {
    part = keep-IsPart (λ n. not (contains c n)) g;
    kept = λ n r.
        rw (keys-keep (λ n. not (contains c n)) g)
          (keep-contains (λ n. not (contains c n)) (keys g) n ((Keeps-refl g).kept n r) (off n r));
  }
    where
      off : (n : String) → Runnable g n → not (contains c n) ≡ true
      off n r = elim (Bool-cases (contains c n)) [
        | inl e ↦ absurd (Runnable-not_cyclic g c k n r e)
        | inr e ↦ rw e refl
      ]

  first_in : contains c k.first ≡ true
  first_in = rw k.shape (ground (arith, eq_iff k.first k.first))

  first_key : contains (keys g) k.first ≡ true
  first_key =
      let (m, p, q) = cycle_pred g c k.first k first_in in
      contains-keys g k.first ∙ (unfold deps_of in ground arith)

keep_shorter :
    (c : List String) (g : Graph) (n : String)
    → contains c n ≡ true
    → contains (keys g) n ≡ true
    → length (keep (λ e. not (contains c e.0)) g) < length g
keep_shorter c [] n h k = cc
keep_shorter c ((m, ds) ∷ g) n h k = ground (
  arith,
  keep_shorter c g n,
  length-keep (λ (e : String × List String). not (contains c e.0)) g,
  eq_iff m n,
)

pub length-without : (c : List String) (g : Graph) → IsCycle g c → length (without c g) < length g
unfolding without
length-without c g k = keep_shorter c g k.first (first_in c g k) (first_key c g k)
