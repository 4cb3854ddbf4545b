-- ===== src/DerivationEngine/Order/Graphs.antt =====
-- Subgraphs, and what pruning leaves.
use timberdoodle.Base.{
  ℕ, zero, suc, ◌≤◌, ◌<◌, ◌≡◌, refl, sym, ap, ◌∙◌, String, Bool, true, not, none, some, List, [],
  ◌∷◌, ◌==◌, length, all, keep, contains, distinct, str_eq, eq_iff, if◌then◌else◌, arith, is_some,
  inl, inr, Bool-cases, contains-keep, length-keep, ==_iff,
}
use timberdoodle.Base.Dict.{text_key, lookup}
use timberdoodle.DerivationEngine.Order.{Graph, keys, deps_of, delete, prune_pass, prune}

module _ (p : String → Bool) where
  pub keys-keep : (g : Graph) → keys (keep (λ e. p e.0) g) ≡ keep p (keys g)
  keys-keep [] = refl
  keys-keep ((n, ds) ∷ g) = ground (arith, keys-keep g)

  pub lookup-keep :
      (g : Graph) (n : String) → lookup n (keep (λ e. p e.0) g) ≡ (if p n then lookup n g else none)
  unfolding lookup
  lookup-keep [] n = ground arith
  lookup-keep ((m, ds) ∷ g) n = ground (arith, lookup-keep g n, eq_iff m n)

  pub distinct-keep : (xs : List String) → distinct xs ≡ true → distinct (keep p xs) ≡ true
  distinct-keep [] h = refl
  distinct-keep (x ∷ xs) h = ground (arith, distinct-keep xs, contains-keep p xs x)

pub contains-keys : (g : Graph) (n : String) → contains (keys g) n ≡ is_some (lookup n g)
unfolding lookup
contains-keys [] n = refl
contains-keys ((m, ds) ∷ g) n = ground (arith, contains-keys g n)

pub deps_of-some :
    (g : Graph) (n : String) (ds : List String) → lookup n g ≡ some ds → deps_of g n ≡ ds
unfolding deps_of
deps_of-some g n ds e = rw (e, deps_of) refl

pub deps_of_same : (h g : Graph) (n : String) → lookup n h ≡ lookup n g → deps_of h n ≡ deps_of g n
unfolding deps_of
deps_of_same h g n e = ap (λ o. elim o [ none ↦ [] | some ds ↦ ds ]) e

-- A part of a graph: its nodes have the same dependencies there.
pub record IsPart (h g : Graph) : Type 0 where
  pub same : (n : String) → contains (keys h) n ≡ true → lookup n h ≡ lookup n g
  pub distinct_keys : distinct (keys g) ≡ true → distinct (keys h) ≡ true

pub IsPart-refl : (g : Graph) → IsPart g g
IsPart-refl g = record { same = λ n h. refl; distinct_keys = λ h. h }

pub IsPart-trans : (f g h : Graph) → IsPart f g → IsPart g h → IsPart f h
IsPart-trans f g h a b = record {
  same = λ n m.
      a.same n m
      ∙ b.same n (contains-keys g n ∙ ap is_some (sym (a.same n m)) ∙ sym (contains-keys f n) ∙ m);
  distinct_keys = λ d. a.distinct_keys (b.distinct_keys d);
}

pub keep-IsPart : (p : String → Bool) (g : Graph) → IsPart (keep (λ e. p e.0) g) g
keep-IsPart p g = record {
  same = λ n m. ground (arith, lookup-keep p g n, contains-keys (keep (λ e. p e.0) g) n, m);
  distinct_keys = λ d. rw (keys-keep p g) (distinct-keep p (keys g) d);
}

-- Every dependency is a node.
abbrev pub entries_within : List String → Graph → Bool
entries_within ks g = all (λ e. all (contains ks) e.1) g

abbrev pub IsClosed : Graph → Type 0
IsClosed g = entries_within (keys g) g ≡ true

pub within_lookup :
    (ks : List String) (g : Graph) (n : String) (ds : List String)
    → entries_within ks g ≡ true
    → lookup n g ≡ some ds
    → all (contains ks) ds ≡ true
unfolding lookup
within_lookup ks [] n ds h e = cc
within_lookup ks ((m, es) ∷ g) n ds h e = ground (arith, within_lookup ks g n ds)

pub delete-IsPart : (n : String) (g : Graph) → IsPart (delete n g) g
unfolding delete
delete-IsPart n g = keep-IsPart (λ m. not (str_eq m n)) g

prune_pass-IsPart : (es g : Graph) → IsPart (prune_pass es g) g
unfolding prune_pass
prune_pass-IsPart [] g = IsPart-refl g
prune_pass-IsPart ((n, ds) ∷ es) g = elim (Bool-cases (all (contains (keys g)) ds)) [
  | inl e ↦ rw e (prune_pass-IsPart es g)
  | inr e ↦ rw e (
      IsPart-trans (prune_pass es (delete n g)) (delete n g) g (prune_pass-IsPart es (delete n g))
        (delete-IsPart n g))
]

pub prune-IsPart : (fuel : ℕ) (g : Graph) → IsPart (prune fuel g) g
unfolding prune
prune-IsPart zero g = IsPart-refl g
prune-IsPart (suc fuel) g = elim (Bool-cases (length (prune_pass g g) == length g)) [
  | inl e ↦ rw e (prune_pass-IsPart g g)
  | inr e ↦ rw e (
      IsPart-trans (prune fuel (prune_pass g g)) (prune_pass g g) g
        (prune-IsPart fuel (prune_pass g g)) (prune_pass-IsPart g g))
]

-- Deletions make the graph smaller.
length-delete :
    (n : String) (g : Graph) → contains (keys g) n ≡ true → length (delete n g) < length g
unfolding delete
length-delete n [] h = cc
length-delete n ((m, ds) ∷ g) h =
    ground
      (arith, length-delete n g, length-keep (λ (e : String × List String). not (str_eq e.0 n)) g)

length-delete-le : (n : String) (g : Graph) → length (delete n g) ≤ length g
unfolding delete
length-delete-le n g = length-keep (λ e. not (str_eq e.0 n)) g

prune_pass-le : (es g : Graph) → length (prune_pass es g) ≤ length g
unfolding prune_pass
prune_pass-le [] g = omega arith
prune_pass-le ((n, ds) ∷ es) g = elim (Bool-cases (all (contains (keys g)) ds)) [
  | inl e ↦ rw e (prune_pass-le es g)
  | inr e ↦ rw e (omega (arith, prune_pass-le es (delete n g), length-delete-le n g))
]

-- A pass that leaves the number of nodes deletes none, since every entry's dependencies are there.
prune_pass-same :
    (es g : Graph)
    → all (contains (keys g)) (keys es) ≡ true
    → length (prune_pass es g) ≡ length g
    → (entries_within (keys g) es ≡ true) × (prune_pass es g ≡ g)
unfolding prune_pass
prune_pass-same [] g k h = (refl, refl)
prune_pass-same ((n, ds) ∷ es) g k h = elim (Bool-cases (all (contains (keys g)) ds)) [
  | inl e ↦
      let ih = prune_pass-same es g (ground arith) (rw (e) at h) in (ground (arith, ih), rw e ih.1)
  | inr e ↦
      absurd (
        omega (arith, (rw e at h), prune_pass-le es (delete n g), length-delete n g (ground arith)))
]

all_within :
    (xs ys : List String)
    → ((a : String) → contains ys a ≡ true → contains xs a ≡ true)
    → all (contains xs) ys ≡ true
all_within xs [] h = refl
all_within xs (y ∷ ys) h =
    ground (arith, h y, eq_iff y y, all_within xs ys (λ a m. h a (ground arith)))

-- With a unit of fuel for each node, what pruning leaves is closed.
pub prune-IsClosed : (fuel : ℕ) (g : Graph) → length g ≤ fuel → IsClosed (prune fuel g)
unfolding prune
prune-IsClosed zero [] h = refl
prune-IsClosed zero (e ∷ g) h = absurd (omega arith)
prune-IsClosed (suc fuel) g h = elim (Bool-cases (length (prune_pass g g) == length g)) [
  | inl e ↦
      let s =
        prune_pass-same g g (all_within (keys g) (keys g) (λ a m. m))
          ((==_iff (length (prune_pass g g)) (length g)).0 e) in
      rw e (rw s.1 s.0)
  | inr e ↦ rw e (prune-IsClosed fuel (prune_pass g g) (ground (arith, prune_pass-le g g, h)))
]

pub length-prune : (fuel : ℕ) (g : Graph) → length (prune fuel g) ≤ length g
unfolding prune
length-prune zero g = omega arith
length-prune (suc fuel) g = elim (Bool-cases (length (prune_pass g g) == length g)) [
  | inl e ↦ rw e (prune_pass-le g g)
  | inr e ↦ rw e (omega (arith, length-prune fuel (prune_pass g g), prune_pass-le g g))
]
