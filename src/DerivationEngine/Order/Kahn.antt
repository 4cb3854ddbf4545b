-- ===== src/DerivationEngine/Order/Kahn.antt =====
-- The nodes that a sorter hands out.
pub mod Start
pub mod Steps
use timberdoodle.Base.{
  ℕ, zero, suc, ◌+◌, ◌≤◌, ◌<◌, ◌≡◌, refl, sym, ap, ◌∙◌, String, Bool, true, false, not, ◌&&◌, ◌||◌,
  Option, none, some, List, [], ◌∷◌, ◌++◌, ◌==◌, length, all, keep, contains, contains-append,
  distinct, str_eq, eq_iff, if◌then◌else◌, arith, all-contains, length-keep, Bool-cases, inl, inr,
  subst,
}
use timberdoodle.Base.Dict.{text_key, lookup}
use timberdoodle.DerivationEngine.Order.{Graph, keys, deps_of, ready_after}

-- Each node stands before what must run before it: the latest comes first.
abbrev pub IsOrdered : Graph → List String → Type 0
IsOrdered g [] = Unit
IsOrdered g (n ∷ done) = (all (contains done) (deps_of g n) ≡ true) × IsOrdered g done

pub all_mono :
    (n : String) (done ds : List String)
    → all (contains done) ds ≡ true
    → all (contains (n ∷ done)) ds ≡ true
all_mono n done [] h = refl
all_mono n done (d ∷ ds) h = ground (arith, all_mono n done ds)

pub all_without :
    (n : String) (done ds : List String)
    → contains ds n ≡ false
    → all (contains (n ∷ done)) ds ≡ true
    → all (contains done) ds ≡ true
all_without n done [] k h = refl
all_without n done (d ∷ ds) k h = ground (arith, all_without n done ds, eq_iff d n, eq_iff n d)

pub IsOrdered-mem :
    (g : Graph) (done : List String) (s : String)
    → IsOrdered g done
    → contains done s ≡ true
    → all (contains done) (deps_of g s) ≡ true
IsOrdered-mem g [] s h m = cc
IsOrdered-mem g (n ∷ done) s h m = elim (Bool-cases (str_eq n s)) [
  | inl e ↦
      all_mono n done (deps_of g s)
        (subst (λ x. all (contains done) (deps_of g x) ≡ true) ((eq_iff n s).0 e) h.0)
  | inr e ↦ all_mono n done (deps_of g s) (IsOrdered-mem g done s h.1 (ground arith))
]

pub distinct-append :
    (xs ys : List String)
    → distinct xs ≡ true
    → distinct ys ≡ true
    → ((s : String) → contains xs s ≡ true → contains ys s ≡ false)
    → distinct (xs ++ ys) ≡ true
distinct-append [] ys h k apart = k
distinct-append (x ∷ xs) ys h k apart = ground (
  arith,
  contains-append xs ys x,
  apart x,
  eq_iff x x,
  distinct-append xs ys (ground arith) k (λ s m. apart s (ground arith)),
)

-- What becomes ready after `n`.
pub contains-ready_after :
    (g : Graph) (n : String) (done : List String) (s : String)
    → distinct (keys g) ≡ true
    → contains (ready_after g n done) s
      ≡ (contains (keys g) s && (contains (deps_of g s) n && all (contains done) (deps_of g s)))
unfolding ready_after deps_of lookup
contains-ready_after [] n done s d = refl
contains-ready_after ((m, ds) ∷ g) n done s d =
    ground (arith, contains-ready_after g n done s, eq_iff m s)

pub distinct-ready_after :
    (g : Graph) (n : String) (done : List String)
    → distinct (keys g) ≡ true
    → distinct (ready_after g n done) ≡ true
unfolding ready_after
distinct-ready_after [] n done d = refl
distinct-ready_after ((m, ds) ∷ g) n done d =
    ground (arith, distinct-ready_after g n done, contains-ready_after g n done m (ground arith))

-- The nodes not handed out yet.
abbrev pub remaining : List String → List String → ℕ
remaining ks done = length (keep (λ k. not (contains done k)) ks)

remaining-le :
    (ks : List String) (n : String) (done : List String)
    → remaining ks (n ∷ done) ≤ remaining ks done
remaining-le [] n done = omega arith
remaining-le (k ∷ ks) n done = ground (arith, remaining-le ks n done)

pub remaining-lt :
    (ks : List String) (n : String) (done : List String)
    → contains ks n ≡ true
    → contains done n ≡ false
    → remaining ks (n ∷ done) < remaining ks done
remaining-lt [] n done h k = cc
remaining-lt (x ∷ ks) n done h k =
    ground (arith, remaining-lt ks n done, remaining-le ks n done, eq_iff x n, eq_iff n x)
