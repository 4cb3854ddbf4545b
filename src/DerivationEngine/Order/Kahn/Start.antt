-- ===== src/DerivationEngine/Order/Kahn/Start.antt =====
-- The nodes that are ready at the start.
use timberdoodle.Base.{
  suc, ◌≡◌, refl, ap, String, true, false, not, ◌||◌, List, [], ◌∷◌, ◌++◌, ◌==◌, length, all,
  contains, contains-append, contains-keep, keep-contains, distinct, str_eq, eq_iff, if◌then◌else◌,
  arith, all-contains, length-keep, Bool-cases, inl, inr,
}
use timberdoodle.DerivationEngine.Order.{Graph, keys, deps_of, meet, encountered, sources, hand_out}
use timberdoodle.DerivationEngine.Order.Graphs.{IsClosed, entries_within, distinct-keep}
use timberdoodle.DerivationEngine.Order.Kahn.{distinct-append}
use timberdoodle.DerivationEngine.Order.Kahn.Steps.{Inv, hand_out-Inv}

contains-meet :
    (seen ns : List String) (a : String)
    → contains (meet seen ns) a ≡ (contains seen a || contains ns a)
contains-meet seen [] a = ground arith
contains-meet seen (n ∷ ns) a = ground (
  arith,
  contains-meet (if contains seen n then seen else seen ++ n ∷ []) ns a,
  contains-append seen (n ∷ []) a,
  eq_iff n a,
)

distinct-snoc :
    (xs : List String) (n : String)
    → distinct xs ≡ true
    → contains xs n ≡ false
    → distinct (xs ++ n ∷ []) ≡ true
distinct-snoc xs n h k = distinct-append xs (n ∷ []) h refl (λ s m. ground (arith, eq_iff n s))

distinct-meet : (seen ns : List String) → distinct seen ≡ true → distinct (meet seen ns) ≡ true
distinct-meet seen [] h = h
distinct-meet seen (n ∷ ns) h = elim (Bool-cases (contains seen n)) [
  | inl e ↦ rw e (distinct-meet seen ns h)
  | inr e ↦ rw e (distinct-meet (seen ++ n ∷ []) ns (distinct-snoc seen n h e))
]

distinct-encountered :
    (seen : List String) (g : Graph) → distinct seen ≡ true → distinct (encountered seen g) ≡ true
unfolding encountered
distinct-encountered seen [] h = h
distinct-encountered seen ((n, ds) ∷ g) h =
    distinct-encountered (meet seen (n ∷ ds)) g (distinct-meet seen (n ∷ ds) h)

encountered_within :
    (ks seen : List String) (g : Graph) (a : String)
    → ((s : String) → contains seen s ≡ true → contains ks s ≡ true)
    → all (contains ks) (keys g) ≡ true
    → entries_within ks g ≡ true
    → contains (encountered seen g) a ≡ true
    → contains ks a ≡ true
unfolding encountered
encountered_within ks seen [] a s k w h = s a h
encountered_within ks seen ((n, ds) ∷ g) a s k w h =
    encountered_within ks (meet seen (n ∷ ds)) g a
      (λ b m.
        ground
          (arith, contains-meet seen (n ∷ ds) b, s b, eq_iff n b, all-contains (contains ks) ds b))
      (ground arith) (ground arith) h

encountered-seen :
    (seen : List String) (g : Graph) (a : String)
    → contains seen a ≡ true
    → contains (encountered seen g) a ≡ true
unfolding encountered
encountered-seen seen [] a h = h
encountered-seen seen ((n, ds) ∷ g) a h =
    encountered-seen (meet seen (n ∷ ds)) g a (ground (arith, contains-meet seen (n ∷ ds) a))

encountered-keys :
    (seen : List String) (g : Graph) (a : String)
    → contains (keys g) a ≡ true
    → contains (encountered seen g) a ≡ true
unfolding encountered
encountered-keys seen [] a h = cc
encountered-keys seen ((n, ds) ∷ g) a h = elim (Bool-cases (str_eq n a)) [
  | inl e ↦
      encountered-seen (meet seen (n ∷ ds)) g a (ground (arith, contains-meet seen (n ∷ ds) a))
  | inr e ↦ encountered-keys (meet seen (n ∷ ds)) g a (ground arith)
]

all_self :
    (xs ys : List String)
    → ((a : String) → contains ys a ≡ true → contains xs a ≡ true)
    → all (contains xs) ys ≡ true
all_self xs [] h = refl
all_self xs (y ∷ ys) h = ground (arith, h y, eq_iff y y, all_self xs ys (λ a m. h a (ground arith)))

no_deps : (ds : List String) → (length ds == 0) ≡ true → ds ≡ []
no_deps [] h = refl
no_deps (d ∷ ds) h = absurd (ground arith)

none_done : (ds : List String) → all (contains []) ds ≡ true → (length ds == 0) ≡ true
none_done [] h = refl
none_done (d ∷ ds) h = cc

start-Inv : (g : Graph) → IsClosed g → Inv g (sources g) []
unfolding sources
start-Inv g closed = record {
  ordered = tt;
  queue_keys = λ s m.
      encountered_within (keys g) [] g s (λ t e. cc) (all_self (keys g) (keys g) (λ a k. k)) closed
        (contains-keep (λ n. length (deps_of g n) == 0) (encountered [] g) s m).0;
  queue_ready = λ s m.
      rw
        (no_deps (deps_of g s)
          (contains-keep (λ n. length (deps_of g n) == 0) (encountered [] g) s m).1)
        refl;
  apart = λ s m. refl;
  distinct_queue =
      distinct-keep (λ n. length (deps_of g n) == 0) (encountered [] g)
        (distinct-encountered [] g refl);
  distinct_done = refl;
  done_keys = λ s m. cc;
  covers = λ s k h. ground (
    arith,
    keep-contains (λ n. length (deps_of g n) == 0) (encountered [] g) s (encountered-keys [] g s k)
        (none_done (deps_of g s) h),
  );
}

length-keys : (g : Graph) → length (keys g) ≡ length g
length-keys [] = refl
length-keys ((n, ds) ∷ g) = ap suc (length-keys g)

pub end-Inv :
    (g : Graph)
    → IsClosed g
    → distinct (keys g) ≡ true
    → Inv g [] (hand_out (length g) g (sources g) [])
end-Inv g closed unique =
    hand_out-Inv g (length g) (sources g) [] unique
      (omega (arith, length-keys g, length-keep (λ k. not (contains [] k)) (keys g)))
      (start-Inv g closed)
