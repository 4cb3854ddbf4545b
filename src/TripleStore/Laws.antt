-- ===== src/TripleStore/Laws.antt =====
-- Membership after an addition or a removal.
use timberdoodle.Base.{
  Bool, true, false, ◌&&◌, ◌||◌, List, [], ◌∷◌, ◌++◌, keep, eq_iff, ◌≡◌, refl, ◌↔◌, arith, inl, inr,
  Bool-cases,
}
use timberdoodle.Base.Int.{ℤ, pos, negsuc}
use timberdoodle.Values.{Value, null, bool, num, text, tree}
use timberdoodle.TripleStore.{
  Term, uri, literal, Triple, Graph, same_int, same_value, same_term, same_triple, holds, add,
  add_many,
}

same_int_iff : (a b : ℤ) → (same_int a b ≡ true) ↔ (a ≡ b)
same_int_iff (pos m) (pos n) = ground arith
same_int_iff (negsuc m) (negsuc n) = ground arith
same_int_iff (pos m) (negsuc n) = ground arith
same_int_iff (negsuc m) (pos n) = ground arith

same_value_iff : (a b : Value) → (same_value a b ≡ true) ↔ (a ≡ b)
same_value_iff null b = ground arith
same_value_iff (bool true) b = ground arith
same_value_iff (bool false) b = ground arith
same_value_iff (num a) (num b) = ground (arith, same_int_iff a b)
same_value_iff (num a) b = ground arith
same_value_iff (text a) (text b) = ground (arith, eq_iff a b)
same_value_iff (text a) b = ground arith
same_value_iff (tree a x) (tree b y) = ground (arith, eq_iff a b, eq_iff x y)
same_value_iff (tree a x) b = ground arith

same_term_iff : (a b : Term) → (same_term a b ≡ true) ↔ (a ≡ b)
same_term_iff (uri a) (uri b) = ground (arith, eq_iff a b)
same_term_iff (literal a) (literal b) = ground (arith, same_value_iff a b)
same_term_iff (uri a) (literal b) = ground arith
same_term_iff (literal a) (uri b) = ground arith

pub same_triple_iff : (a b : Triple) → (same_triple a b ≡ true) ↔ (a ≡ b)
same_triple_iff a b = ground (
  arith,
  eq_iff a.subject b.subject,
  eq_iff a.predicate b.predicate,
  same_term_iff a.object b.object,
)

holds-append : (g : Graph) (t u : Triple) → holds (g ++ t ∷ []) u ≡ (holds g u || same_triple t u)
holds-append [] t u = ground arith
holds-append (v ∷ g) t u = ground (arith, holds-append g t u)

pub holds-add :
    (t : Triple) (g : Graph) (u : Triple) → holds (add t g) u ≡ (holds g u || same_triple t u)
unfolding add
holds-add t g u = elim (Bool-cases (holds g t)) [
  | inl e ↦ rw e (ground (arith, same_triple_iff t u, e))
  | inr e ↦ rw e (holds-append g t u)
]

pub holds-add_many :
    (ts : List Triple) (g : Graph) (u : Triple)
    → holds (add_many ts g) u ≡ (holds g u || holds ts u)
unfolding add_many
holds-add_many [] g u = ground arith
holds-add_many (t ∷ ts) g u = ground (arith, holds-add_many ts (add t g) u, holds-add t g u)

pub holds-keep :
    (p : Triple → Bool) (g : Graph) (u : Triple) → holds (keep p g) u ≡ (holds g u && p u)
holds-keep p [] u = refl
holds-keep p (v ∷ g) u = ground (arith, holds-keep p g u, same_triple_iff v u)
