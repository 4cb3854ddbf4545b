-- ===== src/HisQuery/Run/Matches.antt =====
-- `match_entities` over a store that judges each subject.
use timberdoodle.Base.{
  ◌≡◌, refl, inl, inr, String, Bool, true, not, ◌&&◌, ◌||◌, some, List, [], ◌∷◌, keep, contains,
  str_eq, arith, eq_iff, Bool-cases,
}
use timberdoodle.Mapping.{sorted, insert_text, before}
use timberdoodle.HisQuery.{Node, bind}
use timberdoodle.HisQuery.Vocab.{is_schema}
use timberdoodle.HisQuery.Compile.{Vocabularies, Expr, Pattern, evaluate}
use timberdoodle.HisQuery.Compile.Meaning.{is_valid}
use timberdoodle.HisQuery.Compile.Answers.{World, matches, means, compile_filter-means}
use timberdoodle.HisQuery.Run.{Answer, match_entities}

contains-insert_text :
    (x y : String) (xs : List String)
    → contains (insert_text x xs) y ≡ (str_eq x y || contains xs y)
unfolding insert_text
contains-insert_text x y [] = refl
contains-insert_text x y (z ∷ zs) = elim (Bool-cases (before x z)) [
  | inl e ↦ rw e refl
  | inr e ↦ rw (e, contains-insert_text x y zs) (ground arith)
]

contains-sorted : (y : String) (xs : List String) → contains (sorted xs) y ≡ contains xs y
unfolding sorted
contains-sorted y [] = refl
contains-sorted y (x ∷ xs) =
    ground (arith, contains-insert_text x y (sorted xs), contains-sorted y xs)

pub contains-keep_iff :
    (p : String → Bool) (xs : List String) (y : String)
    → contains (keep p xs) y ≡ (contains xs y && p y)
contains-keep_iff p [] y = refl
contains-keep_iff p (x ∷ xs) y = elim (Bool-cases (str_eq x y)) [
  | inl e ↦ ground (arith, contains-keep_iff p xs y, (eq_iff x y).0 e, eq_iff x y)
  | inr e ↦ ground (arith, contains-keep_iff p xs y, e)
]

module _ (v : Vocabularies) (w : World) (entities : List String) (answer : Answer)
    (selects : (q : Expr × List Pattern) (s : String)
      → contains (answer q) s ≡ (contains entities s && evaluate (matches w) s q.1 q.0)) where
  -- For a store that answers a query by the subjects for which its FILTER holds: `match_entities` of a
  -- filter that the compiler takes returns just the subjects of the graph of which the filter says,
  -- by their own triples, that they match, and which are not schema.
  pub match_entities-means :
      (node : Node)
      → is_valid node ≡ true
      → (found : List String) × (match_entities v answer node ≡ some found)
        × ((s : String)
            → contains found s
              ≡ (contains entities s && (means v w s node && not (is_schema v.graph s))))
  unfolding match_entities
  match_entities-means node h =
      let (q, e, m) = compile_filter-means v w node h in
      (
        sorted (keep (λ uri. not (is_schema v.graph uri)) (answer q)),
        rw (e, bind),
        λ s. ground (
          arith,
          contains-sorted s (keep (λ uri. not (is_schema v.graph uri)) (answer q)),
          contains-keep_iff (λ uri. not (is_schema v.graph uri)) (answer q) s,
          selects q s,
          m s,
        ),
      )
