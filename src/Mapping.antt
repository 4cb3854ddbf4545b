-- ===== src/Mapping.antt =====
-- src/timberdoodle/mapping.py: the Brick class of an entity by the tags that it carries.
use timberdoodle.Base.{
  ℕ, ◌-◌, ◌+◌, String, Bool, true, false, not, ◌&&◌, ◌||◌, Option, none, some, List, [], ◌∷◌, ◌++◌,
  all, keep, contains, length, ltb, leb, str_eq, str_append, if◌then◌else◌, map,
}
use timberdoodle.Values.{Value, text}
use timberdoodle.TripleStore.{
  Term, uri, literal, Triple, Graph, add_entity, add_relationship, remove_relationship, rdf_type,
  brick, proj, td, haystack,
}
use timberdoodle.Ingest.{objects_of}
use Prim.Native.Char.{Char, code}
use Prim.Native.Nat.{Ordering, compare}
use Prim.Native.String.{compare as str_compare}
pub mod Chosen
pub mod Classes
pub mod Fallback
mod Examples

pub record MappingRule : Type 0 where
  pub tags : List String
  pub brick_class : String

-- A set is a list without repetitions.
unfoldable pub as_set : List String → List String
as_set [] = []
as_set (x ∷ xs) = let rest = as_set xs in if contains rest x then rest else x ∷ rest

-- The tags of `haystack:hasTag`; each is a text literal.
abbrev pub texts_of : List Term → List String
texts_of [] = []
texts_of (literal (text s) ∷ ts) = s ∷ texts_of ts
texts_of (_ ∷ ts) = texts_of ts

unfoldable pub read_tags : String → Graph → List String
unfolding objects_of as_set
read_tags point g = as_set (texts_of (objects_of point (haystack "hasTag") g))

-- `set(rule["tags"]) <= tags`
abbrev pub is_direct : List String → MappingRule → Bool
is_direct tags r = all (contains tags) r.tags

-- `len(set(rule["tags"]) & tags)`
unfoldable pub overlap : List String → MappingRule → ℕ
unfolding as_set
overlap tags r = length (keep (contains tags) (as_set r.tags))

-- `max(rules, key=...)`: the first rule of the largest key.
unfoldable pub best_by : (MappingRule → ℕ) → MappingRule → List MappingRule → MappingRule
best_by key r [] = r
best_by key r (s ∷ rs) = best_by key (if ltb (key r) (key s) then s else r) rs

unfoldable pub max_by : (MappingRule → ℕ) → List MappingRule → Option MappingRule
unfolding best_by
max_by key [] = none
max_by key (r ∷ rs) = some (best_by key r rs)

abbrev pub size_of : MappingRule → ℕ
size_of r = length r.tags

pub data Outcome : Type 0 where
  direct : String → Outcome
  fallback : String → Outcome
  miss : Outcome

-- The rule that is taken, and how.
pub data Choice : Type 0 where
  full : MappingRule → Choice
  partial : MappingRule → Choice
  nothing : Choice

unfoldable pub choose : List MappingRule → List String → Choice
unfolding max_by overlap
choose rules tags = elim (max_by size_of (keep (is_direct tags) rules)) [
  | some r ↦ full r
  | none ↦ elim (max_by (overlap tags) (keep (λ r. ltb 0 (overlap tags r)) rules)) [
    | some r ↦ partial r
    | none ↦ nothing
  ]
]

-- `sorted`, by code points.
abbrev pub before : String → String → Bool
before a b = elim (str_compare a b) [ Ordering.gt ↦ false | _ ↦ true ]

unfoldable pub insert_text : String → List String → List String
insert_text x [] = x ∷ []
insert_text x (y ∷ ys) = let rest = insert_text x ys in if before x y then x ∷ y ∷ ys else y ∷ rest

unfoldable pub sorted : List String → List String
unfolding insert_text
sorted [] = []
sorted (x ∷ xs) = insert_text x (sorted xs)

-- `separator.join(parts)`
abbrev pub join : String → List String → String
join sep [] = ""
join sep (x ∷ []) = x
join sep (x ∷ y ∷ xs) = str_append x (str_append sep (join sep (y ∷ xs)))

abbrev pub minus : List String → List String → List String
minus xs ys = keep (λ x. not (contains ys x)) xs

-- The types that classification itself assigns.
abbrev pub starts_with : String → String → Bool
starts_with s String.[] = true
starts_with String.[] (String.◌∷◌ d p) = false
starts_with (String.◌∷◌ c s) (String.◌∷◌ d p) = elim (compare (code c) (code d)) [
  | Ordering.eq ↦ starts_with s p
  | _ ↦ false
]

abbrev pub is_own_class : String → Bool
is_own_class t =
    starts_with t (brick "") || (starts_with t (proj "") || str_eq t (td "UnmappedPoint"))

unfoldable pub remove_types : String → List Term → Graph → Graph
unfolding remove_relationship
remove_types point [] g = g
remove_types point (uri t ∷ ts) g =
    remove_types point ts
      (if is_own_class t then remove_relationship point rdf_type (uri t) g else g)
remove_types point (literal v ∷ ts) g = remove_types point ts g

-- `capitalize` is the string method of the same name.
module _ (capitalize : String → String) where
  unfoldable pub proj_class : MappingRule → List String → String
  unfolding sorted
  proj_class r tags = elim (sorted (map capitalize (minus tags r.tags))) [
    | [] ↦ str_append r.brick_class "_Variant"
    | x ∷ extra ↦ str_append r.brick_class (str_append "_" (join "_" (x ∷ extra)))
  ]

  abbrev pub sub_class_of : String
  sub_class_of = "http://www.w3.org/2000/01/rdf-schema#subClassOf"

  abbrev pub definition : String
  definition = "http://www.w3.org/2004/02/skos/core#definition"

  -- The class that the entity gets.
  unfoldable pub class_for : Choice → List String → String
  unfolding proj_class
  class_for (full r) tags = brick r.brick_class
  class_for (partial r) tags = proj (proj_class r tags)
  class_for nothing tags = td "UnmappedPoint"

  unfoldable pub explain : Choice → List String → Graph → Graph
  unfolding proj_class add_relationship sorted
  explain (partial r) tags g =
      add_relationship (proj (proj_class r tags)) definition
        (literal (text (join ", " (sorted tags))))
        (add_relationship (proj (proj_class r tags)) sub_class_of (uri (brick r.brick_class)) g)
  explain _ tags g = g

  abbrev pub outcome_of : Choice → Outcome
  outcome_of (full r) = direct r.brick_class
  outcome_of (partial r) = fallback r.brick_class
  outcome_of nothing = miss

  unfoldable pub classify_point : List MappingRule → String → Graph → Graph × Outcome
  unfolding choose class_for explain add_entity read_tags
  classify_point rules point g =
      let tags = read_tags point g in
      let c = choose rules tags in
      (explain c tags (add_entity point (class_for c tags) g), outcome_of c)

  unfoldable pub reclassify : List MappingRule → String → Graph → Graph × Outcome
  unfolding remove_types objects_of classify_point
  reclassify rules point g =
      classify_point rules point (remove_types point (objects_of point rdf_type g) g)
