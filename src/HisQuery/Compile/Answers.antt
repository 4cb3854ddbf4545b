-- ===== src/HisQuery/Compile/Answers.antt =====
-- `compile_filter` against what a filter says of an entity, by the triples that the graph has of it.
use timberdoodle.Base.{
  ℕ, ◌+◌, ◌≡◌, refl, ap, ◌∙◌, String, Bool, true, false, not, ◌&&◌, ◌||◌, some, List, [], ◌∷◌,
  arith, str_eq, any, any-append, length, contains, if◌then◌else◌,
}
use timberdoodle.TripleStore.{brick, td}
use timberdoodle.HisQuery
use timberdoodle.HisQuery.{Literal, str, num, flag, ref_to, Node, has, cmp, and, or}
use timberdoodle.HisQuery.Vocab.{expand}
use timberdoodle.HisQuery.Compile.{
  Pattern, tagged_with, typed_as_any, is_raw_point, is_point, has_point, is_site, refers_to,
  is_point_of, compares, Expr, Vocabularies, ref_to_equip_uri, typed_patterns, class_iris,
  structural, has_patterns, compile_filter, evaluate,
}
use timberdoodle.HisQuery.Compile.Meaning.{
  unnumbered, is_valid, holds_any, satisfies, satisfies_cmp,
}
use timberdoodle.HisQuery.Compile.Correct.{compile_filter-satisfies}

-- The triples of an entity, by predicate; and SPARQL's `=`, `<` and so on, and STR, of two terms.
pub record World : Type 0 where
  pub tags : String → List String
  pub types : String → List String
  pub point_of : String → List String
  pub points : String → List String
  pub values : String → String → List Literal
  pub compare : String → Literal → Literal → Bool
  pub shown : Literal → String

abbrev pub some_of : List String → Bool
some_of [] = false
some_of (x ∷ xs) = true

-- The subjects of a pattern. A variable stands for any term, whatever its name is.
abbrev pub matches : World → Pattern → String → Bool
matches w (tagged_with t) s = contains (w.tags s) t
matches w (typed_as_any n iris) s = any (contains (w.types s)) iris
matches w is_raw_point s = contains (w.types s) (td "RawPoint")
matches w (is_point n) s = some_of (w.point_of s)
matches w (has_point n) s = some_of (w.points s)
matches w is_site s = contains (w.types s) (brick "Site")
matches w (refers_to name n r) s = any (λ x. str_eq (w.shown x) r) (w.values s name)
matches w (is_point_of u) s = contains (w.point_of s) u
matches w (compares name n op lit) s = any (λ x. w.compare op x lit) (w.values s name)

matches-unnumbered :
    (w : World) (p : Pattern) (s : String) → matches w p s ≡ matches w (unnumbered p) s
matches-unnumbered w (tagged_with t) s = refl
matches-unnumbered w (typed_as_any n iris) s = refl
matches-unnumbered w is_raw_point s = refl
matches-unnumbered w (is_point n) s = refl
matches-unnumbered w (has_point n) s = refl
matches-unnumbered w is_site s = refl
matches-unnumbered w (refers_to name n r) s = refl
matches-unnumbered w (is_point_of u) s = refl
matches-unnumbered w (compares name n op lit) s = refl

module _ (v : Vocabularies) (w : World) (s : String) where
  -- Where the entity stands: a raw point or a point of something, what has a point, or a site.
  abbrev pub stands_as : String → Bool
  stands_as name =
      if str_eq name "point"
      then contains (w.types s) (td "RawPoint") || some_of (w.point_of s)
      else if str_eq name "equip"
      then some_of (w.points s)
      else if str_eq name "site"
      then contains (w.types s) (brick "Site")
      else false

  -- A reference is among the values of the name, or is the equipment that the entity is a point of.
  abbrev pub refers : String → String → Bool
  unfolding ref_to_equip_uri
  refers name r =
      any (λ x. str_eq (w.shown x) r) (w.values s name)
      || (str_eq name "equipRef" && contains (w.point_of s) (ref_to_equip_uri r))

  -- A comparison with a reference by `!=` holds where `==` does not, also of an entity that has no
  -- value of the name; every other comparison asks for a value for which it holds.
  abbrev pub compares_to : String → String → Literal → Bool
  unfolding refers ref_to_equip_uri
  compares_to name op (ref_to r) =
      if str_eq name "id"
      then (if str_eq op "==" then str_eq s r else not (str_eq s r))
      else (if str_eq op "==" then refers name r else not (refers name r))
  compares_to name op lit = any (λ x. w.compare op x lit) (w.values s name)

  -- A name is a tag of the entity, or a class that it has or that lies above one that it has, or
  -- says where it stands.
  unfoldable pub means : Node → Bool
  unfolding compares_to refers ref_to_equip_uri class_iris expand
  means (has name) =
      contains (w.tags s) name
      || (any (contains (w.types s)) (expand v.graph (class_iris v name)) || stands_as name)
  means (cmp name op lit) = compares_to name op lit
  means (HisQuery.not a) = not (means a)
  means (and a b) = means a && means b
  means (or a b) = means a || means b

  typed-matches :
      (n : ℕ) (iris : List String)
      → holds_any v (matches w) s (typed_patterns v n iris)
        ≡ any (contains (w.types s)) (expand v.graph iris)
  unfolding typed_patterns expand
  typed-matches n [] = refl
  typed-matches n (c ∷ cs) = ground arith

  structural-matches :
      (name : String) (n : ℕ) → holds_any v (matches w) s (structural v name n) ≡ stands_as name
  unfolding structural
  structural-matches name n = ground arith

  has-matches :
      (name : String) → holds_any v (matches w) s (has_patterns v name 0) ≡ means (has name)
  unfolding has_patterns means
  has-matches name =
      let typed = typed_patterns v 1 (class_iris v name) in
      let rest = structural v name (0 + length typed) in
      ground (
        arith,
        any-append (λ p. matches w p s) typed rest,
        typed-matches 1 (class_iris v name),
        structural-matches name (0 + length typed),
      )

  cmp-matches :
      (name op : String) (lit : Literal)
      → satisfies_cmp v (matches w) s name op lit ≡ compares_to name op lit
  unfolding ref_to_equip_uri
  cmp-matches name op (ref_to r) = ground arith
  cmp-matches name op (str t) = refl
  cmp-matches name op (num t) = refl
  cmp-matches name op (flag t) = refl

  satisfies-means : (node : Node) → satisfies v (matches w) s node ≡ means node
  unfolding satisfies means
  satisfies-means (has name) = has-matches name
  satisfies-means (cmp name op lit) = cmp-matches name op lit
  satisfies-means (HisQuery.not a) = ap not (satisfies-means a)
  satisfies-means (and a b) = rw (satisfies-means a, satisfies-means b) refl
  satisfies-means (or a b) = rw (satisfies-means a, satisfies-means b) refl

-- A filter that the compiler takes is compiled, and for every entity the FILTER over the joined flags
-- says what the filter says by the entity's own triples: by its tags, its classes and its place for a
-- name, by its values for a comparison.
pub compile_filter-means :
    (v : Vocabularies) (w : World) (node : Node)
    → is_valid node ≡ true
    → (q : Expr × List Pattern) × (compile_filter v node ≡ some q)
      × ((s : String) → evaluate (matches w) s q.1 q.0 ≡ means v w s node)
compile_filter-means v w node h =
    let (q, e, m) = compile_filter-satisfies v (matches w) (matches-unnumbered w) node h in
    (q, e, λ s. m s ∙ satisfies-means v w s node)
