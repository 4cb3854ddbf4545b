-- ===== src/Mapping/Classes.antt =====
-- The types of an entity after it is classified again.
use timberdoodle.Base.{
  String, Bool, false, not, ◌&&◌, ◌||◌, List, [], ◌∷◌, ◌≡◌, refl, ◌∙◌, arith, any, str_eq, eq_iff,
  inl, inr, Bool-cases,
}
use timberdoodle.Values.{text}
use timberdoodle.TripleStore.{
  Term, uri, literal, Triple, Graph, holds, same_term, same_triple, add, add_entity,
  add_relationship, remove_relationship, rdf_type, haystack, brick, proj,
}
use timberdoodle.TripleStore.Laws.{holds-add, holds-keep}
use timberdoodle.Ingest.{objects_of, says}
use timberdoodle.Mapping.{
  MappingRule, Choice, full, partial, nothing, choose, read_tags, class_for, explain,
  classify_point, is_own_class, remove_types, reclassify, sub_class_of, definition, proj_class,
  join, sorted,
}

abbrev listed : List Term → String → Bool
listed ts c = any (λ t. same_term t (uri c)) ts

listed-objects_of :
    (s p c : String) (g : Graph) → listed (objects_of s p g) c ≡ holds g (says s p c)
unfolding objects_of
listed-objects_of s p c [] = refl
listed-objects_of s p c (t ∷ g) = ground (arith, listed-objects_of s p c g)

holds-remove_relationship :
    (s t : String) (g : Graph) (u : Triple)
    → holds (remove_relationship s rdf_type (uri t) g) u
      ≡ (holds g u && not (same_triple u (says s rdf_type t)))
unfolding remove_relationship
holds-remove_relationship s t g u = holds-keep _ g u

holds-remove_types :
    (point c : String) (ts : List Term) (g : Graph)
    → holds (remove_types point ts g) (says point rdf_type c)
      ≡ (holds g (says point rdf_type c) && not (is_own_class c && listed ts c))
unfolding remove_types
holds-remove_types point c [] g = ground arith
holds-remove_types point c (literal v ∷ ts) g = ground (arith, holds-remove_types point c ts g)
holds-remove_types point c (uri t ∷ ts) g = elim (Bool-cases (is_own_class t)) [
  | inl e ↦
      rw (e, remove_types)
        (ground (
          arith,
          e,
          holds-remove_types point c ts (remove_relationship point rdf_type (uri t) g),
          holds-remove_relationship point t g (says point rdf_type c),
          eq_iff t c,
          eq_iff c t,
          eq_iff point point,
          eq_iff rdf_type rdf_type,
        ))
  | inr e ↦ rw (e, remove_types) (ground (arith, e, holds-remove_types point c ts g, eq_iff t c))
]

objects_of-remove :
    (s p t : String) (g : Graph)
    → str_eq rdf_type p ≡ false
    → objects_of s p (remove_relationship s rdf_type (uri t) g) ≡ objects_of s p g
unfolding objects_of remove_relationship
objects_of-remove s p t [] h = refl
objects_of-remove s p t (u ∷ g) h =
    ground
      (arith, h, objects_of-remove s p t g h, eq_iff u.predicate p, eq_iff u.predicate rdf_type)

read_tags-remove_types :
    (point : String) (ts : List Term) (g : Graph)
    → read_tags point (remove_types point ts g) ≡ read_tags point g
unfolding remove_types read_tags
read_tags-remove_types point [] g = refl
read_tags-remove_types point (literal v ∷ ts) g = read_tags-remove_types point ts g
read_tags-remove_types point (uri t ∷ ts) g = elim (Bool-cases (is_own_class t)) [
  | inr e ↦ rw (e, remove_types) (read_tags-remove_types point ts g)
  | inl e ↦
      rw (e, remove_types)
        (read_tags-remove_types point ts (remove_relationship point rdf_type (uri t) g)
          ∙ (unfold read_tags in rw (objects_of-remove point (haystack "hasTag") t g refl) refl))
]

module _ (capitalize : String → String) where
  holds-explain :
      (c : Choice) (tags : List String) (g : Graph) (point class : String)
      → holds (explain capitalize c tags g) (says point rdf_type class)
        ≡ holds g (says point rdf_type class)
  unfolding explain add_relationship
  holds-explain (full r) tags g point class = refl
  holds-explain nothing tags g point class = refl
  holds-explain (partial r) tags g point class =
      let name = proj (proj_class capitalize r tags) in
      let sub : Triple = says name (sub_class_of capitalize) (brick r.brick_class) in
      let note : Triple = record {
        subject = name;
        predicate = definition capitalize;
        object = literal (text (join ", " (sorted tags)));
      } in
      holds-add note (add sub g) (says point rdf_type class)
      ∙ ground (arith, holds-add sub g (says point rdf_type class))

  -- After `reclassify` the types of the entity among the Brick and project classes and `UnmappedPoint`
  -- are the one class that its tags ask for now, whatever it had; its other types are those of before.
  pub reclassify-replaces :
      (rules : List MappingRule) (point class : String) (g : Graph)
      → let tags = read_tags point g in
        holds (reclassify capitalize rules point g).0 (says point rdf_type class) ≡ (
          str_eq (class_for capitalize (choose rules tags) tags) class
          || (not (is_own_class class) && holds g (says point rdf_type class)))
  unfolding reclassify classify_point add_entity add_relationship
  reclassify-replaces rules point class g =
      let cleaned = remove_types point (objects_of point rdf_type g) g in
      rw (read_tags-remove_types point (objects_of point rdf_type g) g) (
        holds-explain _ _ _ point class
        ∙ (holds-add _ cleaned (says point rdf_type class)
            ∙ ground (
              arith,
              holds-remove_types point class (objects_of point rdf_type g) g,
              listed-objects_of point rdf_type class g,
              eq_iff point point,
              eq_iff rdf_type rdf_type,
            )))
