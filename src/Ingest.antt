-- ===== src/Ingest.antt =====
-- src/timberdoodle/ingest.py: readings, tags, and the links of points and equipment. A write of the
-- graph or of the history is one step.
use timberdoodle.Base.{
  ℕ, String, Bool, true, false, Option, none, some, List, [], ◌∷◌, ◌++◌, ◌≡◌, contains, str_eq,
  str_append, if◌then◌else◌, or_else, ◌&&◌, any,
}
use timberdoodle.Values.{Instant, Value, null, bool, num, text, tree}
use timberdoodle.TimeSeries.{History, write_point_value}
use timberdoodle.TripleStore.{
  Term, uri, literal, Triple, Graph, holds, add_many, add_relationship, rdf_type, brick, td,
  haystack,
}
pub mod Readings
pub mod Tags
pub mod Equipment
mod Examples

-- The stores, and the points that this process has written to the graph (`_known_points`).
pub record Stores : Type 0 where
  pub graph : Graph
  pub history : History
  pub known : List String

abbrev pub topic_to_point_uri : String → String
topic_to_point_uri topic = str_append "urn:point:" topic

abbrev pub identity_of : String → List Triple
identity_of topic =
    record {
      subject = topic_to_point_uri topic;
      predicate = rdf_type;
      object = uri (td "RawPoint");
    }
    ∷ record {
      subject = topic_to_point_uri topic;
      predicate = td "sourceTopic";
      object = literal (text topic);
    }
    ∷ []

-- The graph is written at the first reading of a point only.
unfoldable pub introduce : String → Stores → Stores
unfolding add_many
introduce topic s =
    let point = topic_to_point_uri topic in
    if contains s.known point
    then s
    else record s { graph = add_many (identity_of topic) s.graph; known = point ∷ s.known }

-- `ts` is the time of the reading, if it came with one; `now` is the clock.
unfoldable pub ingest_reading : String → Value → Option Instant → Instant → Stores → Stores
unfolding introduce write_point_value
ingest_reading topic value ts now s =
    let s' = introduce topic s in
    record s' {
      history =
          write_point_value s'.history (topic_to_point_uri topic) value (or_else ts now) none none;
    }

-- A tag that is True is a marker; a list or a dict is stored as its JSON text.
abbrev pub tag_triple : String → String → Value → Triple
tag_triple subject tag (bool true) = record {
  subject = subject;
  predicate = haystack "hasTag";
  object = literal (text tag);
}
tag_triple subject tag (tree json shown) = record {
  subject = subject;
  predicate = haystack tag;
  object = literal (text json);
}
tag_triple subject tag value = record {
  subject = subject;
  predicate = haystack tag;
  object = literal value;
}

abbrev pub tag_triples : String → List (String × Value) → List Triple
tag_triples subject [] = []
tag_triples subject ((tag, value) ∷ tags) = tag_triple subject tag value ∷ tag_triples subject tags

unfoldable pub write_tags : String → List (String × Value) → Graph → Graph
unfolding add_many
write_tags subject tags g = add_many (tag_triples subject tags) g

unfoldable pub ingest_tags : String → List (String × Value) → Graph → Graph
unfolding write_tags
ingest_tags topic tags g = write_tags (topic_to_point_uri topic) tags g

abbrev pub topic_prefix_to_equip_uri : String → String
topic_prefix_to_equip_uri prefix = str_append "urn:equip:" prefix

abbrev pub haystack_ref_to_equip_uri : String → String
haystack_ref_to_equip_uri ref = str_append "urn:equip:haystack:" ref

unfoldable pub ingest_equip_tags : String → List (String × Value) → Graph → Graph
unfolding write_tags
ingest_equip_tags prefix tags g = write_tags (topic_prefix_to_equip_uri prefix) tags g

unfoldable pub ingest_haystack_equip_tags : String → List (String × Value) → Graph → Graph
unfolding write_tags
ingest_haystack_equip_tags ref tags g = write_tags (haystack_ref_to_equip_uri ref) tags g

-- brick:hasPoint and brick:isPointOf
unfoldable pub link_point_to_equip : String → String → Graph → Graph
unfolding add_relationship
link_point_to_equip point equip g =
    add_relationship point (brick "isPointOf") (uri equip)
      (add_relationship equip (brick "hasPoint") (uri point) g)

-- The objects that a subject has under a predicate.
unfoldable pub objects_of : String → String → Graph → List Term
objects_of s p [] = []
objects_of s p (t ∷ g) =
    let rest = objects_of s p g in
    if str_eq t.subject s && str_eq t.predicate p then t.object ∷ rest else rest

abbrev pub is_subject : String → Graph → Bool
is_subject s g = any (λ t. str_eq t.subject s) g

-- `str` of a row's value; a number or a Boolean is shown by `shown`. Of several references the
-- engine's first is taken, which `order` decides.
module _ (shown : Value → String) (order : List Term → List Term) where
  abbrev pub str_of : Term → String
  str_of (uri u) = u
  str_of (literal (text s)) = s
  str_of (literal v) = shown v

  unfoldable pub link_equip_ref : String → Graph → Graph × Option String
  unfolding link_point_to_equip objects_of
  link_equip_ref point g = elim (order (objects_of point (haystack "equipRef") g)) [
    | [] ↦ (g, none)
    | ref ∷ _ ↦
        let equip = haystack_ref_to_equip_uri (str_of ref) in
        if is_subject equip g then (link_point_to_equip point equip g, some equip) else (g, none)
  ]

abbrev pub same_as : String
same_as = "http://www.w3.org/2002/07/owl#sameAs"

unfoldable pub merge_equip : String → String → Graph → Graph
unfolding add_relationship
merge_equip a b g = add_relationship b same_as (uri a) (add_relationship a same_as (uri b) g)

abbrev pub says : String → String → String → Triple
says s p o = record { subject = s; predicate = p; object = uri o }

-- The path `owl:sameAs*` of the query of `points_of_equip`.
pub data SameEquip (g : Graph) : String → String → Type 0 where
  itself : {a : String} → SameEquip g a a
  also :
      {a b : String} (c : String)
      → holds g (says a same_as c) ≡ true
      → SameEquip g c b
      → SameEquip g a b

-- The rows of `points_of_equip`: the points of the equipment and of all that it is the same as.
pub record IsPointOfEquip (g : Graph) (equip point : String) : Type 0 where
  pub via : String
  pub same : SameEquip g equip via
  pub has : holds g (says via (brick "hasPoint") point) ≡ true

unfoldable pub link_part_of : String → String → Graph → Graph
unfolding add_relationship
link_part_of child parent g =
    add_relationship child (brick "isPartOf") (uri parent)
      (add_relationship parent (brick "hasPart") (uri child) g)
