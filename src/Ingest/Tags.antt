-- ===== src/Ingest/Tags.antt =====
-- What `ingest_tags` stores.
use timberdoodle.Base.{◌||◌, String, true, List, [], ◌∷◌, ◌≡◌, arith, All, ◌∙◌}
use timberdoodle.Values.{Value}
use timberdoodle.TripleStore.{Triple, Graph, holds, add_many}
use timberdoodle.TripleStore.Laws.{holds-add_many, same_triple_iff}
use timberdoodle.Ingest.{topic_to_point_uri, tag_triple, tag_triples, write_tags, ingest_tags}

holds-tag_triples :
    (subject : String) (tags : List (String × Value)) (g : Graph)
    → ((u : Triple) → holds (tag_triples subject tags) u ≡ true → holds g u ≡ true)
    → All (λ t. holds g (tag_triple subject t.0 t.1) ≡ true) tags
holds-tag_triples subject [] g h = tt
holds-tag_triples subject (t ∷ tags) g h =
    let first = tag_triple subject t.0 t.1 in
    (
      h first (ground (arith, same_triple_iff first first)),
      holds-tag_triples subject tags g λ u k. h u (ground (arith, k)),
    )

-- After `ingest_tags` every tag stands in the graph as its triple; the triples are those of before and
-- these; ingesting the same tags again adds nothing.
pub ingest_tags-keeps_all :
    (topic : String) (tags : List (String × Value)) (g : Graph) (u : Triple)
    → All
        (λ t.
          holds (ingest_tags topic tags g) (tag_triple (topic_to_point_uri topic) t.0 t.1) ≡ true)
        tags
      × (holds (ingest_tags topic tags g) u
          ≡ (holds g u || holds (tag_triples (topic_to_point_uri topic) tags) u))
      × (holds (ingest_tags topic tags (ingest_tags topic tags g)) u
          ≡ holds (ingest_tags topic tags g) u)
unfolding ingest_tags write_tags
ingest_tags-keeps_all topic tags g u =
    let ts = tag_triples (topic_to_point_uri topic) tags in
    (
      holds-tag_triples (topic_to_point_uri topic) tags (add_many ts g)
          (λ v h. holds-add_many ts g v ∙ ground (arith, h)),
      holds-add_many ts g u,
      holds-add_many ts (add_many ts g) u ∙ ground (arith, holds-add_many ts g u),
    )
