-- ===== src/HisQuery/Vocab/Schema.antt =====
-- `is_schema` on what `classes_named`, `classes_tagged` and `expand` give.
use timberdoodle.Base.{
  ◌≡◌, refl, ◌⊎◌, inl, inr, String, true, List, ◌++◌, arith, contains, contains-append,
}
use timberdoodle.Base.Dict.{text_key}
use timberdoodle.Base.Text.{lower}
use timberdoodle.Base.Closure.{here, step}
use timberdoodle.BrickVocab.{get}
use timberdoodle.HisQuery.Vocab.{
  GraphVocab, no_vocab, neighbours, expand, classes_named, classes_tagged, tag_word, Row,
  graph_vocab, is_schema,
}
use timberdoodle.HisQuery.Vocab.Declared.{Declares, IsDeclared, expand_lem, graph_vocab-IsDeclared}

Declares-schema :
    (g : GraphVocab)
    → IsDeclared g
    → {s x : String} → Declares g s x
    → (s ≡ x) ⊎ (contains g.schema_iris x ≡ true)
Declares-schema g d (here a) = inl refl
Declares-schema g d (step {x} w y e a) =
    let e' : contains (get x g.equivalents ++ get x g.children) y ≡ true = unfold neighbours in e in
    inr (
      ground (
        arith,
        contains-append (get x g.equivalents) (get x g.children) y,
        e',
        d.alias x y,
        d.below x y,
      ))

known :
    (g : GraphVocab)
    → IsDeclared g
    → (name s : String) → contains (classes_named g name ++ classes_tagged g name) s ≡ true
    → contains g.schema_iris s ≡ true
unfolding classes_named classes_tagged
known g d name s m = ground (
  arith,
  contains-append (get (lower name) g.by_name)
      (get (lower name) g.tagged ++ get (tag_word name) g.tagged) s,
  contains-append (get (lower name) g.tagged) (get (tag_word name) g.tagged) s,
  d.named (lower name) s,
  d.carried (lower name) s,
  d.carried (tag_word name) s,
  m,
)

-- Every IRI that a name or a tag word of the graph stands for, and every IRI that `expand` adds to
-- such classes, is a schema subject, so `match_entities` drops it.
pub expand-is_schema :
    (rows : List Row) (name x : String)
    → contains
        (expand (graph_vocab rows no_vocab) (
          classes_named (graph_vocab rows no_vocab) name
          ++ classes_tagged (graph_vocab rows no_vocab) name))
        x
      ≡ true
    → is_schema (graph_vocab rows no_vocab) x ≡ true
unfolding is_schema
expand-is_schema rows name x h =
    let g : GraphVocab = graph_vocab rows no_vocab in
    let d : IsDeclared g = graph_vocab-IsDeclared rows in
    let (s, m, w) = (expand_lem g (classes_named g name ++ classes_tagged g name) x).0 h in
    elim (Declares-schema g d w) [
      | inl e ↦ ground (arith, known g d name s m, e)
      | inr e ↦ ground (arith, e)
    ]
