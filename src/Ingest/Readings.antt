-- ===== src/Ingest/Readings.antt =====
-- The cache of known points, and readings that are delivered again.
use timberdoodle.Base.{
  String, true, Option, none, refl, some, List, [], ◌∷◌, ◌≡◌, ap, ◌∙◌, inl, inr, Bool-cases, arith,
  eq_iff, contains,
}
use package.text.Mathlib.TextLemmas.{nil-append, cons-append}
use timberdoodle.Base.{ℕ, suc, sym, str_append}
use timberdoodle.Base.Text.{drop_chars}
use timberdoodle.Values.{Instant, Value, text}
use timberdoodle.TimeSeries.{moment_key, write_point_value}
use timberdoodle.TimeSeries.Writes.{insert-insert}
use timberdoodle.TripleStore.{Graph, Triple, uri, literal, holds, rdf_type, td}
use timberdoodle.TripleStore.Laws.{holds-add_many}
use timberdoodle.Ingest.{Stores, topic_to_point_uri, identity_of, introduce, ingest_reading}

abbrev pub raw_point : String → Triple
raw_point p = record { subject = p; predicate = rdf_type; object = uri (td "RawPoint") }

abbrev pub source_topic : String → Triple
source_topic topic = record {
  subject = topic_to_point_uri topic;
  predicate = td "sourceTopic";
  object = literal (text topic);
}

-- The graph has the point of the topic, with its type and its topic.
abbrev pub IsWritten : Graph → String → Type 0
IsWritten g topic =
    (holds g (raw_point (topic_to_point_uri topic)) ≡ true) × (holds g (source_topic topic) ≡ true)

-- Each point that the cache knows is in the graph.
abbrev pub IsCached : Stores → Type 0
IsCached s =
    (topic : String) → contains s.known (topic_to_point_uri topic) ≡ true → IsWritten s.graph topic

-- The readings of one process: topic, value, time of the reading and clock.
pub record Reading : Type 0 where
  pub topic : String
  pub value : Value
  pub ts : Option Instant
  pub now : Instant

abbrev pub ingest_all : List Reading → Stores → Stores
ingest_all [] s = s
ingest_all (r ∷ rs) s = ingest_all rs (ingest_reading r.topic r.value r.ts r.now s)

abbrev pub chars : String → ℕ
chars String.[] = 0
chars (String.◌∷◌ c s) = suc (chars s)

drop_chars-append : (p s : String) → drop_chars (chars p) (str_append p s) ≡ s
drop_chars-append String.[] s = nil-append s
drop_chars-append (String.◌∷◌ c p) s = rw (cons-append c p s) (drop_chars-append p s)

topic-injective : (a b : String) → topic_to_point_uri a ≡ topic_to_point_uri b → a ≡ b
topic-injective a b h =
    sym (drop_chars-append "urn:point:" a) ∙ ap (drop_chars 10) h ∙ drop_chars-append "urn:point:" b

introduce-IsCached : (topic : String) (s : Stores) → IsCached s → IsCached (introduce topic s)
unfolding introduce
introduce-IsCached topic s h p k = elim (Bool-cases (contains s.known (topic_to_point_uri topic))) [
  | inl e ↦ rw (e, introduce) (h p (rw (e, introduce) at k))
  | inr e ↦
      let was = rw (e, introduce) at k in
      rw (e, introduce)
        (
          holds-add_many (identity_of topic) s.graph (raw_point (topic_to_point_uri p))
              ∙ ground (arith, was, h p, eq_iff (topic_to_point_uri topic) (topic_to_point_uri p)),
          holds-add_many (identity_of topic) s.graph (source_topic p)
              ∙ ground (
                arith,
                was,
                h p,
                eq_iff (topic_to_point_uri topic) (topic_to_point_uri p),
                topic-injective topic p,
                eq_iff topic p,
              ),
        )
]

introduced :
    (topic : String) (s : Stores)
    → contains (introduce topic s).known (topic_to_point_uri topic) ≡ true
unfolding introduce
introduced topic s = elim (Bool-cases (contains s.known (topic_to_point_uri topic))) [
  | inl e ↦ rw (e, introduce) e
  | inr e ↦
      rw (e, introduce)
        (ground (arith, eq_iff (topic_to_point_uri topic) (topic_to_point_uri topic)))
]

reading-IsCached :
    (topic : String) (v : Value) (ts : Option Instant) (now : Instant) (s : Stores)
    → IsCached s
    → IsCached (ingest_reading topic v ts now s)
unfolding ingest_reading
reading-IsCached topic v ts now s h p k = introduce-IsCached topic s h p k

-- Over any sequence of readings, each point that the cache knows is in the graph with its type and
-- its topic, and so is the point of a reading that has just come; and a further reading of that
-- topic leaves the graph as it finds it, even one that had lost the point.
pub ingest_all-IsCached :
    (rs : List Reading) (r : Reading) (s : Stores) (v : Value) (now : Instant) (g : Graph)
    → IsCached s
    → let after = ingest_reading r.topic r.value r.ts r.now (ingest_all rs s) in
      IsCached (ingest_all rs s)
      × IsWritten after.graph r.topic
      × ((ingest_reading r.topic v none now (record after { graph = g })).graph ≡ g)
unfolding ingest_reading introduce
ingest_all-IsCached [] r s v now g h = (
  h,
  introduce-IsCached r.topic s h r.topic (introduced r.topic s),
  rw (introduced r.topic s) refl,
)
ingest_all-IsCached (q ∷ rs) r s v now g h =
    ingest_all-IsCached rs r (ingest_reading q.topic q.value q.ts q.now s) v now g
      (reading-IsCached q.topic q.value q.ts q.now s h)

-- A reading with its own time that is delivered again, at whatever clock, changes nothing: neither
-- the graph nor the history nor the cache.
pub ingest_reading-idempotent :
    (topic : String) (v : Value) (ts now later : Instant) (s : Stores)
    → ingest_reading topic v (some ts) later (ingest_reading topic v (some ts) now s)
      ≡ ingest_reading topic v (some ts) now s
unfolding ingest_reading introduce write_point_value
ingest_reading-idempotent topic v ts now later s = rw (introduced topic s) (
    ap (λ h. record (introduce topic s) { history = h })
      (insert-insert (topic_to_point_uri topic, ts) _ _ (introduce topic s).history))
