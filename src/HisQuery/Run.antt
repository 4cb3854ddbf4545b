-- ===== src/HisQuery/Run.antt =====
-- src/timberdoodle/hisquery.py: `match_entities`, `expand_to_points`, `hints_for_empty_result` and
-- `run_query`. What the triple store and the history answer is given by functions.
use timberdoodle.Base.{
  ℕ, String, Bool, true, false, not, ◌&&◌, ◌||◌, Option, none, some, List, [], ◌∷◌, ◌++◌, map, keep,
  contains, or_else, is_some, is_none, length, str_eq, if◌then◌else◌, all,
}
use Prim.Native.Nat.{Ordering}
use Prim.Native.String.{compare as str_compare}
use timberdoodle.Base.Dict.{text_key, lookup, insert}
use timberdoodle.Values.{Value, null, bool, num, text, tree, Instant}
use timberdoodle.Mapping.{sorted, starts_with}
use timberdoodle.BrickVocab.{
  Vocab, CloseMatches, canonical_class, canonical_tag, suggest_class, suggest_tag, as_set,
}
use timberdoodle.HisQuery.{Node, has, cmp, and, or, bind, ◌>>=◌}
use timberdoodle.HisQuery
use timberdoodle.HisQuery.Interval.{Interval, parse_interval}
use timberdoodle.HisQuery.Vocab.{
  GraphVocab, Row, no_vocab, graph_vocab, looks_like_class, classes_named, classes_tagged,
  is_schema,
}
use timberdoodle.HisQuery.Compile.{Vocabularies, Expr, Pattern, compile_filter}
use timberdoodle.HisQuery.Span.Resolve.{Span, Zone, resolve_span}
use timberdoodle.HisQuery.Calls.{Mode, read, read_all, Rollup, Query}
use timberdoodle.HisQuery.Describe.{
  Info, Infos, PointRow, text_le, sorted_by, checked_uris, describe_points, nonempty,
}
pub mod Matches
pub mod Stored
pub mod Raw
mod Examples

-- The subjects that the store returns for a compiled query.
abbrev pub Answer : Type 0
Answer = Expr × List Pattern → List String

unfoldable pub match_entities : Vocabularies → Answer → Node → Option (List String)
unfolding compile_filter is_schema sorted
match_entities v answer node =
    bind (compile_filter v node)
      (λ q. some (sorted (keep (λ uri. not (is_schema v.graph uri)) (answer q))))

-- The points of the matches and of what is the same as a match, which a query finds.
unfoldable pub expand_to_points : (List String → List String) → List String → Option (List String)
unfolding checked_uris sorted
expand_to_points has_points [] = some []
expand_to_points has_points (e ∷ es) = bind (checked_uris (e ∷ es)) (λ us.
    some (sorted (as_set (keep (λ u. starts_with u "urn:point:") (e ∷ es) ++ has_points us))))

unfoldable pub has_names : Node → List String
has_names (has name) = name ∷ []
has_names (cmp name op lit) = []
has_names (HisQuery.not a) = has_names a
has_names (and a b) = has_names a ++ has_names b
has_names (or a b) = has_names a ++ has_names b

pub record Hint : Type 0 where
  pub token : String
  pub suggestions : List String

abbrev pub is_alias : String → Bool
is_alias name = str_eq name "point" || (str_eq name "equip" || str_eq name "site")

abbrev pub is_empty : List String → Bool
is_empty [] = true
is_empty (x ∷ xs) = false

module _ (v : Vocabularies) (close : CloseMatches) where
  -- Whether Brick, the rules or the live graph know the name.
  unfoldable pub is_known : String → Bool
  unfolding looks_like_class canonical_class canonical_tag classes_named classes_tagged lookup
  is_known name =
      if looks_like_class name
      then is_some (canonical_class v.vocab name) || not (is_empty (classes_named v.graph name))
      else is_some (canonical_tag v.vocab name)
        || (is_some (lookup name v.rule_classes)
            || (not (is_empty (classes_tagged v.graph name))
                || not (is_empty (classes_named v.graph name))))

  unfoldable pub suggestions_for : String → List String
  unfolding looks_like_class suggest_class suggest_tag
  suggestions_for name =
      if looks_like_class name
      then suggest_class close v.vocab name
      else suggest_tag close v.vocab name

  abbrev pub put_hint : String → List String → List Hint → List Hint
  put_hint name [] hints = hints
  put_hint name (s ∷ ss) hints = record { token = name; suggestions = s ∷ ss } ∷ hints

  unfoldable pub hints_of : List String → List String → List Hint
  unfolding is_known suggestions_for
  hints_of [] seen = []
  hints_of (n ∷ ns) seen =
      let rest = hints_of ns (if contains seen n || is_alias n then seen else n ∷ seen) in
      if contains seen n || is_alias n
      then rest
      else if is_known n
      then rest
      else put_hint n (suggestions_for n) rest

  unfoldable pub hints_for_empty_result : Node → List Hint
  unfolding has_names hints_of
  hints_for_empty_result node = hints_of (has_names node) []

-- `_infer_kind`
unfoldable pub infer_kind : List (Instant × Value) → Option String
infer_kind [] = none
infer_kind ((t, null) ∷ rows) = infer_kind rows
infer_kind ((t, bool b) ∷ rows) = some "Bool"
infer_kind ((t, num n) ∷ rows) = some "Number"
infer_kind ((t, v) ∷ rows) = some "Str"

-- `if not info["unit"] and unit`, and `if label and not info["_dis_from_tag"]`
abbrev pub labelled : Option String × Option String → Info → Info
labelled l i = record i {
  unit = elim (nonempty i.unit) [
    | none ↦ elim (nonempty l.0) [ none ↦ i.unit | some u ↦ some u ]
    | some u ↦ i.unit
  ];
  dis = elim (nonempty l.1) [ none ↦ i.dis | some t ↦ if i.dis_from_tag then i.dis else t ];
}

-- `meta[uri]` raises KeyError for a point that was not described.
unfoldable pub label_points : List (String × Option String × Option String) → Infos → Option Infos
unfolding lookup insert
label_points [] m = some m
label_points ((u, unit, label) ∷ ls) m =
    bind (lookup u m) (λ i. label_points ls (insert u (labelled (unit, label) i) m))

abbrev pub Rows : Type 0
Rows = List (Instant × Value)

-- The rows of a point, and whether the limit cut them.
pub record PointRows : Type 0 where
  pub rows : Rows
  pub truncated : Bool

-- What the history answers: the labels of some points, their rows in a span with whether they were
-- cut, and their buckets, or `none` for a ValueError.
pub record History : Type 0 where
  pub labels : List String → List (String × Option String × Option String)
  pub range : List String → Span → ℕ → List (String × PointRows)
  pub buckets : List String → Span → String → Interval → Option (List (String × PointRows))

pub record Series : Type 0 where
  pub info : Info
  pub history : Rows
  pub truncated : Bool

abbrev pub kind_of : Bool → Option String → Rows → Option String
unfolding infer_kind
kind_of true kind rows = some "Number"
kind_of false kind rows = elim (nonempty kind) [ none ↦ infer_kind rows | some k ↦ some k ]

abbrev pub series_of : Bool → Info → PointRows → Series
unfolding infer_kind kind_of
series_of rolled i h = record {
  info = record i { kind = kind_of rolled i.kind h.rows };
  history = h.rows;
  truncated = h.truncated;
}

-- `dict(meta[uri])`, and `history.get(uri, ([], False))`
unfoldable pub all_series :
    Bool → Infos → List (String × PointRows) → List String → Option (List Series)
unfolding series_of infer_kind lookup
all_series rolled m h [] = some []
all_series rolled m h (u ∷ us) = bind (lookup u m) (λ i. bind (all_series rolled m h us) (λ ss.
    some
      (series_of rolled i (or_else (lookup u h) (record { rows = []; truncated = false })) ∷ ss)))

-- The key `(equipDis or "", dis, id)`, as an order.
abbrev pub then_le : String → String → Bool → Bool
then_le a b rest = elim (str_compare a b) [
  | Ordering.lt ↦ true
  | Ordering.eq ↦ rest
  | Ordering.gt ↦ false
]

abbrev pub series_le : Series → Series → Bool
series_le a b =
    then_le (or_else a.info.equip_dis "") (or_else b.info.equip_dis "")
      (then_le a.info.dis b.info.dis (text_le a.info.id b.info.id))

-- The history of the points: buckets where the query has a rollup, else the raw rows.
unfoldable pub read_history :
    History → Option Rollup → List String → Span → ℕ → Option (List (String × PointRows))
unfolding parse_interval
read_history h none points s limit = some (h.range points s limit)
read_history h (some r) points s limit =
    bind (parse_interval r.interval) (λ i. h.buckets points s r.fold i)

-- `read` takes the first match, and raises NoMatchError if there is none.
unfoldable pub by_mode : Mode → List String → Option (List String)
by_mode read_all matched = some matched
by_mode read [] = none
by_mode read (m ∷ ms) = some (m ∷ [])

pub record Answered : Type 0 where
  pub span : Span
  pub matched : List String
  pub hints : List Hint
  pub series : List Series

-- `none` is an exception. The triple store is what it answers to each query: the rows of
-- `graph_vocab`, the subjects that a filter selects, points and their rows.
module _ (w : Vocabularies) (close : CloseMatches) (declared : List Row) (answer : Answer)
    (has_points : List String → List String) (rows_of : List String → List PointRow)
    (h : History) where
  unfoldable pub run_query : Query → Option Zone → ℕ → ℕ → Option Answered
  unfolding resolve_span graph_vocab match_entities by_mode expand_to_points describe_points
      label_points read_history all_series sorted_by hints_for_empty_result
  run_query q zone now limit = do
    s ← resolve_span zone q.span_text now
    v ← some (record w { graph = graph_vocab declared no_vocab })
    found ← match_entities v answer q.filter
    matched ← by_mode q.mode found
    points ← expand_to_points has_points matched
    described ← describe_points rows_of points
    meta ← label_points (h.labels points) described
    history ← read_history h q.rollup points s limit
    series ← all_series (is_some q.rollup) meta history points
    some (record {
      span = s;
      matched = matched;
      hints = if is_empty matched then hints_for_empty_result v close q.filter else [];
      series = sorted_by series_le series;
    })
