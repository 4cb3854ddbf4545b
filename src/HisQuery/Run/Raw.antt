-- ===== src/HisQuery/Run/Raw.antt =====
-- A query without a rollup, from its filter to the samples that it returns.
use timberdoodle.Base.{
  ℕ, ◌≡◌, refl, sym, ap, subst, ◌∙◌, inl, inr, String, Bool, true, false, Option, none, some, List,
  [], ◌∷◌, arith, eq_iff, str_eq, contains, map, length, ltb, or_else, All, is_some, Bool-cases,
}
use timberdoodle.Base.Int.{ℤ}
use timberdoodle.Base.Dict.{text_key, lookup}
use timberdoodle.Values.{Value, Instant}
use timberdoodle.TimeSeries
use timberdoodle.TimeSeries.Many.{read_range_many, raw_rows, take, CalendarUnit}
use timberdoodle.TimeSeries.Many.Limits.{limited, read_range_many-limited}
use timberdoodle.BrickVocab.{CloseMatches}
use timberdoodle.HisQuery.{bind-cases}
use timberdoodle.HisQuery.Vocab.{Row, no_vocab, graph_vocab}
use timberdoodle.HisQuery.Compile.{Vocabularies}
use timberdoodle.HisQuery.Span.Resolve.{Span, Zone, resolve_span}
use timberdoodle.HisQuery.Calls.{Query}
use timberdoodle.HisQuery.Describe.{Info, Infos, PointRow, insert_by, sorted_by, describe_points}
use timberdoodle.HisQuery.Run.{
  Answer, PointRows, Series, label_points, series_of, series_le, all_series, match_entities,
  by_mode, expand_to_points, read_history, Answered, run_query,
}
use timberdoodle.HisQuery.Run.Stored.{
  rows_entry, stored, IsKeyed, describe_points-IsKeyed, label_points-IsKeyed,
}

insert_by-All :
    {A : Type 0} (P : A → Type 0) (le : A → A → Bool) (x : A) (ys : List A)
    → P x
    → All P ys
    → All P (insert_by le x ys)
unfolding insert_by
insert_by-All P le x [] p h = (p, tt)
insert_by-All P le x (y ∷ ys) p h = elim (Bool-cases (le x y)) [
  | inl e ↦ rw e (p, h)
  | inr e ↦ rw e (h.0, insert_by-All P le x ys p h.1)
]

sorted_by-All :
    {A : Type 0} (P : A → Type 0) (le : A → A → Bool) (xs : List A)
    → All P xs
    → All P (sorted_by le xs)
unfolding sorted_by
sorted_by-All P le [] h = tt
sorted_by-All P le (x ∷ xs) h =
    insert_by-All P le x (sorted_by le xs) h.0 (sorted_by-All P le xs h.1)

-- The series of a point has its first samples of the span, up to the limit, and says whether there
-- are more.
abbrev pub IsRaw : TimeSeries.History → Span → ℕ → Series → Type 0
IsRaw db s limit x =
    let rows = raw_rows db x.info.id s.start s.end in
    (x.history ≡ take limit rows) × (x.truncated ≡ ltb limit (length rows))

module _ (db : TimeSeries.History) (s : Span) (limit : ℕ) where
  abbrev found : String → PointRows
  found u =
      let rows = raw_rows db u s.start s.end in
      record { rows = take limit rows; truncated = ltb limit (length rows) }

  abbrev range : List String → List (String × PointRows)
  range us = map rows_entry (map (λ u. limited limit u (raw_rows db u s.start s.end)) us)

  lookup-range :
      (us : List String) (u : String) → contains us u ≡ true → lookup u (range us) ≡ some (found u)
  unfolding lookup
  lookup-range [] u h = cc
  lookup-range (w ∷ us) u h = elim (Bool-cases (str_eq w u)) [
    | inl e ↦
        subst (λ z. lookup z (range (w ∷ us)) ≡ some (found z)) ((eq_iff w u).0 e)
          (rw ((eq_iff w w).1 refl) refl)
    | inr e ↦ rw e (lookup-range us u (ground (arith, e, h)))
  ]

  series_of-IsRaw :
      (i : Info) (u : String) (o : Option PointRows)
      → i.id ≡ u
      → o ≡ some (found u)
      → IsRaw db s limit (series_of false i (or_else o (record { rows = []; truncated = false })))
  unfolding series_of
  series_of-IsRaw i u o e q = rw (q, e) (refl, refl)

  all_series-IsRaw :
      (m : Infos) (h : List (String × PointRows)) (us : List String) (ss : List Series)
      → IsKeyed m
      → ((u : String) → contains us u ≡ true → lookup u h ≡ some (found u))
      → all_series false m h us ≡ some ss
      → All (IsRaw db s limit) ss
  unfolding all_series
  all_series-IsRaw m h [] ss k f e =
      let is : [] ≡ ss = ground (arith, e) in subst (All (IsRaw db s limit)) is tt
  all_series-IsRaw m h (u ∷ us) ss k f e =
      let (i, ei, e1) = bind-cases (lookup u m) _ ss e in
      let (rest, er, e2) = bind-cases (all_series false m h us) _ ss e1 in
      let is : series_of false i (or_else (lookup u h) (record { rows = []; truncated = false }))
            ∷ rest
          ≡ ss =
        ground (arith, e2) in
      subst (All (IsRaw db s limit)) is (
        series_of-IsRaw i u (lookup u h) (k u i ei) (f u (ground (arith, eq_iff u u))),
        all_series-IsRaw m h us rest k (λ w c. f w (ground (arith, c))) er,
      )

module _ (w : Vocabularies) (close : CloseMatches) (declared : List Row) (answer : Answer)
    (has_points : List String → List String) (rows_of : List String → List PointRow)
    (trunc : CalendarUnit → Instant → Instant) (fold : String → List ℤ → Value)
    (db : TimeSeries.History) where
  read_history-found :
      (s : Span) (points : List String) (limit : ℕ) (h : List (String × PointRows))
      → read_history (stored trunc fold db) none points s limit ≡ some h
      → (u : String) → contains points u ≡ true
      → lookup u h ≡ some (found db s limit u)
  unfolding read_history stored
  read_history-found s points limit h e u c =
      let is : map rows_entry (read_range_many db points s.start s.end limit) ≡ h =
        ground (arith, e) in
      subst (λ z. lookup u z ≡ some (found db s limit u))
        (sym (ap (map rows_entry) (read_range_many-limited db points s.start s.end limit)) ∙ is)
        (lookup-range db s limit points u c)

  -- A query without a rollup that answers: the answer's span is that of the query's text, and the
  -- series of each point holds the first samples that the history has of the point in this span, as
  -- many as the limit allows, and says whether there are more.
  pub run_query-IsRaw :
      (q : Query) (zone : Option Zone) (now limit : ℕ) (a : Answered)
      → q.rollup ≡ none
      → run_query w close declared answer has_points rows_of (stored trunc fold db) q zone now limit
        ≡ some a
      → (resolve_span zone q.span_text now ≡ some a.span) × All (IsRaw db a.span limit) a.series
  unfolding run_query
  run_query-IsRaw q zone now limit a none_asked h =
      let (s, es, h1) = bind-cases (resolve_span zone q.span_text now) _ a h in
      let v : Vocabularies = record w { graph = graph_vocab declared no_vocab } in
      let (f, ef, h2) = bind-cases (match_entities v answer q.filter) _ a h1 in
      let (matched, em, h3) = bind-cases (by_mode q.mode f) _ a h2 in
      let (points, ep, h4) = bind-cases (expand_to_points has_points matched) _ a h3 in
      let (described, ed, h5) = bind-cases (describe_points rows_of points) _ a h4 in
      let (meta, el, h6) =
        bind-cases (label_points ((stored trunc fold db).labels points) described) _ a h5 in
      let (history, eh, h7) =
        bind-cases (read_history (stored trunc fold db) q.rollup points s limit) _ a h6 in
      let (ss, ess, h8) = bind-cases (all_series (is_some q.rollup) meta history points) _ a h7 in
      let span_is : s ≡ a.span =
        ap (λ (o : Option Answered). elim o [ none ↦ s | some x ↦ x.span ]) h8 in
      let series_is : sorted_by series_le ss ≡ a.series =
        ap (λ (o : Option Answered). elim o [ none ↦ [] | some x ↦ x.series ]) h8 in
      let keyed : IsKeyed meta =
        label_points-IsKeyed _ described meta (describe_points-IsKeyed rows_of points described ed)
          el in
      let raw : All (IsRaw db s limit) ss =
        all_series-IsRaw db s limit meta history points ss keyed
          (read_history-found s points limit history (
            subst (λ r. read_history (stored trunc fold db) r points s limit ≡ some history)
              none_asked eh))
          (subst (λ r. all_series (is_some r) meta history points ≡ some ss) none_asked ess) in
      (
        es ∙ ap (λ z. some z) span_is,
        subst (λ z. All (IsRaw db z limit) a.series) span_is
            (subst (All (IsRaw db s limit)) series_is
              (sorted_by-All (IsRaw db s limit) series_le ss raw)),
      )
