-- ===== src/HisQuery/Run/Stored.antt =====
-- `run_query` over the history of src/timberdoodle/timeseries.py. The aggregate of a bucket's values and
-- `date_trunc` are parameters.
use timberdoodle.Base.{
  ◌≡◌, refl, subst, inl, inr, String, false, Option, none, some, List, [], ◌∷◌, arith, eq_iff,
  str_eq, map, Bool-cases,
}
use timberdoodle.Base.Int.{ℤ}
use timberdoodle.Base.Dict.{text_key, lookup, insert, lookup-insert}
use timberdoodle.Values.{Value, Instant}
use timberdoodle.TimeSeries
use timberdoodle.TimeSeries.Many.{
  read_point_labels, read_range_many, raw_rows, take, CalendarUnit, read_rollup, Bucket, Rolled,
  Labels,
}
use timberdoodle.HisQuery.{bind, bind-cases}
use timberdoodle.HisQuery.Describe.{
  Info, Infos, PointRow, describe_row, describe_rows, undescribed, set_default, add_defaults,
  describe_points, checked_uris,
}
use timberdoodle.HisQuery.Run.{PointRows, History, labelled, label_points}

abbrev pub labels_entry : Labels → String × Option String × Option String
labels_entry l = (l.point, l.unit, l.label)

abbrev pub rows_entry : TimeSeries.Many.PointRows → String × PointRows
rows_entry r = (r.point, record { rows = r.rows; truncated = r.truncated })

abbrev pub buckets_entry : (List ℤ → Value) → Rolled → String × PointRows
buckets_entry fold r = (
  r.point,
  record { rows = map (λ (b : Bucket). (b.start, fold b.values)) r.buckets; truncated = false },
)

-- What the history answers to a query.
unfoldable pub stored :
    (CalendarUnit → Instant → Instant) → (String → List ℤ → Value) → TimeSeries.History → History
unfolding read_point_labels read_range_many read_rollup
stored trunc fold db = record {
  labels = λ points. map labels_entry (read_point_labels db points);
  range = λ points s limit. map rows_entry (read_range_many db points s.start s.end limit);
  buckets = λ points s name i.
      bind (read_rollup trunc db points s.start s.end name i.seconds i.months)
        (λ rs. some (map (buckets_entry (fold name)) rs));
}

-- Each description says the point that it is filed under.
abbrev pub IsKeyed : Infos → Type 0
IsKeyed m = (u : String) (i : Info) → lookup u m ≡ some i → i.id ≡ u

insert-IsKeyed : (u : String) (i : Info) (m : Infos) → i.id ≡ u → IsKeyed m → IsKeyed (insert u i m)
insert-IsKeyed u i m e k w j h = elim (Bool-cases (str_eq u w)) [
  | inl q ↦ ground (arith, q, lookup-insert u w i m, h, e, eq_iff u w)
  | inr q ↦ k w j (ground (arith, q, lookup-insert u w i m, h))
]

describe_rows-IsKeyed : (rs : List PointRow) (m : Infos) → IsKeyed m → IsKeyed (describe_rows rs m)
unfolding describe_rows describe_row
describe_rows-IsKeyed [] m k = k
describe_rows-IsKeyed (r ∷ rs) m k =
    describe_rows-IsKeyed rs (insert r.point (describe_row r) m)
      (insert-IsKeyed r.point (describe_row r) m refl k)

set_default-IsKeyed :
    (u : String) (o : Option Info) (m : Infos) → IsKeyed m → IsKeyed (set_default u o m)
unfolding undescribed insert
set_default-IsKeyed u none m k = insert-IsKeyed u (undescribed u) m refl k
set_default-IsKeyed u (some i) m k = k

add_defaults-IsKeyed : (us : List String) (m : Infos) → IsKeyed m → IsKeyed (add_defaults us m)
unfolding add_defaults
add_defaults-IsKeyed [] m k = k
add_defaults-IsKeyed (u ∷ us) m k =
    add_defaults-IsKeyed us _ (set_default-IsKeyed u (lookup u m) m k)

nothing : IsKeyed []
unfolding lookup
nothing u i h = cc

pub describe_points-IsKeyed :
    (rows_of : List String → List PointRow) (us : List String) (m : Infos)
    → describe_points rows_of us ≡ some m
    → IsKeyed m
unfolding describe_points
describe_points-IsKeyed rows_of [] m h =
    let is : [] ≡ m = ground (arith, h) in subst IsKeyed is nothing
describe_points-IsKeyed rows_of (u ∷ us) m h =
    let (cs, e, k) = bind-cases (checked_uris (u ∷ us)) _ m h in
    let is : add_defaults (u ∷ us) (describe_rows (rows_of cs) []) ≡ m = ground (arith, k) in
    subst IsKeyed is
      (add_defaults-IsKeyed (u ∷ us) _ (describe_rows-IsKeyed (rows_of cs) [] nothing))

pub label_points-IsKeyed :
    (ls : List (String × Option String × Option String)) (m n : Infos)
    → IsKeyed m
    → label_points ls m ≡ some n
    → IsKeyed n
unfolding label_points
label_points-IsKeyed [] m n k h = let is : m ≡ n = ground (arith, h) in subst IsKeyed is k
label_points-IsKeyed ((u, unit, label) ∷ ls) m n k h =
    let (i, e, r) = bind-cases (lookup u m) _ n h in
    label_points-IsKeyed ls (insert u (labelled (unit, label) i) m) n
      (insert-IsKeyed u (labelled (unit, label) i) m (k u i e) k) r
