-- ===== src/TimeSeries/Many.antt =====
-- src/timberdoodle/timeseries.py: the reads of several points, the rollup, and the deletion of a sample.
-- The folds but `count` compute with floats, and are a parameter.
use timberdoodle.Base.{
  ℕ, zero, suc, ◌+◌, ◌-◌, ◌*◌, ◌/◌, String, Bool, true, false, not, ◌&&◌, ◌||◌, Option, none, some,
  List, [], ◌∷◌, ◌++◌, ◌==◌, leb, ltb, str_eq, length, contains, is_some, keep, if◌then◌else◌,
}
use timberdoodle.Base.Int.{ℤ, pos}
use timberdoodle.Base.Dict.{lookup, insert}
use timberdoodle.Values.{Instant, Value}
use timberdoodle.TimeSeries.{
  Moment, same_moment, moment_key, Columns, History, Series, row_to_value, place,
}
pub mod Limits
pub mod Buckets
pub mod Deletes

-- The rows of a point from the start to before the end, the oldest first.
unfoldable pub raw_rows : History → String → Instant → Instant → Series
unfolding place row_to_value
raw_rows [] point start end = []
raw_rows (((p, ts), c) ∷ h) point start end =
    let rest = raw_rows h point start end in
    if str_eq p point && (leb start ts && ltb ts end) then place ts (row_to_value c) rest else rest

abbrev pub take {ℓ} : {A : Type ℓ} → ℕ → List A → List A
take zero xs = []
take (suc n) [] = []
take (suc n) (x ∷ xs) = x ∷ take n xs

pub record PointRows : Type 0 where
  pub point : String
  pub rows : Series
  pub truncated : Bool

-- `if len(rows) > limit: out[uri] = (rows[:limit], True)`
unfoldable pub cut : String → ℕ → Series → PointRows
cut point limit rows =
    if ltb limit (length rows)
    then record { point = point; rows = take limit rows; truncated = true }
    else record { point = point; rows = rows; truncated = false }

-- The query returns one row more than the limit.
unfoldable pub read_range_many : History → List String → Instant → Instant → ℕ → List PointRows
unfolding raw_rows cut
read_range_many h [] start end limit = []
read_range_many h (p ∷ ps) start end limit =
    cut p limit (take (suc limit) (raw_rows h p start end)) ∷ read_range_many h ps start end limit

abbrev pub is_labelled : Columns → Bool
is_labelled c = is_some c.unit || is_some c.label

-- The latest row of the point with a unit or a label.
unfoldable pub labelled_row : History → String → Option (Instant × Columns)
labelled_row [] point = none
labelled_row (((p, ts), c) ∷ h) point =
    let rest = labelled_row h point in
    if str_eq p point && is_labelled c
    then elim rest [ none ↦ some (ts, c) | some r ↦ if ltb ts r.0 then some r else some (ts, c) ]
    else rest

pub record Labels : Type 0 where
  pub point : String
  pub unit : Option String
  pub label : Option String

abbrev pub put_labels : String → Option (Instant × Columns) → List Labels → List Labels
put_labels p none ls = ls
put_labels p (some r) ls = record { point = p; unit = r.1.unit; label = r.1.label } ∷ ls

unfoldable pub read_point_labels : History → List String → List Labels
unfolding labelled_row
read_point_labels h [] = []
read_point_labels h (p ∷ ps) = put_labels p (labelled_row h p) (read_point_labels h ps)

-- `COALESCE(value, value_bool::int::float8)`; a number counts millionths.
unfoldable pub numeric : Columns → Option ℤ
numeric c = elim c.value [
  | some z ↦ some z
  | none ↦ elim c.value_bool [
    | some true ↦ some (pos 1000000)
    | some false ↦ some (pos 0)
    | none ↦ none
  ]
]

-- `date_bin` of `make_interval(secs => ...)`: the start of the interval of so many seconds, counted
-- from the origin, that holds `ts`. An instant counts microseconds.
abbrev pub microseconds : ℕ → ℕ
microseconds secs = secs * 1000000

unfoldable pub date_bin : ℕ → Instant → Instant → Instant
date_bin secs origin ts = origin + (ts - origin) / microseconds secs * microseconds secs

pub record Bucket : Type 0 where
  pub start : Instant
  pub values : List ℤ

abbrev pub Buckets : Type 0
Buckets = List Bucket

-- GROUP BY bucket ORDER BY bucket
unfoldable pub into_bucket : Instant → ℤ → Buckets → Buckets
into_bucket b z [] = record { start = b; values = z ∷ [] } ∷ []
into_bucket b z (c ∷ cs) =
    let rest = into_bucket b z cs in
    if b == c.start
    then record c { values = z ∷ c.values } ∷ cs
    else if ltb b c.start
    then record { start = b; values = z ∷ [] } ∷ c ∷ cs
    else c ∷ rest

abbrev pub put_value : Instant → Option ℤ → Buckets → Buckets
unfolding into_bucket
put_value b none cs = cs
put_value b (some z) cs = into_bucket b z cs

unfoldable pub rollup_rows : (Instant → Instant) → History → String → Instant → Instant → Buckets
unfolding put_value into_bucket numeric
rollup_rows bucket [] point start end = []
rollup_rows bucket (((p, ts), c) ∷ h) point start end =
    let rest = rollup_rows bucket h point start end in
    if str_eq p point && (leb start ts && ltb ts end)
    then put_value (bucket ts) (numeric c) rest
    else rest

abbrev pub fold_names : List String
fold_names = "avg" ∷ "min" ∷ "max" ∷ "sum" ∷ "count" ∷ []

-- `_CALENDAR_TRUNC`: what `date_trunc` can cut.
pub data CalendarUnit : Type 0 where
  month quarter year : CalendarUnit

unfoldable pub calendar_unit : ℕ → Option CalendarUnit
calendar_unit n =
    if n == 1
    then some month
    else if n == 3
    then some quarter
    else if n == 12
    then some year
    else none

abbrev pub fixed_bucket : Option ℕ → Instant → Option (Instant → Instant)
unfolding date_bin
fixed_bucket none start = none
fixed_bucket (some secs) start = if secs == 0 then none else some (date_bin secs start)

-- `date_trunc` in the caller's zone is a parameter. `none` is a ValueError.
unfoldable pub bucket_of :
    (CalendarUnit → Instant → Instant) → Option ℕ → Option ℕ → Instant → Option (Instant → Instant)
unfolding calendar_unit fixed_bucket
bucket_of trunc secs none start = fixed_bucket secs start
bucket_of trunc secs (some months) start = elim (calendar_unit months) [
  | none ↦ none
  | some u ↦ some (trunc u)
]

pub record Rolled : Type 0 where
  pub point : String
  pub buckets : Buckets

abbrev pub all_rolled :
    (Instant → Instant) → History → List String → Instant → Instant → List Rolled
unfolding rollup_rows
all_rolled bucket h [] start end = []
all_rolled bucket h (p ∷ ps) start end =
    record { point = p; buckets = rollup_rows bucket h p start end }
    ∷ all_rolled bucket h ps start end

-- The values of each bucket, before the fold is applied to them; `none` is a ValueError.
unfoldable pub read_rollup :
    (CalendarUnit → Instant → Instant)
    → History
    → List String
    → Instant
    → Instant
    → String
    → Option ℕ
    → Option ℕ
    → Option (List Rolled)
unfolding bucket_of all_rolled rollup_rows
read_rollup trunc h [] start end fold secs months = some []
read_rollup trunc h (p ∷ ps) start end fold secs months =
    if contains fold_names fold
    then elim (bucket_of trunc secs months start) [
      | none ↦ none
      | some bucket ↦ some (all_rolled bucket h (p ∷ ps) start end)
    ]
    else none

-- Whether there was a row, and the table without it.
unfoldable pub delete_point_value : History → String → Instant → History × Bool
unfolding lookup
delete_point_value h point ts =
    (keep (λ r. not (same_moment r.0 (point, ts))) h, is_some (lookup (point, ts) h))
