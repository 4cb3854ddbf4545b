-- ===== src/TimeSeries.antt =====
-- src/timberdoodle/timeseries.py: `point_history`, its upsert, and the reads of one point.
use timberdoodle.Base.{
  ℕ, zero, suc, ◌+◌, ◌*◌, ◌/◌, ◌%◌, ◌^◌, String, Bool, true, false, ◌&&◌, Option, none, some, List,
  [], ◌∷◌, ◌==◌, leb, ltb, str_eq, eq_iff, ==_iff, ◌≡◌, ◌↔◌, arith, if◌then◌else◌,
}
use timberdoodle.Base.Int.{ℤ, pos, negsuc}
use timberdoodle.Base.Dict.{Key, insert}
use timberdoodle.Values.{Instant, Value, null, bool, num, text, tree}
pub mod Writes
pub mod Ranges
pub mod Many
mod Examples

-- The primary key of a row.
abbrev pub Moment : Type 0
Moment = String × Instant

abbrev pub same_moment : Moment → Moment → Bool
same_moment a b = str_eq a.0 b.0 && (a.1 == b.1)

pub same_moment_iff : (a b : Moment) → (same_moment a b ≡ true) ↔ (a ≡ b)
same_moment_iff a b = ground (arith, eq_iff a.0 b.0)

instance abbrev pub moment_key : Key Moment
moment_key = record { same = same_moment; same_iff = same_moment_iff }

-- The nullable columns of a row.
pub record Columns : Type 0 where
  pub value : Option ℤ
  pub value_text : Option String
  pub value_bool : Option Bool
  pub unit : Option String
  pub label : Option String

abbrev pub History : Type 0
History = List (Moment × Columns)

-- The multiple of `step` that is nearest to `n`, and of two the even one.
abbrev pub nearest : ℕ → ℕ → ℕ
nearest step n =
    let q = n / step in
    let r = n % step in
    if ltb (2 * r) step
    then q * step
    else if ltb step (2 * r)
    then (q + 1) * step
    else if q % 2 == 0
    then q * step
    else (q + 1) * step

-- The low bits of an integer for which the 53 bits of a double leave no room.
abbrev pub lost_bits : ℕ → ℕ → ℕ
lost_bits zero n = 0
lost_bits (suc fuel) n = let rest = lost_bits fuel (n / 2) in if ltb n (2 ^ 53) then 0 else suc rest

unfoldable pub float_of_int : ℕ → ℕ
float_of_int n = nearest (2 ^ lost_bits 1024 n) n

abbrev pub float_of_millionths : ℕ → ℕ
unfolding float_of_int
float_of_millionths m = if m % 1000000 == 0 then float_of_int (m / 1000000) * 1000000 else m

abbrev pub minus : ℕ → ℤ
minus zero = pos 0
minus (suc n) = negsuc n

-- `float(value)`, in millionths as the value is: an integer becomes the nearest double. A number that
-- is no integer is a double already. Integers are below 2 ^ 1024, from where `float` raises.
unfoldable pub to_float : ℤ → ℤ
unfolding float_of_millionths
to_float (pos m) = pos (float_of_millionths m)
to_float (negsuc m) = minus (float_of_millionths (suc m))

-- The branches on the type of the value; what is neither a number nor a Boolean is stored as its text.
unfoldable pub columns_of : Value → Option String → Option String → Columns
unfolding to_float
columns_of (bool b) unit label = record {
  value = none;
  value_text = none;
  value_bool = some b;
  unit = unit;
  label = label;
}
columns_of (num z) unit label = record {
  value = some (to_float z);
  value_text = none;
  value_bool = none;
  unit = unit;
  label = label;
}
columns_of null unit label = record {
  value = none;
  value_text = none;
  value_bool = none;
  unit = unit;
  label = label;
}
columns_of (text s) unit label = record {
  value = none;
  value_text = some s;
  value_bool = none;
  unit = unit;
  label = label;
}
columns_of (tree json shown) unit label = record {
  value = none;
  value_text = some shown;
  value_bool = none;
  unit = unit;
  label = label;
}

unfoldable pub write_point_value :
    History → String → Value → Instant → Option String → Option String → History
unfolding columns_of
write_point_value h point value ts unit label = insert (point, ts) (columns_of value unit label) h

unfoldable pub row_to_value : Columns → Value
row_to_value c = elim c.value_bool [
  | some b ↦ bool b
  | none ↦ elim c.value_text [
    | some s ↦ text s
    | none ↦ elim c.value [ none ↦ null | some z ↦ num z ]
  ]
]

abbrev pub Series : Type 0
Series = List (Instant × Value)

-- ORDER BY ts; a point has one row at an instant.
unfoldable pub place : Instant → Value → Series → Series
place ts v [] = (ts, v) ∷ []
place ts v ((t, w) ∷ s) =
    let rest = place ts v s in if ltb t ts then (t, w) ∷ rest else (ts, v) ∷ (t, w) ∷ s

unfoldable pub read_range : History → String → Instant → Instant → Series
unfolding place row_to_value
read_range [] point start end = []
read_range (((p, ts), c) ∷ h) point start end =
    let rest = read_range h point start end in
    if str_eq p point && (leb start ts && leb ts end) then place ts (row_to_value c) rest else rest

-- ORDER BY ts DESC LIMIT 1, with the instant of the row.
unfoldable pub latest_row : History → String → Option (Instant × Columns)
latest_row [] point = none
latest_row (((p, ts), c) ∷ h) point =
    let rest = latest_row h point in
    if str_eq p point
    then elim rest [ none ↦ some (ts, c) | some r ↦ if ltb ts r.0 then some r else some (ts, c) ]
    else rest

unfoldable pub read_latest : History → String → Value
unfolding latest_row row_to_value
read_latest h point = elim (latest_row h point) [ none ↦ null | some r ↦ row_to_value r.1 ]
