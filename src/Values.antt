-- ===== src/Values.antt =====
-- The JSON values and the instants that the components pass around (schemas.py's `object`, the
-- `value` of a reading, psycopg's datetimes).
use timberdoodle.Base.{ℕ, String, Bool}
use timberdoodle.Base.Int.{ℤ}

-- An instant is its number of microseconds since the epoch.
abbrev pub Instant : Type 0
Instant = ℕ

-- A JSON value: a number is an integer number of millionths, a list or a dict is its JSON text
-- and what Python's `str` makes of it.
pub data Value : Type 0 where
  null : Value
  bool : Bool → Value
  num : ℤ → Value
  text : String → Value
  tree : String → String → Value
