-- ===== src/TimeSeries/Examples.antt =====
-- A point that is written twice, and a rollup of its samples.
use timberdoodle.Base.{keep, map}
use timberdoodle.Base.{String, ◌≡◌, none, []}
use timberdoodle.Base.Int.{pos}
use timberdoodle.Values.{num, bool}
use timberdoodle.Base.{true}
use timberdoodle.Base.{◌*◌, refl}
use timberdoodle.TimeSeries.{to_float, float_of_int, History, write_point_value}
use timberdoodle.TimeSeries.Many.{date_bin, rollup_rows}
use timberdoodle.TimeSeries.Many.Buckets.{
  IsAscending, values_at, numbers_in, rollup_rows-numbers_in,
}

abbrev history : History
history =
    write_point_value (write_point_value [] "urn:point:a" (num (pos 1)) 5 none none) "urn:point:b"
      (bool true) 90 none none

rollup_rows-numbers_in_example :
    IsAscending (rollup_rows (date_bin 60 0) history "urn:point:a" 0 100)
    × (values_at 0 (rollup_rows (date_bin 60 0) history "urn:point:a" 0 100)
        ≡ numbers_in (date_bin 60 0) 0 history "urn:point:a" 0 100)
rollup_rows-numbers_in_example =
    rollup_rows-numbers_in (date_bin 60 0) history "urn:point:a" 0 100 0

-- `float(9007199254740993)` is 9007199254740992.0.
rounds_to_double : to_float (pos (9007199254740993 * 1000000)) ≡ pos (9007199254740992 * 1000000)
unfolding to_float float_of_int
rounds_to_double = refl
