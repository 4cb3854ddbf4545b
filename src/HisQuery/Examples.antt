-- ===== src/HisQuery/Examples.antt =====
-- `not (ahu and vav) or temp > 72`, and an interval.
use timberdoodle.Base.{some, none, [], ◌≡◌, refl}
use timberdoodle.HisQuery.{Node, has, cmp, not, and, or, num, parse_filter}
use timberdoodle.HisQuery.Print.{print}
use timberdoodle.HisQuery.RoundTrip.{parse_filter-print}
use timberdoodle.HisQuery.Interval.{
  Interval, parse_interval, split_interval, after_digits, interval_of, unit_seconds,
}

abbrev query : Node
query = or (not (and (has "ahu") (has "vav"))) (cmp "temp" ">" (num "72"))

parse_filter-print_example : parse_filter (print query).filter ≡ some (query, [])
parse_filter-print_example = parse_filter-print query

abbrev quarter_hour : Interval
quarter_hour = record { seconds = some 900; months = none }

reads_15min : parse_interval "15min" ≡ some quarter_hour
unfolding parse_interval split_interval after_digits interval_of unit_seconds
reads_15min = refl
