-- ===== src/HisQuery/Span/Examples.antt =====
-- Spans around 2024-03-01, a Friday after a leap day, and a zone that counts days in 86,400 seconds.
use timberdoodle.Base.{ℕ, ◌*◌, ◌<◌, ◌≡◌, refl, none, some, arith}
use timberdoodle.HisQuery.Span.{
  Date, date, days_in_month, span, next_day, weekday, named_span, last_month, this_month, last_week,
  this_week, last_quarter,
}
use timberdoodle.HisQuery.Span.Order.{IsDate, position}
use timberdoodle.HisQuery.Span.Consecutive.{named_span-Meets, month}
use timberdoodle.HisQuery.Span.Resolve.{Span, Zone, resolve_span, date_span}
use timberdoodle.HisQuery.Span.Bounds.{resolve_span-start-lt}

abbrev friday : Date
friday = date 2024 3 1

abbrev plain_zone : Zone
plain_zone = record { date_of = λ n. friday; midnight = λ t. position t * 86400 }

friday-IsDate : (n : ℕ) → IsDate (plain_zone.date_of n)
unfolding days_in_month
friday-IsDate n = omega arith

named_test :
    (weekday friday ≡ 4)
    × (named_span last_week friday ≡ some (span (date 2024 2 19) (date 2024 2 25)))
    × (named_span this_week friday ≡ some (span (date 2024 2 26) (date 2024 3 3)))
    × (named_span last_month friday ≡ some (span (date 2024 2 1) (date 2024 2 29)))
    × (named_span this_month friday ≡ some (span (date 2024 3 1) (date 2024 3 31)))
    × (named_span last_quarter friday ≡ some (span (date 2023 10 1) (date 2023 12 31)))
    × (date_span "2024-02" friday ≡ some (span (date 2024 2 1) (date 2024 2 29)))
    × (date_span "2024-13" friday ≡ none)
unfolding weekday named_span date_span next_day
named_test = (refl, refl, refl, refl, refl, refl, refl, refl)

named_span-Meets_example : next_day (date 2024 2 29) ≡ some (date 2024 3 1)
named_span-Meets_example =
    named_span-Meets month friday (span (date 2024 2 1) (date 2024 2 29))
      (span (date 2024 3 1) (date 2024 3 31)) (friday-IsDate 0) named_test.3 named_test.4

abbrev two_weeks : Span
two_weeks = record {
  start = position (date 2024 2 19) * 86400;
  end = position (date 2024 3 4) * 86400;
  label = "lastWeek..thisWeek";
}

two_weeks_test : resolve_span (some plain_zone) (some " lastWeek..thisWeek() ") 0 ≡ some two_weeks
unfolding resolve_span weekday
two_weeks_test = refl

resolve_span-start-lt_example : two_weeks.start < two_weeks.end
resolve_span-start-lt_example =
    resolve_span-start-lt plain_zone (some " lastWeek..thisWeek() ") 0 two_weeks friday-IsDate
      (λ a b va vb lt. omega arith) two_weeks_test
