-- ===== src/HisQuery/Span.antt =====
-- src/timberdoodle/hisquery.py: spans of dates. `none` is an exception: HisQueryError for an unknown
-- span, ValueError or OverflowError for a date that there is not. Digits are ASCII.
use timberdoodle.Base.{
  ℕ, zero, suc, ◌+◌, ◌*◌, ◌-◌, ◌/◌, ◌%◌, String, Bool, true, false, not, ◌&&◌, ◌||◌, Option, none,
  some, ◌==◌, ltb, leb, str_eq, if◌then◌else◌,
}
use Prim.Native.Char.{Char, code}
use timberdoodle.HisQuery.{bind}
use timberdoodle.HisQuery.Interval.{is_digit}
pub mod Resolve
pub mod Order
pub mod Adjacent
pub mod Consecutive
pub mod Bounds
mod Examples

pub record Date : Type 0 where
  pub year : ℕ
  pub month : ℕ
  pub day : ℕ

-- What the code uses of the standard library's `date`.
unfoldable pub is_leap : ℕ → Bool
is_leap y = (y % 4 == 0) && (not (y % 100 == 0) || (y % 400 == 0))

abbrev has_thirty_days : ℕ → Bool
has_thirty_days m = (m == 11) || ((m == 9) || ((m == 6) || (m == 4)))

unfoldable pub days_in_month : ℕ → ℕ → ℕ
days_in_month y m =
    if (m == 2) && is_leap y
    then 29
    else if m == 2
    then 28
    else if has_thirty_days m
    then 30
    else 31

abbrev pub date : ℕ → ℕ → ℕ → Date
date year month day = record { day = day; month = month; year = year }

unfoldable pub checked_date : ℕ → ℕ → ℕ → Option Date
unfolding days_in_month is_leap
checked_date y m d =
    if (leb 1 y && leb y 9999) && ((leb 1 m && leb m 12) && (leb 1 d && leb d (days_in_month y m)))
    then some (date y m d)
    else none

unfoldable pub next_day : Date → Option Date
next_day t =
    if ltb t.day (days_in_month t.year t.month)
    then some (date t.year t.month (t.day + 1))
    else if ltb t.month 12
    then some (date t.year (t.month + 1) 1)
    else if ltb t.year 9999
    then some (date (t.year + 1) 1 1)
    else none

unfoldable pub previous_day : Date → Option Date
previous_day t =
    if ltb 1 t.day
    then some (date t.year t.month (t.day - 1))
    else if ltb 1 t.month
    then some (date t.year (t.month - 1) (days_in_month t.year (t.month - 1)))
    else if ltb 1 t.year
    then some (date (t.year - 1) 12 31)
    else none

-- `t + timedelta(days=n)`
unfoldable pub plus_days : ℕ → Date → Option Date
unfolding next_day
plus_days zero t = some t
plus_days (suc n) t = bind (plus_days n t) next_day

-- `t - timedelta(days=n)`
unfoldable pub minus_days : ℕ → Date → Option Date
unfolding previous_day
minus_days zero t = some t
minus_days (suc n) t = bind (previous_day t) (minus_days n)

-- The days of the first `n` months.
abbrev days_of_months : ℕ → ℕ → ℕ
unfolding days_in_month is_leap
days_of_months zero y = 0
days_of_months (suc n) y = days_in_month y (suc n) + days_of_months n y

unfoldable pub to_ordinal : Date → ℕ
unfolding days_of_months
to_ordinal t =
    let p = t.year - 1 in
    (p * 365 + p / 4 + p / 400 + days_of_months (t.month - 1) t.year + t.day) - p / 100

-- Monday is 0.
unfoldable pub weekday : Date → ℕ
unfolding to_ordinal
weekday t = (to_ordinal t + 6) % 7

abbrev pub first_of_month : Date → Date
first_of_month t = record t { day = 1 }

-- `_add_months(d, n)`, and `_add_months(d, -n)`.
unfoldable pub add_months : Date → ℕ → Option Date
unfolding checked_date
add_months d n = let m = d.month - 1 + n in checked_date (d.year + m / 12) (m % 12 + 1) 1

-- Python's `//` and `%` round down; `total` is the month's number from the year 0 on.
unfoldable pub subtract_months : Date → ℕ → Option Date
unfolding checked_date
subtract_months d n =
    let total = d.year * 12 + (d.month - 1) in
    if ltb total n then none else checked_date ((total - n) / 12) ((total - n) % 12 + 1) 1

pub data Named : Type 0 where
  today yesterday this_week last_week past_week this_month last_month past_month : Named
  this_quarter last_quarter this_year last_year past_year : Named

pub record DateSpan : Type 0 where
  pub first : Date
  pub last : Date

abbrev pub span : Date → Date → DateSpan
span a b = record { first = a; last = b }

-- `first`, and the day before `next`
abbrev pub until : Date → Option Date → Option DateSpan
unfolding previous_day
until first next = bind next (λ n. bind (minus_days 1 n) (λ l. some (span first l)))

abbrev pub week_from : Option Date → Option DateSpan
unfolding plus_days
week_from start = bind start (λ s. bind (plus_days 6 s) (λ l. some (span s l)))

abbrev pub first_of_quarter : Date → Option Date
unfolding checked_date
first_of_quarter t = checked_date t.year ((t.month - 1) / 3 * 3 + 1) 1

abbrev pub whole_year : ℕ → Option DateSpan
unfolding checked_date
whole_year y = bind (checked_date y 1 1) (λ a. bind (checked_date y 12 31) (λ b. some (span a b)))

unfoldable pub named_span : Named → Date → Option DateSpan
unfolding plus_days minus_days weekday add_months subtract_months checked_date until week_from
    first_of_quarter whole_year
named_span today t = some (span t t)
named_span yesterday t = bind (minus_days 1 t) (λ d. some (span d d))
named_span this_week t = week_from (minus_days (weekday t) t)
named_span last_week t = week_from (minus_days (weekday t + 7) t)
named_span past_week t = bind (minus_days 7 t) (λ d. some (span d t))
named_span this_month t = until (first_of_month t) (add_months (first_of_month t) 1)
named_span last_month t =
    bind (subtract_months (first_of_month t) 1) (λ f. until f (some (first_of_month t)))
named_span past_month t = bind (minus_days 30 t) (λ d. some (span d t))
named_span this_quarter t = bind (first_of_quarter t) (λ f. until f (add_months f 3))
named_span last_quarter t =
    bind (first_of_quarter t) (λ q. bind (subtract_months q 3) (λ f. until f (some q)))
named_span this_year t = whole_year t.year
named_span last_year t = whole_year (t.year - 1)
named_span past_year t = bind (minus_days 365 t) (λ d. some (span d t))
