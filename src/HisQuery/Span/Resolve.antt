-- ===== src/HisQuery/Span/Resolve.antt =====
-- `_date_span` and `resolve_span`: the text of a span, the days that it names, and the instants from
-- the first midnight to the one after the last day.
use timberdoodle.Base.{
  ℕ, zero, suc, ◌+◌, ◌*◌, ◌-◌, String, Bool, ◌&&◌, ◌||◌, Option, none, some, ◌==◌, ltb, str_eq,
  if◌then◌else◌,
}
use Prim.Native.Char.{code}
use timberdoodle.Base.Text.{strip}
use timberdoodle.HisQuery.{bind}
use timberdoodle.HisQuery.Interval.{is_digit}
use timberdoodle.HisQuery.Span.{
  Date, checked_date, add_months, minus_days, next_day, plus_days, Named, today, yesterday,
  this_week, last_week, past_week, this_month, last_month, past_month, this_quarter, last_quarter,
  this_year, last_year, past_year, DateSpan, span, until, named_span, whole_year,
}

-- `\d{k}`: the number, and what follows it.
unfoldable pub digits : ℕ → ℕ → String → Option (ℕ × String)
digits zero n s = some (n, s)
digits (suc k) n String.[] = none
digits (suc k) n (String.◌∷◌ c s) =
    let more = digits k (n * 10 + (code c - b'0')) s in if is_digit (code c) then more else none

abbrev pub after_dash : String → Option String
after_dash String.[] = none
after_dash (String.◌∷◌ c s) = if code c == b'-' then some s else none

-- A year, a month of it, or a day of that.
pub data Numbers : Type 0 where
  year_only : ℕ → Numbers
  year_month : ℕ → ℕ → Numbers
  full_date : ℕ → ℕ → ℕ → Numbers

abbrev pub end_of : Numbers → String → Option Numbers
end_of n String.[] = some n
end_of n (String.◌∷◌ c s) = none

abbrev pub day_of : ℕ → ℕ → String → Option Numbers
unfolding digits
day_of y m s = bind (after_dash s) (λ t. bind (digits 2 0 t) (λ d. end_of (full_date y m d.0) d.1))

abbrev pub or_more : Option Numbers → Option Numbers → Option Numbers
or_more none r = r
or_more (some n) r = some n

abbrev pub month_of : ℕ → String → Option Numbers
unfolding digits day_of
month_of y s =
    bind (after_dash s)
      (λ t. bind (digits 2 0 t) (λ m. or_more (end_of (year_month y m.0) m.1) (day_of y m.0 m.1)))

-- `$` matches before a line feed that ends the text; `int` skips it, `date.fromisoformat` does not.
abbrev before_line_feed : String → String
before_line_feed s = if str_eq s "\n" then "" else s

-- The three patterns `_YEAR_RE`, `_MONTH_RE` and `_DATE_RE`.
unfoldable pub read_numbers : String → Option Numbers
unfolding digits month_of
read_numbers text =
    bind (digits 4 0 text)
      (λ y. or_more (end_of (year_only y.0) (before_line_feed y.1)) (month_of y.0 y.1))

abbrev pub day_span : Option Date → Option DateSpan
day_span d = bind d (λ t. some (span t t))

unfoldable pub numbers_span : Numbers → Option DateSpan
unfolding checked_date add_months until minus_days whole_year
numbers_span (full_date y m d) = day_span (checked_date y m d)
numbers_span (year_month y m) = bind (checked_date y m 1) (λ f. until f (add_months f 1))
numbers_span (year_only y) = whole_year y

unfoldable pub named_of : String → Option Named
named_of t =
    if str_eq t "today"
    then some today
    else if str_eq t "yesterday"
    then some yesterday
    else if str_eq t "thisWeek"
    then some this_week
    else if str_eq t "lastWeek"
    then some last_week
    else if str_eq t "pastWeek"
    then some past_week
    else if str_eq t "thisMonth"
    then some this_month
    else if str_eq t "lastMonth"
    then some last_month
    else if str_eq t "pastMonth"
    then some past_month
    else if str_eq t "thisQuarter"
    then some this_quarter
    else if str_eq t "lastQuarter"
    then some last_quarter
    else if str_eq t "thisYear"
    then some this_year
    else if str_eq t "lastYear"
    then some last_year
    else if str_eq t "pastYear"
    then some past_year
    else none

unfoldable pub numbers_or_named : Option Numbers → String → Date → Option DateSpan
unfolding numbers_span named_of named_span
numbers_or_named (some n) text t = numbers_span n
numbers_or_named none text t = bind (named_of text) (λ n. named_span n t)

unfoldable pub date_span : String → Date → Option DateSpan
unfolding read_numbers numbers_or_named numbers_span named_of named_span
date_span text t = numbers_or_named (read_numbers text) text t

-- `text.removesuffix("()")`
unfoldable pub without_call : String → String
without_call String.[] = String.[]
without_call (String.◌∷◌ c String.[]) = String.◌∷◌ c String.[]
without_call (String.◌∷◌ c (String.◌∷◌ d s)) =
    let rest = String.◌∷◌ c (without_call (String.◌∷◌ d s)) in
    if (code c == b'(') && ((code d == b')') && str_eq s "") then String.[] else rest

unfoldable pub normalize_span_text : String → String
unfolding strip without_call
normalize_span_text text = without_call (strip text)

-- `label.split("..", 1)`, if the label has two dots in a row
unfoldable pub split_range : String → Option (String × String)
split_range String.[] = none
split_range (String.◌∷◌ c String.[]) = none
split_range (String.◌∷◌ c (String.◌∷◌ d s)) =
    let later = bind (split_range (String.◌∷◌ d s)) (λ r. some (String.◌∷◌ c r.0, r.1)) in
    if (code c == b'.') && (code d == b'.') then some ("", s) else later

unfoldable pub is_before : Date → Date → Bool
is_before a b =
    ltb a.year b.year
    || ((a.year == b.year) && (ltb a.month b.month || ((a.month == b.month) && ltb a.day b.day)))

-- The first day of the first span, and the last day of the second.
unfoldable pub ordered : DateSpan → DateSpan → Option DateSpan
unfolding is_before
ordered a b = if is_before b.last a.first then none else some (span a.first b.last)

unfoldable pub range_span : Date → String × String → Option DateSpan
unfolding strip normalize_span_text date_span ordered
range_span t r =
    if str_eq (strip r.0) "" || str_eq (strip r.1) ""
    then none
    else bind (date_span (normalize_span_text (strip r.0)) t)
        (λ a. bind (date_span (normalize_span_text (strip r.1)) t) (λ b. ordered a b))

abbrev pub range_or_span : Option (String × String) → String → Date → Option DateSpan
unfolding range_span date_span
range_or_span none label t = date_span label t
range_or_span (some r) label t = range_span t r

unfoldable pub days_of : String → Date → Option DateSpan
unfolding split_range range_or_span range_span date_span
days_of label t = range_or_span (split_range label) label t

pub record Span : Type 0 where
  pub start : ℕ
  pub end : ℕ
  pub label : String

-- `text or DEFAULT_SPAN`
abbrev pub given_or_today : Option String → String
given_or_today none = "today"
given_or_today (some t) = if str_eq t "" then "today" else t

-- The zone is a parameter: the day that `now` is there, and the instant at which a day begins. A zone
-- that is not known is `none`.
pub record Zone : Type 0 where
  pub date_of : ℕ → Date
  pub midnight : Date → ℕ

unfoldable pub instants : Zone → String → DateSpan → Option Span
unfolding next_day plus_days
instants z label d =
    bind (plus_days 1 d.last)
      (λ e. some (record { start = z.midnight d.first; end = z.midnight e; label = label }))

unfoldable pub resolve_span : Option Zone → Option String → ℕ → Option Span
unfolding days_of normalize_span_text instants
resolve_span none text now = none
resolve_span (some z) text now =
    let label = normalize_span_text (given_or_today text) in
    bind (days_of label (z.date_of now)) (λ d. instants z label d)
