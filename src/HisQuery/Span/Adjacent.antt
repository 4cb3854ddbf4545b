-- ===== src/HisQuery/Span/Adjacent.antt =====
-- The first and the last day of the named spans.
use timberdoodle.Base.{
  ℕ, ◌+◌, ◌*◌, ◌-◌, ◌/◌, ◌%◌, ◌≤◌, ◌<◌, ◌≡◌, refl, sym, subst, inl, inr, Option, none, some, ltb,
  arith, Option-cases, Bool-cases,
}
use timberdoodle.HisQuery.{bind}
use timberdoodle.HisQuery.Span.{
  Date, date, checked_date, next_day, plus_days, minus_days, weekday, first_of_month, add_months,
  subtract_months, Named, today, yesterday, this_week, last_week, past_week, this_month, last_month,
  past_month, this_quarter, last_quarter, this_year, last_year, past_year, DateSpan, span, until,
  week_from, first_of_quarter, named_span, whole_year,
}
use timberdoodle.HisQuery.Span.Order.{
  IsDate, position, days_in_month_bounds, checked_date-IsDate, plus_days-IsDate, minus_days-IsDate,
  IsOrdered, until-IsOrdered,
}

pub week_from-IsOrdered :
    (o : Option Date) (d : DateSpan)
    → ((s : Date) → o ≡ some s → IsDate s)
    → week_from o ≡ some d
    → IsOrdered d × (o ≡ some d.first) × (plus_days 6 d.first ≡ some d.last)
unfolding week_from
week_from-IsOrdered o d v h = elim (Option-cases o) [
  | inl e ↦ ground (arith, e, h)
  | inr (s, e) ↦ elim (Option-cases (plus_days 6 s)) [
    | inl k ↦ ground (arith, e, k, h)
    | inr (l, k) ↦
        let is : d ≡ span s l = ground (arith, e, k, h) in
        let (vl, le) = plus_days-IsDate 6 s l (v s e) k in rw is ((v s e, vl, le), e, k)
  ]
]

pub back-IsOrdered :
    (n : ℕ) (t : Date) (d : DateSpan)
    → IsDate t
    → bind (minus_days n t) (λ p. some (span p t)) ≡ some d
    → IsOrdered d
back-IsOrdered n t d v h = elim (Option-cases (minus_days n t)) [
  | inl e ↦ ground (arith, e, h)
  | inr (p, e) ↦
      let is : d ≡ span p t = ground (arith, e, h) in
      let (vp, le) = minus_days-IsDate n t p v e in rw is (vp, v, le)
]

pub first_of_month-IsDate : (t : Date) → IsDate t → IsDate (first_of_month t)
first_of_month-IsDate t v = ground (arith, days_in_month_bounds t.year t.month)

add_months-after :
    (f : Date) (n : ℕ) (g : Date)
    → IsDate f
    → f.day ≡ 1
    → 1 ≤ n
    → add_months f n ≡ some g
    → IsDate g × (position f < position g)
unfolding add_months
add_months-after f n g v one n_pos h = ground (
  arith,
  checked_date-IsDate (f.year + (f.month - 1 + n) / 12) ((f.month - 1 + n) % 12 + 1) 1 g h,
)

subtract_months-before :
    (f : Date) (n : ℕ) (g : Date)
    → IsDate f
    → f.day ≡ 1
    → 1 ≤ n
    → subtract_months f n ≡ some g
    → IsDate g × (g.day ≡ 1) × (position g < position f)
unfolding subtract_months
subtract_months-before f n g v one n_pos h =
    elim (Bool-cases (ltb (f.year * 12 + (f.month - 1)) n)) [
      | inl e ↦ ground (arith, e, h)
      | inr e ↦
          let total : ℕ = f.year * 12 + (f.month - 1) in
          ground (
            arith,
            e,
            checked_date-IsDate ((total - n) / 12) ((total - n) % 12 + 1) 1 g
                (ground (arith, e, h)),
          )
    ]

pub until_months :
    (f : Date) (n : ℕ) (d : DateSpan)
    → IsDate f
    → f.day ≡ 1
    → 1 ≤ n
    → until f (add_months f n) ≡ some d
    → IsOrdered d × (d.first ≡ f)
until_months f n d v one n_pos h =
    let r =
      until-IsOrdered f (add_months f n) d v (λ g e. add_months-after f n g v one n_pos e) h in
    (r.0, r.1)

-- The span of the months before a first day.
pub months_before :
    (q : Date) (n : ℕ) (d : DateSpan)
    → IsDate q
    → q.day ≡ 1
    → 1 ≤ n
    → bind (subtract_months q n) (λ f. until f (some q)) ≡ some d
    → IsOrdered d × (next_day d.last ≡ some q)
unfolding until
months_before q n d v one n_pos h = elim (Option-cases (subtract_months q n)) [
  | inl e ↦ ground (arith, e, h)
  | inr (f, e) ↦
      let (vf, day, lt) = subtract_months-before q n f v one n_pos e in
      let r =
        until-IsOrdered f (some q) d vf
          (λ g k.
            let same : q ≡ g = ground (arith, k) in
            subst (λ z. IsDate z × (position f < position z)) same (v, lt))
          (ground (arith, e, h)) in
      (r.0, sym r.2)
]

pub first_of_quarter-IsDate : (t f : Date) → first_of_quarter t ≡ some f → IsDate f × (f.day ≡ 1)
unfolding first_of_quarter
first_of_quarter-IsDate t f h =
    ground (arith, checked_date-IsDate t.year ((t.month - 1) / 3 * 3 + 1) 1 f h)

pub whole_year-IsOrdered :
    (y : ℕ) (d : DateSpan)
    → whole_year y ≡ some d
    → IsOrdered d × (d ≡ span (date y 1 1) (date y 12 31))
unfolding whole_year
whole_year-IsOrdered y d h = elim (Option-cases (checked_date y 1 1)) [
  | inl e ↦ ground (arith, e, h)
  | inr (a, e) ↦ elim (Option-cases (checked_date y 12 31)) [
    | inl k ↦ ground (arith, e, k, h)
    | inr (b, k) ↦
        ground (arith, e, k, h, checked_date-IsDate y 1 1 a e, checked_date-IsDate y 12 31 b k)
  ]
]

pub within-IsOrdered :
    {A : Type 0} (o : Option A) (f : A → Option DateSpan) (d : DateSpan)
    → ((q : A) → o ≡ some q → f q ≡ some d → IsOrdered d)
    → bind o f ≡ some d
    → IsOrdered d
within-IsOrdered none f d step h = cc
within-IsOrdered (some q) f d step h = step q refl h

-- Whatever the day is, the first day of a named span is not after the last, and both are dates.
pub named_span-IsOrdered :
    (n : Named) (t : Date) (d : DateSpan) → IsDate t → named_span n t ≡ some d → IsOrdered d
unfolding named_span
named_span-IsOrdered today t d v h = ground (arith, v, h)
named_span-IsOrdered yesterday t d v h = elim (Option-cases (minus_days 1 t)) [
  | inl e ↦ ground (arith, e, h)
  | inr (p, e) ↦ let vp = (minus_days-IsDate 1 t p v e).0 in ground (arith, e, h, vp)
]
named_span-IsOrdered this_week t d v h =
    (week_from-IsOrdered (minus_days (weekday t) t) d
      (λ s e. (minus_days-IsDate (weekday t) t s v e).0) h).0
named_span-IsOrdered last_week t d v h =
    (week_from-IsOrdered (minus_days (weekday t + 7) t) d
      (λ s e. (minus_days-IsDate (weekday t + 7) t s v e).0) h).0
named_span-IsOrdered past_week t d v h = back-IsOrdered 7 t d v h
named_span-IsOrdered this_month t d v h =
    (until_months (first_of_month t) 1 d (first_of_month-IsDate t v) refl (omega arith) h).0
named_span-IsOrdered last_month t d v h =
    (months_before (first_of_month t) 1 d (first_of_month-IsDate t v) refl (omega arith) h).0
named_span-IsOrdered past_month t d v h = back-IsOrdered 30 t d v h
named_span-IsOrdered this_quarter t d v h =
    within-IsOrdered (first_of_quarter t) _ d
      (λ q e k.
        let (vq, one) = first_of_quarter-IsDate t q e in
        (until_months q 3 d vq one (omega arith) k).0)
      h
named_span-IsOrdered last_quarter t d v h =
    within-IsOrdered (first_of_quarter t) _ d
      (λ q e k.
        let (vq, one) = first_of_quarter-IsDate t q e in
        (months_before q 3 d vq one (omega arith) k).0)
      h
named_span-IsOrdered this_year t d v h = (whole_year-IsOrdered t.year d h).0
named_span-IsOrdered last_year t d v h = (whole_year-IsOrdered (t.year - 1) d h).0
named_span-IsOrdered past_year t d v h = back-IsOrdered 365 t d v h
