-- ===== src/HisQuery/Span/Order.antt =====
-- Dates in order: days before and after, and the first and last day of every span.
use timberdoodle.Base.{
  ℕ, zero, suc, ◌+◌, ◌*◌, ◌-◌, ◌≤◌, ◌<◌, ◌≡◌, refl, sym, ◌∙◌, inl, inr, Option, some, arith,
  Option-cases,
}
use timberdoodle.HisQuery.Span.{
  Date, date, days_in_month, checked_date, next_day, previous_day, plus_days, minus_days, DateSpan,
  span, until,
}

pub record IsDate (t : Date) : Type 0 where
  pub year_in : (1 ≤ t.year) × (t.year ≤ 9999)
  pub month_in : (1 ≤ t.month) × (t.month ≤ 12)
  pub day_in : (1 ≤ t.day) × (t.day ≤ days_in_month t.year t.month)

-- Dates are in the order of these numbers.
abbrev pub position : Date → ℕ
position t = (t.year * 12 + t.month) * 32 + t.day

pub days_in_month_bounds : (y m : ℕ) → (28 ≤ days_in_month y m) × (days_in_month y m ≤ 31)
unfolding days_in_month
days_in_month_bounds y m = ground arith

pub days_in_month-december : (y : ℕ) → days_in_month y 12 ≡ 31
unfolding days_in_month
days_in_month-december y = refl

pub checked_date-IsDate :
    (y m d : ℕ) (t : Date) → checked_date y m d ≡ some t → IsDate t × (t ≡ date y m d)
unfolding checked_date
checked_date-IsDate y m d t h = ground (arith, h)

pub next_day-IsDate :
    (t u : Date) → IsDate t → next_day t ≡ some u → IsDate u × (position t < position u)
unfolding next_day
next_day-IsDate t u v h = ground (
  arith,
  days_in_month_bounds t.year t.month,
  days_in_month_bounds t.year (t.month + 1),
  days_in_month_bounds (t.year + 1) 1,
  h,
)

pub previous_day-IsDate :
    (t p : Date) → IsDate t → previous_day t ≡ some p → IsDate p × (position p < position t)
unfolding previous_day
previous_day-IsDate t p v h = ground (
  arith,
  days_in_month_bounds t.year (t.month - 1),
  days_in_month_bounds t.year t.month,
  days_in_month-december (t.year - 1),
  h,
)

-- The day after the day before.
pub next_day-previous_day : (t p : Date) → IsDate t → previous_day t ≡ some p → next_day p ≡ some t
unfolding previous_day next_day
next_day-previous_day t p v h =
    ground
      (arith, days_in_month_bounds t.year (t.month - 1), days_in_month-december (t.year - 1), h)

-- No day lies between a day and the one before it.
previous_day-le :
    (f t p : Date)
    → IsDate f
    → IsDate t
    → previous_day t ≡ some p
    → position f < position t
    → position f ≤ position p
unfolding previous_day
previous_day-le f t p vf v h lt = ground (
  arith,
  days_in_month_bounds f.year f.month,
  days_in_month_bounds t.year (t.month - 1),
  days_in_month-december (t.year - 1),
  h,
)

pub plus_days-IsDate :
    (n : ℕ) (t u : Date) → IsDate t → plus_days n t ≡ some u → IsDate u × (position t ≤ position u)
unfolding plus_days
plus_days-IsDate zero t u v h = ground (arith, h)
plus_days-IsDate (suc n) t u v h = elim (Option-cases (plus_days n t)) [
  | inl e ↦ ground (arith, e, h)
  | inr (w, e) ↦
      let (vw, le) = plus_days-IsDate n t w v e in
      let (vu, lt) = next_day-IsDate w u vw (ground (arith, e, h)) in (vu, omega arith)
]

pub minus_days-IsDate :
    (n : ℕ) (t p : Date) → IsDate t → minus_days n t ≡ some p → IsDate p × (position p ≤ position t)
unfolding minus_days
minus_days-IsDate zero t p v h = ground (arith, h)
minus_days-IsDate (suc n) t p v h = elim (Option-cases (previous_day t)) [
  | inl e ↦ ground (arith, e, h)
  | inr (w, e) ↦
      let (vw, lt) = previous_day-IsDate t w v e in
      let (vp, le) = minus_days-IsDate n w p vw (ground (arith, e, h)) in (vp, omega arith)
]

-- Going back some days and forth again.
pub plus_days-minus_days :
    (n : ℕ) (t p : Date) → IsDate t → minus_days n t ≡ some p → plus_days n p ≡ some t
unfolding plus_days minus_days
plus_days-minus_days zero t p v h = ground (arith, h)
plus_days-minus_days (suc n) t p v h = elim (Option-cases (previous_day t)) [
  | inl e ↦ ground (arith, e, h)
  | inr (w, e) ↦
      rw (plus_days-minus_days n w p (previous_day-IsDate t w v e).0 (ground (arith, e, h)))
        (next_day-previous_day t w v e)
]

abbrev pub IsOrdered : DateSpan → Type 0
IsOrdered d = IsDate d.first × IsDate d.last × (position d.first ≤ position d.last)

pub until-IsOrdered :
    (f : Date) (o : Option Date) (d : DateSpan)
    → IsDate f
    → ((n : Date) → o ≡ some n → IsDate n × (position f < position n))
    → until f o ≡ some d
    → IsOrdered d × (d.first ≡ f) × (o ≡ next_day d.last)
unfolding until minus_days
until-IsOrdered f o d vf later h = elim (Option-cases o) [
  | inl e ↦ ground (arith, e, h)
  | inr (n, e) ↦ elim (Option-cases (previous_day n)) [
    | inl k ↦ ground (arith, e, k, h)
    | inr (l, k) ↦
        let (vn, lt) = later n e in
        let is : d ≡ span f l = ground (arith, e, k, h) in
        rw is (
          (vf, (previous_day-IsDate n l vn k).0, previous_day-le f n l vf vn k lt),
          refl,
          e ∙ sym (next_day-previous_day n l vn k),
        )
  ]
]
