-- ===== src/HisQuery/Span/Consecutive.antt =====
-- The "last" spans beside the "this" spans.
use timberdoodle.Base.{
  ℕ, zero, suc, ◌+◌, ◌-◌, ◌≤◌, ◌≡◌, refl, sym, ◌∙◌, ap, inl, inr, Option, none, some, arith,
  Option-cases,
}
use native.Mathlib.Nat.{zero-add, suc-add}
use timberdoodle.HisQuery.{bind}
use timberdoodle.HisQuery.Span.{
  Date, next_day, previous_day, plus_days, minus_days, weekday, first_of_month, add_months,
  subtract_months, Named, this_week, last_week, this_month, last_month, this_quarter, last_quarter,
  this_year, last_year, DateSpan, until, week_from, first_of_quarter, named_span, whole_year,
}
use timberdoodle.HisQuery.Span.Order.{
  IsDate, days_in_month-december, minus_days-IsDate, plus_days-minus_days,
}
use timberdoodle.HisQuery.Span.Adjacent.{
  week_from-IsOrdered, first_of_month-IsDate, until_months, months_before, first_of_quarter-IsDate,
  whole_year-IsOrdered,
}

minus_days_add : (m n : ℕ) (t : Date) → minus_days (m + n) t ≡ bind (minus_days m t) (minus_days n)
unfolding minus_days
minus_days_add zero n t = rw (zero-add n) refl
minus_days_add (suc m) n t = rw (suc-add m n) (elim (Option-cases (previous_day t)) [
  | inl e ↦ rw (e, bind)
  | inr (p, e) ↦ rw (e, bind, minus_days_add m n p) refl
])

-- Which span comes before which.
pub data Precedes : Named → Named → Type 0 where
  week : Precedes last_week this_week
  month : Precedes last_month this_month
  quarter : Precedes last_quarter this_quarter
  year : Precedes last_year this_year

abbrev Meets : DateSpan → DateSpan → Type 0
Meets a b = next_day a.last ≡ some b.first

weeks-Meets :
    (w : ℕ) (t : Date) (a b : DateSpan)
    → IsDate t
    → week_from (minus_days (w + 7) t) ≡ some a
    → week_from (minus_days w t) ≡ some b
    → Meets a b
unfolding plus_days
weeks-Meets w t a b v ha hb =
    let (oa, fa, la) =
      week_from-IsOrdered (minus_days (w + 7) t) a (λ s e. (minus_days-IsDate (w + 7) t s v e).0)
        ha in
    let (ob, fb, lb) =
      week_from-IsOrdered (minus_days w t) b (λ s e. (minus_days-IsDate w t s v e).0) hb in
    let back : minus_days 7 b.first ≡ some a.first =
      ap (λ o. bind o (minus_days 7)) (sym fb) ∙ sym (minus_days_add w 7 t) ∙ fa in
    let forth : bind (plus_days 6 a.first) next_day ≡ some b.first =
      plus_days-minus_days 7 b.first a.first ob.0 back in
    ap (λ o. bind o next_day) (sym la) ∙ forth

quarters-Meets :
    (o : Option Date) (a b : DateSpan)
    → ((q : Date) → o ≡ some q → IsDate q × (q.day ≡ 1))
    → bind o (λ q. bind (subtract_months q 3) (λ f. until f (some q))) ≡ some a
    → bind o (λ q. until q (add_months q 3)) ≡ some b
    → Meets a b
quarters-Meets none a b v ha hb = cc
quarters-Meets (some q) a b v ha hb =
    let (vq, one) = v q refl in
    let (ob, is) = until_months q 3 b vq one (omega arith) hb in
    (months_before q 3 a vq one (omega arith) ha).1 ∙ ap some (sym is)

years-Meets :
    (y : ℕ) (a b : DateSpan)
    → 1 ≤ y
    → y ≤ 9999
    → whole_year (y - 1) ≡ some a
    → whole_year y ≡ some b
    → Meets a b
unfolding next_day
years-Meets y a b lo hi ha hb = ground (
  arith,
  days_in_month-december (y - 1),
  whole_year-IsOrdered (y - 1) a ha,
  whole_year-IsOrdered y b hb,
)

-- The last week, month, quarter or year ends on the day before this one begins, so no day is in both
-- and none is between them.
pub named_span-Meets :
    {m n : Named} (p : Precedes m n) (t : Date) (a b : DateSpan)
    → IsDate t
    → named_span m t ≡ some a
    → named_span n t ≡ some b
    → Meets a b
unfolding named_span
named_span-Meets week t a b v ha hb = weeks-Meets (weekday t) t a b v ha hb
named_span-Meets month t a b v ha hb =
    let vf = first_of_month-IsDate t v in
    let (ob, is) = until_months (first_of_month t) 1 b vf refl (omega arith) hb in
    (months_before (first_of_month t) 1 a vf refl (omega arith) ha).1 ∙ ap some (sym is)
named_span-Meets quarter t a b v ha hb =
    quarters-Meets (first_of_quarter t) a b (λ q e. first_of_quarter-IsDate t q e) ha hb
named_span-Meets year t a b v ha hb = years-Meets t.year a b v.year_in.0 v.year_in.1 ha hb
