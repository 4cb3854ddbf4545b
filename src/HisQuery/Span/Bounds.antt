-- ===== src/HisQuery/Span/Bounds.antt =====
-- Where the span of `resolve_span` starts and ends.
use timberdoodle.Base.{
  ℕ, ◌≤◌, ◌<◌, ◌≡◌, inl, inr, String, false, ◌||◌, Option, none, some, str_eq, arith, Option-cases,
  Bool-cases,
}
use timberdoodle.Base.Text.{strip}
use timberdoodle.HisQuery.Span.{Date, checked_date, next_day, DateSpan, span}
use timberdoodle.HisQuery.Span.Order.{
  IsDate, position, days_in_month_bounds, checked_date-IsDate, next_day-IsDate, IsOrdered,
}
use timberdoodle.HisQuery.Span.Adjacent.{
  until_months, whole_year-IsOrdered, named_span-IsOrdered, within-IsOrdered,
}
use timberdoodle.HisQuery.Span.Resolve.{
  Numbers, full_date, year_month, year_only, numbers_span, numbers_or_named, named_of, read_numbers,
  date_span, normalize_span_text, split_range, is_before, ordered, range_span, days_of, Span,
  given_or_today, Zone, instants, resolve_span,
}

numbers_span-IsOrdered : (n : Numbers) (d : DateSpan) → numbers_span n ≡ some d → IsOrdered d
unfolding numbers_span
numbers_span-IsOrdered (full_date y m k) d h =
    within-IsOrdered (checked_date y m k) _ d
      (λ q e p. let vq = (checked_date-IsDate y m k q e).0 in ground (arith, p, vq)) h
numbers_span-IsOrdered (year_month y m) d h =
    within-IsOrdered (checked_date y m 1) _ d
      (λ q e p.
        let (vq, is) = checked_date-IsDate y m 1 q e in
        (until_months q 1 d vq (ground (arith, is)) (omega arith) p).0)
      h
numbers_span-IsOrdered (year_only y) d h = (whole_year-IsOrdered y d h).0

numbers_or_named-IsOrdered :
    (o : Option Numbers) (text : String) (t : Date) (d : DateSpan)
    → IsDate t
    → numbers_or_named o text t ≡ some d
    → IsOrdered d
unfolding numbers_or_named
numbers_or_named-IsOrdered (some n) text t d v h = numbers_span-IsOrdered n d h
numbers_or_named-IsOrdered none text t d v h = elim (Option-cases (named_of text)) [
  | inl e ↦ ground (arith, e, h)
  | inr (n, e) ↦ named_span-IsOrdered n t d v (ground (arith, e, h))
]

date_span-IsOrdered :
    (text : String) (t : Date) (d : DateSpan) → IsDate t → date_span text t ≡ some d → IsOrdered d
unfolding date_span
date_span-IsOrdered text t d v h = numbers_or_named-IsOrdered (read_numbers text) text t d v h

not_before : (a b : Date) → IsDate a → IsDate b → is_before b a ≡ false → position a ≤ position b
unfolding is_before
not_before a b va vb h =
    ground (arith, days_in_month_bounds a.year a.month, days_in_month_bounds b.year b.month)

ordered-IsOrdered :
    (a b d : DateSpan) → IsOrdered a → IsOrdered b → ordered a b ≡ some d → IsOrdered d
unfolding ordered
ordered-IsOrdered a b d oa ob h = elim (Bool-cases (is_before b.last a.first)) [
  | inl e ↦ ground (arith, e, h)
  | inr e ↦
      let is : d ≡ span a.first b.last = ground (arith, e, h) in
      rw is (oa.0, ob.1, not_before a.first b.last oa.0 ob.1 e)
]

range_span-IsOrdered :
    (t : Date) (r : String × String) (d : DateSpan)
    → IsDate t
    → range_span t r ≡ some d
    → IsOrdered d
unfolding range_span
range_span-IsOrdered t r d v h =
    elim (Bool-cases (str_eq (strip r.0) "" || str_eq (strip r.1) "")) [
      | inl e ↦ ground (arith, e, h)
      | inr e ↦
          within-IsOrdered (date_span (normalize_span_text (strip r.0)) t) _ d
            (λ a ea ka.
              within-IsOrdered (date_span (normalize_span_text (strip r.1)) t) _ d
                (λ b eb kb.
                  ordered-IsOrdered a b d
                    (date_span-IsOrdered (normalize_span_text (strip r.0)) t a v ea)
                    (date_span-IsOrdered (normalize_span_text (strip r.1)) t b v eb) kb)
                ka)
            (ground (arith, e, h))
    ]

days_of-IsOrdered :
    (label : String) (t : Date) (d : DateSpan) → IsDate t → days_of label t ≡ some d → IsOrdered d
unfolding days_of
days_of-IsOrdered label t d v h = elim (Option-cases (split_range label)) [
  | inl e ↦ date_span-IsOrdered label t d v (ground (arith, e, h))
  | inr (r, e) ↦ range_span-IsOrdered t r d v (ground (arith, e, h))
]

instants-start-lt :
    (z : Zone) (label : String) (d : DateSpan) (s : Span)
    → ((a b : Date) → IsDate a → IsDate b → position a < position b → z.midnight a < z.midnight b)
    → IsOrdered d
    → instants z label d ≡ some s
    → s.start < s.end
unfolding instants
instants-start-lt z label d s later (vf, vl, le) h = elim (Option-cases (next_day d.last)) [
  | inl k ↦ ground (arith, k, h)
  | inr (n, k) ↦
      let (vn, lt) = next_day-IsDate d.last n vl k in
      let is : s ≡ record { start = z.midnight d.first; end = z.midnight n; label = label } =
        ground (arith, k, h) in
      rw is (later d.first n vf vn (omega arith))
]

-- For a zone in which each moment has a date and a later date begins later: the span that is
-- returned, whatever text it is of, ends after it starts.
pub resolve_span-start-lt :
    (z : Zone) (text : Option String) (now : ℕ) (s : Span)
    → ((n : ℕ) → IsDate (z.date_of n))
    → ((a b : Date) → IsDate a → IsDate b → position a < position b → z.midnight a < z.midnight b)
    → resolve_span (some z) text now ≡ some s
    → s.start < s.end
unfolding resolve_span
resolve_span-start-lt z text now s dates later h =
    let label : String = normalize_span_text (given_or_today text) in
    elim (Option-cases (days_of label (z.date_of now))) [
      | inl e ↦ ground (arith, e, h)
      | inr (d, e) ↦
          instants-start-lt z label d s later
            (days_of-IsOrdered label (z.date_of now) d (dates now) e) (ground (arith, e, h))
    ]
