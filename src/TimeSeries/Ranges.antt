-- ===== src/TimeSeries/Ranges.antt =====
-- What `read_range` returns.
use mathlib.Core.List.{Perm}
use mathlib.Core.List.Perm
use timberdoodle.Base.{
  ◌≤◌, String, Bool, ◌&&◌, [], ◌∷◌, arith, ltb, leb, str_eq, keep, map, All, Bool-cases, inl, inr,
}
use timberdoodle.Values.{Instant, Value}
use timberdoodle.TimeSeries.{Moment, Columns, History, Series, row_to_value, place, read_range}

-- The oldest sample first.
abbrev pub IsOldestFirst : Series → Type 0
IsOldestFirst [] = Unit
IsOldestFirst (x ∷ s) = All (λ y. x.0 ≤ y.0) s × IsOldestFirst s

place-perm : (ts : Instant) (v : Value) (s : Series) → Perm (place ts v s) ((ts, v) ∷ s)
unfolding place
place-perm ts v [] = Perm.refl ((ts, v) ∷ [])
place-perm ts v ((t, w) ∷ s) = elim (Bool-cases (ltb t ts)) [
  | inl e ↦ rw e (Perm.trans (Perm.cons (t, w) (place-perm ts v s)) (Perm.swap (ts, v) (t, w) s))
  | inr e ↦ rw e (Perm.refl ((ts, v) ∷ (t, w) ∷ s))
]

All-place :
    (n ts : Instant) (v : Value) (s : Series)
    → n ≤ ts
    → All (λ y. n ≤ y.0) s
    → All (λ y. n ≤ y.0) (place ts v s)
unfolding place
All-place n ts v [] h k = (h, tt)
All-place n ts v ((t, w) ∷ s) h k = elim (Bool-cases (ltb t ts)) [
  | inl e ↦ rw e (k.0, All-place n ts v s h k.1)
  | inr e ↦ rw e (h, k)
]

All-lower : (m n : Instant) (s : Series) → m ≤ n → All (λ y. n ≤ y.0) s → All (λ y. m ≤ y.0) s
All-lower m n [] h k = tt
All-lower m n (y ∷ s) h k = (omega arith, All-lower m n s h k.1)

place-IsOldestFirst :
    (ts : Instant) (v : Value) (s : Series) → IsOldestFirst s → IsOldestFirst (place ts v s)
unfolding place
place-IsOldestFirst ts v [] h = (tt, tt)
place-IsOldestFirst ts v ((t, w) ∷ s) h = elim (Bool-cases (ltb t ts)) [
  | inl e ↦ rw e (All-place t ts v s (ground (arith, e)) h.0, place-IsOldestFirst ts v s h.1)
  | inr e ↦ rw e ((ground (arith, e), All-lower ts t s (ground (arith, e)) h.0), h)
]

abbrev pub in_range : String → Instant → Instant → Moment × Columns → Bool
in_range point start end r = str_eq r.0.0 point && (leb start r.0.1 && leb r.0.1 end)

abbrev pub sample : Moment × Columns → Instant × Value
sample r = (r.0.1, row_to_value r.1)

-- A range holds the sample of each row of the point from its start to its end, both included, each as
-- often as the table does and no other, and the oldest comes first.
pub read_range-IsOldestFirst :
    (h : History) (point : String) (start end : Instant)
    → Perm (read_range h point start end) (map sample (keep (in_range point start end) h))
      × IsOldestFirst (read_range h point start end)
unfolding read_range
read_range-IsOldestFirst [] point start end = (Perm.refl [], tt)
read_range-IsOldestFirst (r ∷ h) point start end =
    let rest = read_range-IsOldestFirst h point start end in
    let s = read_range h point start end in
    elim (Bool-cases (in_range point start end r)) [
      | inr e ↦ rw e rest
      | inl e ↦ rw e (
        Perm.trans (place-perm r.0.1 (row_to_value r.1) s) (Perm.cons (sample r) rest.0),
        place-IsOldestFirst r.0.1 (row_to_value r.1) s rest.1,
      )
    ]
