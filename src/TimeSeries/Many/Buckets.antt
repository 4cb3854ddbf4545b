-- ===== src/TimeSeries/Many/Buckets.antt =====
-- The buckets of a rollup and the samples of its span.
use timberdoodle.Base.{
  ℕ, ◌+◌, ◌-◌, ◌*◌, ◌/◌, ◌%◌, ◌≤◌, ◌<◌, ◌≡◌, refl, ap, ◌∙◌, String, ◌&&◌, Option, none, some, List,
  [], ◌∷◌, ◌==◌, ltb, leb, str_eq, All, if◌then◌else◌, arith, Bool-cases, inl, inr,
}
use native.Mathlib.Nat.{mul-mod_left, div-mul-le_self, lt-div-mul-add}
use timberdoodle.Base.Int.{ℤ}
use timberdoodle.Values.{Instant}
use timberdoodle.TimeSeries.{History}
use timberdoodle.TimeSeries.Many.{
  numeric, microseconds, date_bin, Buckets, into_bucket, put_value, rollup_rows,
}

abbrev pub IsAscending : Buckets → Type 0
IsAscending [] = Unit
IsAscending (c ∷ cs) = All (λ d. c.start < d.start) cs × IsAscending cs

-- The values of the bucket that starts at an instant.
abbrev pub values_at : Instant → Buckets → List ℤ
values_at b [] = []
values_at b (c ∷ cs) = if b == c.start then c.values else values_at b cs

values_at-above : (b : Instant) (cs : Buckets) → All (λ d. b < d.start) cs → values_at b cs ≡ []
values_at-above b [] h = refl
values_at-above b (c ∷ cs) h = ground (arith, values_at-above b cs h.1, h.0)

All-below :
    (b c : Instant) (cs : Buckets) → b < c → All (λ d. c < d.start) cs → All (λ d. b < d.start) cs
All-below b c [] lt h = tt
All-below b c (d ∷ cs) lt h = (omega arith, All-below b c cs lt h.1)

All-into_bucket :
    (a b : Instant) (z : ℤ) (cs : Buckets)
    → a < b
    → All (λ d. a < d.start) cs
    → All (λ d. a < d.start) (into_bucket b z cs)
unfolding into_bucket
All-into_bucket a b z [] lt h = (lt, tt)
All-into_bucket a b z (c ∷ cs) lt h = elim (Bool-cases (b == c.start)) [
  | inl e ↦ rw e h
  | inr e ↦ elim (Bool-cases (ltb b c.start)) [
    | inl f ↦ rw (e, f) (lt, h)
    | inr f ↦ rw (e, f) (h.0, All-into_bucket a b z cs lt h.1)
  ]
]

into_bucket-IsAscending :
    (b : Instant) (z : ℤ) (cs : Buckets) → IsAscending cs → IsAscending (into_bucket b z cs)
unfolding into_bucket
into_bucket-IsAscending b z [] h = (tt, tt)
into_bucket-IsAscending b z (c ∷ cs) h = elim (Bool-cases (b == c.start)) [
  | inl e ↦ rw e h
  | inr e ↦ elim (Bool-cases (ltb b c.start)) [
    | inl f ↦
        let lt : b < c.start = ground (arith, f) in
        rw (e, f) ((lt, All-below b c.start cs lt h.0), h)
    | inr f ↦
        rw (e, f)
          (
            All-into_bucket c.start b z cs (ground (arith, e, f)) h.0,
            into_bucket-IsAscending b z cs h.1,
          )
  ]
]

values_at-into_bucket :
    (a b : Instant) (z : ℤ) (cs : Buckets)
    → IsAscending cs
    → values_at a (into_bucket b z cs) ≡ (if b == a then z ∷ values_at a cs else values_at a cs)
unfolding into_bucket
values_at-into_bucket a b z [] h = ground arith
values_at-into_bucket a b z (c ∷ cs) h = elim (Bool-cases (b == c.start)) [
  | inl e ↦ rw e (ground (arith, e))
  | inr e ↦ elim (Bool-cases (ltb b c.start)) [
    | inl f ↦
        let lt : b < c.start = ground (arith, f) in
        let nothing = values_at-above b cs (All-below b c.start cs lt h.0) in
        rw (e, f) (ground (arith, e, f, nothing))
    | inr f ↦ rw (e, f) (ground (arith, e, values_at-into_bucket a b z cs h.1))
  ]
]

-- The numbers of the point's rows in the span whose instant falls into the bucket `b`, in the order of
-- the table.
abbrev pub put : Option ℤ → List ℤ → List ℤ
put none zs = zs
put (some z) zs = z ∷ zs

abbrev pub numbers_in :
    (Instant → Instant) → Instant → History → String → Instant → Instant → List ℤ
numbers_in bucket b [] point start end = []
numbers_in bucket b (r ∷ h) point start end =
    let rest = numbers_in bucket b h point start end in
    if (str_eq r.0.0 point && (leb start r.0.1 && ltb r.0.1 end)) && (bucket r.0.1 == b)
    then put (numeric r.1) rest
    else rest

put_value-step :
    (a b : Instant) (o : Option ℤ) (cs : Buckets) (zs : List ℤ)
    → IsAscending cs × (values_at b cs ≡ zs)
    → IsAscending (put_value a o cs)
      × (values_at b (put_value a o cs) ≡ (if a == b then put o zs else zs))
unfolding put_value
put_value-step a b none cs zs (asc, e) = (asc, ground (arith, e))
put_value-step a b (some z) cs zs (asc, e) =
    (into_bucket-IsAscending a z cs asc, ground (arith, values_at-into_bucket b a z cs asc, e))

-- The buckets of a rollup come in ascending order, and each holds exactly the numbers of the samples
-- of the span that fall into it; a text is in none.
pub rollup_rows-numbers_in :
    (bucket : Instant → Instant) (h : History) (point : String) (start end b : Instant)
    → IsAscending (rollup_rows bucket h point start end)
      × (values_at b (rollup_rows bucket h point start end) ≡ numbers_in bucket b h point start end)
unfolding rollup_rows
rollup_rows-numbers_in bucket [] point start end b = (tt, refl)
rollup_rows-numbers_in bucket (r ∷ h) point start end b =
    let rest = rollup_rows-numbers_in bucket h point start end b in
    elim (Bool-cases (str_eq r.0.0 point && (leb start r.0.1 && ltb r.0.1 end))) [
      | inr e ↦ rw e rest
      | inl e ↦ rw e (
          put_value-step (bucket r.0.1) b (numeric r.1) (rollup_rows bucket h point start end)
            (numbers_in bucket b h point start end) rest)
    ]

-- A fixed interval: the bucket of an instant starts a whole number of intervals after the span does,
-- not after the instant, and ends after it.
pub date_bin_bounds :
    (secs origin ts : ℕ)
    → 0 < secs
    → origin ≤ ts
    → ((date_bin secs origin ts - origin) % microseconds secs ≡ 0)
      × (date_bin secs origin ts ≤ ts)
      × (ts < date_bin secs origin ts + microseconds secs)
unfolding date_bin
date_bin_bounds secs origin ts h k =
    let w : ℕ = microseconds secs in
    let positive : 0 < w = omega (arith, h) in
    (
      ap (λ n. n % w) (back origin ((ts - origin) / w * w)) ∙ mul-mod_left ((ts - origin) / w) w,
      omega (arith, div-mul-le_self (ts - origin) w),
      omega (arith, lt-div-mul-add {a = ts - origin} {b = w} positive),
    )
  where
    back : (m n : ℕ) → m + n - m ≡ n
    back m n = omega arith
