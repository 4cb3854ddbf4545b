-- ===== src/TimeSeries/Many/Limits.antt =====
-- `read_range_many` and its limit.
use timberdoodle.Base.{
  ℕ, zero, suc, ◌≤◌, ◌≡◌, refl, ap, String, List, [], ◌∷◌, ltb, length, map, arith, Bool-cases, inl,
  inr,
}
use timberdoodle.Values.{Instant}
use timberdoodle.TimeSeries.{History, Series}
use timberdoodle.TimeSeries.Many.{raw_rows, take, PointRows, cut, read_range_many}

take-take {ℓ} : {A : Type ℓ} (n : ℕ) (xs : List A) → take n (take (suc n) xs) ≡ take n xs
take-take zero xs = refl
take-take (suc n) [] = refl
take-take (suc n) (x ∷ xs) = ap (λ ys. x ∷ ys) (take-take n xs)

length-take {ℓ} :
    {A : Type ℓ} (n : ℕ) (xs : List A) → ltb n (length (take (suc n) xs)) ≡ ltb n (length xs)
length-take n [] = refl
length-take zero (x ∷ xs) = ground arith
length-take (suc n) (x ∷ xs) = ground (arith, length-take n xs)

take_all {ℓ} : {A : Type ℓ} (n : ℕ) (xs : List A) → length xs ≤ n → take n xs ≡ xs
take_all zero [] h = refl
take_all (suc n) [] h = refl
take_all zero (x ∷ xs) h = absurd (omega arith)
take_all (suc n) (x ∷ xs) h = ap (λ ys. x ∷ ys) (take_all n xs (omega arith))

-- The rows of a point up to the limit, and whether there were more.
abbrev pub limited : ℕ → String → Series → PointRows
limited limit point rows = record {
  point = point;
  rows = take limit rows;
  truncated = ltb limit (length rows);
}

cut-take :
    (point : String) (limit : ℕ) (rows : Series)
    → cut point limit (take (suc limit) rows) ≡ limited limit point rows
unfolding cut
cut-take point limit rows = elim (Bool-cases (ltb limit (length rows))) [
  | inl e ↦ rw (length-take limit rows, e, take-take limit rows) refl
  | inr e ↦
      rw
        (
          length-take limit rows,
          e,
          take_all (suc limit) rows (ground (arith, e)),
          take_all limit rows (ground (arith, e)),
        )
        refl
]

-- For each point the result has its first rows of the span, at most as many as the limit, and the flag
-- is set exactly if the span has more.
pub read_range_many-limited :
    (h : History) (ps : List String) (start end : Instant) (limit : ℕ)
    → read_range_many h ps start end limit ≡ map (λ p. limited limit p (raw_rows h p start end)) ps
unfolding read_range_many
read_range_many-limited h [] start end limit = refl
read_range_many-limited h (p ∷ ps) start end limit =
    rw (cut-take p limit (raw_rows h p start end), read_range_many-limited h ps start end limit)
      refl
