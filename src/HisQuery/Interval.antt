-- ===== src/HisQuery/Interval.antt =====
-- Rollup intervals: `parse_interval`, on text without blanks at its ends.
use timberdoodle.Base.{
  ℕ, ◌+◌, ◌*◌, ◌-◌, ◌<◌, ◌≡◌, ◌⊎◌, inl, inr, refl, String, Bool, true, ◌&&◌, ◌||◌, Option, none,
  some, ◌==◌, leb, str_eq, if◌then◌else◌, arith, Option-cases, Bool-cases,
}
use Prim.Native.Char.{code}

pub record Interval : Type 0 where
  pub seconds : Option ℕ
  pub months : Option ℕ

-- `none` is an unknown unit, `some none` one of no fixed length.
unfoldable pub unit_seconds : String → Option (Option ℕ)
unit_seconds u =
    if str_eq u "s" || str_eq u "sec"
    then some (some 1)
    else if str_eq u "min"
    then some (some 60)
    else if str_eq u "h" || str_eq u "hr"
    then some (some 3600)
    else if str_eq u "day"
    then some (some 86400)
    else if str_eq u "wk"
    then some (some (7 * 86400))
    else if str_eq u "mo" || str_eq u "yr"
    then some none
    else none

abbrev pub is_digit : ℕ → Bool
is_digit c = leb b'0' c && leb c b'9'

abbrev pub is_letter : ℕ → Bool
is_letter c = (leb b'A' c && leb c b'Z') || (leb b'a' c && leb c b'z')

abbrev pub all_letters : String → Bool
all_letters String.[] = true
all_letters (String.◌∷◌ c s) = is_letter (code c) && all_letters s

-- The groups of `^(\d+)([A-Za-z]+)$`, after digits that have been read to `n`.
unfoldable pub after_digits : ℕ → String → Option (ℕ × String)
after_digits n String.[] = none
after_digits n (String.◌∷◌ c s) =
    let more = after_digits (n * 10 + (code c - b'0')) s in
    if is_digit (code c)
    then more
    else if is_letter (code c) && all_letters s
    then some (n, String.◌∷◌ c s)
    else none

unfoldable pub split_interval : String → Option (ℕ × String)
unfolding after_digits
split_interval String.[] = none
split_interval (String.◌∷◌ c s) =
    let more = after_digits (code c - b'0') s in if is_digit (code c) then more else none

abbrev pub is_calendar : ℕ → Bool
is_calendar m = (m == 1) || ((m == 3) || (m == 12))

abbrev pub calendar : ℕ → Option Interval
calendar m = if is_calendar m then some (record { seconds = none; months = some m }) else none

-- `none` is a HisQueryError.
unfoldable pub interval_of : ℕ → String → Option Interval
unfolding unit_seconds
interval_of n unit = elim (unit_seconds unit) [
  | none ↦ none
  | some none ↦ calendar (n * (if str_eq unit "yr" then 12 else 1))
  | some (some secs) ↦ some (record { seconds = some (n * secs); months = none })
]

unfoldable pub parse_interval : String → Option Interval
unfolding split_interval interval_of
parse_interval text = elim (split_interval text) [
  | none ↦ none
  | some g ↦ if g.0 == 0 then none else interval_of g.0 g.1
]

-- What a rollup can be cut by: a positive number of seconds, or one, three or twelve months.
abbrev pub IsCuttable : Interval → Type 0
IsCuttable i =
    ((s : ℕ) × (i.seconds ≡ some s) × (0 < s) × (i.months ≡ none))
    ⊎ ((m : ℕ) × (i.months ≡ some m) × (is_calendar m ≡ true) × (i.seconds ≡ none))

unit_positive : (u : String) (s : ℕ) → unit_seconds u ≡ some (some s) → 0 < s
unfolding unit_seconds
unit_positive u s h = ground (arith, h)

interval_of-IsCuttable :
    (n : ℕ) (u : String) (i : Interval) → 0 < n → interval_of n u ≡ some i → IsCuttable i
unfolding interval_of
interval_of-IsCuttable n u i p h = by_unit (unit_seconds u) refl
  where
    by_unit : (o : Option (Option ℕ)) → unit_seconds u ≡ o → IsCuttable i
    by_unit none e = absurd (ground (arith, h, e))
    by_unit (some none) e =
        let m = n * (if str_eq u "yr" then 12 else 1) in
        elim (Bool-cases (is_calendar m)) [
          | inl f ↦ inr (m, ground (arith, h, e, f), f, ground (arith, h, e, f))
          | inr f ↦ absurd (ground (arith, h, e, f))
        ]
    by_unit (some (some s)) e =
        inl
          (n * s, ground (arith, h, e), grind (arith, p, unit_positive u s e), ground (arith, h, e))

-- An interval that is accepted is one that a rollup can be cut by: it has a positive number of seconds
-- and no months, or one, three or twelve months and no seconds.
pub parse_interval-IsCuttable :
    (text : String) (i : Interval) → parse_interval text ≡ some i → IsCuttable i
unfolding parse_interval
parse_interval-IsCuttable text i h = elim (Option-cases (split_interval text)) [
  | inl e ↦ absurd (ground (arith, h, e))
  | inr (g, e) ↦ elim (Bool-cases (g.0 == 0)) [
    | inl f ↦ absurd (ground (arith, h, e, f))
    | inr f ↦ interval_of-IsCuttable g.0 g.1 i (ground (arith, f)) (ground (arith, h, e, f))
  ]
]
