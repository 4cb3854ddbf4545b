-- ===== src/FaultDetector/Windows.antt =====
-- When the his-mode tests call a point stuck or stale.
use timberdoodle.Base.{
  ℕ, ◌+◌, ◌≡◌, ◌↔◌, refl, String, Bool, true, ◌&&◌, Option, none, some, List, [], ◌∷◌, length, ◌==◌,
  leb, str_eq, eq_iff, if◌then◌else◌, contains, all, any, is_some, all-contains, ◌<◌, map, arith,
}
use timberdoodle.Values.{Instant}
use timberdoodle.FaultDetector.His.{
  Reading, dedupe, texts, window, evaluate_stuck, max_ts, evaluate_stale,
}

contains-dedupe : (xs : List String) (a : String) → contains (dedupe xs) a ≡ contains xs a
unfolding dedupe
contains-dedupe [] a = refl
contains-dedupe (x ∷ xs) a = ground (arith, contains-dedupe xs a, contains-dedupe xs x, eq_iff x a)

-- Every text of the list is `a`, and there is one.
abbrev pub OnlyText : List String → String → Type 0
OnlyText xs a = (contains xs a ≡ true) × (all (λ x. str_eq x a) xs ≡ true)

dedupe_nil : (xs : List String) → dedupe xs ≡ [] → xs ≡ []
unfolding dedupe
dedupe_nil [] h = refl
dedupe_nil (x ∷ xs) h = ground (arith, dedupe_nil xs)

dedupe_one : (xs : List String) (a : String) → dedupe xs ≡ a ∷ [] → OnlyText xs a
unfolding dedupe
dedupe_one [] a h = cc
dedupe_one (x ∷ xs) a h = ground (
  arith,
  dedupe_one xs a,
  contains-dedupe xs x,
  eq_iff x a,
  dedupe_nil xs,
  all-contains (λ y. str_eq y a) xs x,
)

one_dedupe : (xs : List String) (a : String) → OnlyText xs a → dedupe xs ≡ a ∷ []
unfolding dedupe
one_dedupe [] a h = cc
one_dedupe (x ∷ []) a h = ground (arith, eq_iff x a)
one_dedupe (x ∷ y ∷ xs) a h = ground (arith, one_dedupe (y ∷ xs) a, eq_iff x a, eq_iff y a)

length_one : (xs : List String) → (length xs == 1) ≡ true → (a : String) × (xs ≡ a ∷ [])
length_one [] h = cc
length_one (x ∷ []) h = (x, refl)
length_one (x ∷ y ∷ xs) h = absurd (ground arith)

-- A point is stuck exactly when it has a row in the window, and the rows of the window that have a
-- value all show the same text, one of them at least.
pub evaluate_stuck_iff :
    (rows : List Reading) (point : String) (seconds : ℕ) (now : Instant)
    → let seen = window rows point seconds now in
      (evaluate_stuck rows point seconds now ≡ true)
      ↔ ((0 < length seen) × ((a : String) × OnlyText (texts (map (λ r. r.shown) seen)) a))
unfolding evaluate_stuck
evaluate_stuck_iff rows point seconds now =
    let shown = texts (map (λ r. r.shown) (window rows point seconds now)) in
    (
      (λ h.
          let (a, one) = length_one (dedupe shown) (ground arith) in
          (ground arith, (a, dedupe_one shown a one))),
      λ (some_row, (a, only)). ground (arith, some_row, one_dedupe shown a only),
    )

abbrev pub of_point : String → Reading → Bool
of_point p r = str_eq r.point_uri p

abbrev old : ℕ → Instant → Option Instant → Bool
old age now none = true
old age now (some t) = leb (t + age) now

max_ts-is_some :
    (p : String) (rows : List Reading) → is_some (max_ts p rows) ≡ any (of_point p) rows
unfolding max_ts
max_ts-is_some p [] = refl
max_ts-is_some p (r ∷ rs) = ground (arith, max_ts-is_some p rs)

abbrev pub old_of_point : String → ℕ → Instant → Reading → Bool
old_of_point p age now r = if of_point p r then leb (r.ts + age) now else true

max_ts-old :
    (p : String) (age : ℕ) (now : Instant) (rows : List Reading)
    → old age now (max_ts p rows) ≡ all (old_of_point p age now) rows
unfolding max_ts
max_ts-old p age now [] = refl
max_ts-old p age now (r ∷ rs) = ground (arith, max_ts-old p age now rs)

-- A point is stale exactly when it has a row, and each of its rows is at least `age` old.
pub evaluate_stale_iff :
    (rows : List Reading) (point : String) (age : ℕ) (now : Instant)
    → evaluate_stale rows point age now
      ≡ (any (of_point point) rows && all (old_of_point point age now) rows)
unfolding evaluate_stale
evaluate_stale_iff rows point age now =
    ground (arith, max_ts-is_some point rows, max_ts-old point age now rows)
