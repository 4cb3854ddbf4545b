-- ===== src/Base/Members.antt =====
-- Python's `in` on lists of texts, as a Boolean test.
use Prim.Native.String.{String}
use mathlib.Core.Path.{◌≡◌, refl}
use mathlib.Core.Bool.{Bool, true, false, ◌||◌}
use mathlib.Core.List.{List, [], ◌∷◌, ◌++◌}
use native.Mathlib.Omega.{arith}
use text.Mathlib.Text.{◌==◌ as str_eq}
use text.Mathlib.TextEquality.{eq_iff}
use timberdoodle.Base.Lists.{keep, all}
use timberdoodle.Base.Tests.{if◌then◌else◌}

abbrev pub contains : List String → String → Bool
contains [] a = false
contains (x ∷ xs) a = str_eq x a || contains xs a

pub contains-append :
    (xs ys : List String) (a : String) → contains (xs ++ ys) a ≡ (contains xs a || contains ys a)
contains-append [] ys a = refl
contains-append (x ∷ xs) ys a = ground (arith, contains-append xs ys a)

-- What survives a filter passes its test.
pub contains-keep :
    (p : String → Bool) (xs : List String) (a : String)
    → contains (keep p xs) a ≡ true
    → (contains xs a ≡ true) × (p a ≡ true)
contains-keep p [] a h = cc
contains-keep p (x ∷ xs) a h = ground (arith, contains-keep p xs a, eq_iff x a)

pub keep-contains :
    (p : String → Bool) (xs : List String) (a : String)
    → contains xs a ≡ true
    → p a ≡ true
    → contains (keep p xs) a ≡ true
keep-contains p [] a h k = cc
keep-contains p (x ∷ xs) a h k = ground (arith, keep-contains p xs a, eq_iff x a)

pub all-contains :
    (p : String → Bool) (xs : List String) (a : String)
    → all p xs ≡ true
    → contains xs a ≡ true
    → p a ≡ true
all-contains p [] a h k = cc
all-contains p (x ∷ xs) a h k = ground (arith, all-contains p xs a, eq_iff x a)

-- No element occurs twice.
abbrev pub distinct : List String → Bool
distinct [] = true
distinct (x ∷ xs) = if contains xs x then false else distinct xs
