-- ===== src/Base/Dict.antt =====
-- Dictionaries and keyed tables as association lists. The keys are texts or pairs of texts, which
-- give an instance of `Key`.
use timberdoodle.Base.Tests.{if◌then◌else◌}
use Prim.Native.String.{String}
use mathlib.Core.Path.{◌≡◌, refl}
use mathlib.Core.Logic.{◌↔◌}
use mathlib.Core.Bool.{Bool, true, ◌&&◌}
use mathlib.Core.Option.{Option, none, some}
use mathlib.Core.List.{List, [], ◌∷◌}
use native.Mathlib.Omega.{arith}
use text.Mathlib.Text.{◌==◌ as str_eq}
use text.Mathlib.TextEquality.{eq_iff}

pub record Key {ℓ} (K : Type ℓ) : Type ℓ where
  pub same : K → K → Bool
  pub same_iff : (a b : K) → (same a b ≡ true) ↔ (a ≡ b)

instance abbrev pub text_key : Key String
text_key = record { same = str_eq; same_iff = eq_iff }

abbrev pub same_pair : String × String → String × String → Bool
same_pair a b = str_eq a.0 b.0 && str_eq a.1 b.1

pub same_pair_iff : (a b : String × String) → (same_pair a b ≡ true) ↔ (a ≡ b)
same_pair_iff a b = ground (arith, eq_iff a.0 b.0, eq_iff a.1 b.1)

instance abbrev pub pair_key : Key (String × String)
pair_key = record { same = same_pair; same_iff = same_pair_iff }

module _ {ℓ κ} {K : Type ℓ} {V : Type κ} ⦃k : Key K⦄ where
  unfoldable pub lookup : K → List (K × V) → Option V
  lookup a [] = none
  lookup a ((b, v) ∷ m) = if k.same b a then some v else lookup a m

  -- The first entry with the key is replaced; a new key goes to the end, as in a Python dict.
  unfoldable pub insert : K → V → List (K × V) → List (K × V)
  insert a v [] = (a, v) ∷ []
  insert a v ((b, w) ∷ m) = if k.same b a then (b, v) ∷ m else (b, w) ∷ insert a v m

  pub lookup-insert :
      (a j : K) (v : V) (m : List (K × V))
      → lookup j (insert a v m) ≡ (if k.same a j then some v else lookup j m)
  unfolding lookup insert
  lookup-insert a j v [] = refl
  lookup-insert a j v ((b, w) ∷ m) =
      ground (arith, k.same_iff a j, k.same_iff b a, k.same_iff b j, lookup-insert a j v m)

module _ {ℓ} {K : Type ℓ} ⦃k : Key K⦄ where
  pub same_refl : (a : K) → k.same a a ≡ true
  same_refl a = (k.same_iff a a).1 refl
