-- ===== src/TimeSeries/Writes.antt =====
-- What a write changes, and what a read of it gives back.
use timberdoodle.Base.{◌≤◌, String, true, Option, List, [], ◌∷◌, ◌≡◌, refl, arith, str_eq}
use timberdoodle.Base.Dict.{Key, insert}
use timberdoodle.Values.{Instant, Value, null, bool, num, text, tree}
use timberdoodle.TimeSeries.{moment_key, History, columns_of, row_to_value, to_float}

-- A list or a dict comes back as its `str`, a number as its double, all else as it was.
abbrev pub stored : Value → Value
stored (tree json shown) = text shown
stored (num z) = num (to_float z)
stored v = v

pub row_to_value-columns_of :
    (v : Value) (unit label : Option String) → row_to_value (columns_of v unit label) ≡ stored v
unfolding row_to_value columns_of
row_to_value-columns_of null unit label = refl
row_to_value-columns_of (bool b) unit label = refl
row_to_value-columns_of (num z) unit label = refl
row_to_value-columns_of (text s) unit label = refl
row_to_value-columns_of (tree json shown) unit label = refl

module _ {ℓ κ} {K : Type ℓ} {V : Type κ} ⦃k : Key K⦄ where
  pub insert-insert :
      (a : K) (v w : V) (m : List (K × V)) → insert a v (insert a w m) ≡ insert a v m
  unfolding insert
  insert-insert a v w [] = ground (arith, k.same_iff a a)
  insert-insert a v w ((b, u) ∷ m) = ground (arith, k.same_iff b a, insert-insert a v w m)

-- No row of the point is newer.
abbrev pub IsLatest : History → String → Instant → Type 0
IsLatest [] point ts = Unit
IsLatest (((p, t), c) ∷ h) point ts = (str_eq p point ≡ true → t ≤ ts) × IsLatest h point ts
