-- ===== src/JsonStore/Freshness.antt =====
-- The records that the cache gives, and those of the file.
use timberdoodle.Base.{
  ℕ, ◌≡◌, refl, true, Option, none, some, List, ap, inl, inr, ==_iff, Bool-cases,
}
use mathlib.Core.Option.{some-injective}
use timberdoodle.JsonStore.{File, holds, RuleCache, same_mtime, get}

same_mtime→eq : (o : Option ℕ) (m : ℕ) → same_mtime o m ≡ true → o ≡ some m
same_mtime→eq none m h = cc
same_mtime→eq (some n) m h = ap some ((==_iff n m).0 h)

module _ {R : Type 0} where
  -- A history of the file: its records at each mtime.
  abbrev pub IsFresh : (ℕ → List R) → RuleCache R → Type 0
  IsFresh content c = (m : ℕ) → c.mtime ≡ some m → c.records ≡ content m

  -- When each mtime stands for one content and `load` sees the content that `stat` saw the mtime of,
  -- `get` returns that content and leaves a cache of which this holds again; a further call at that
  -- mtime returns the same and changes nothing, whatever `load` would find in the file; and after a
  -- call that finds no file, one at any mtime reads the file anew.
  pub get-IsFresh :
      (content : ℕ → List R) (c : RuleCache R) (m : ℕ) (other : File R) (records : List R)
      → IsFresh content c
      → let after = (get c (some m) (holds (content m))).0 in
        ((get c (some m) (holds (content m))).1 ≡ some (content m))
        × IsFresh content after
        × (get after (some m) other ≡ (after, some (content m)))
        × ((get (get c none other).0 (some m) (holds records)).1 ≡ some records)
  unfolding get
  get-IsFresh content c m other records fresh = elim (Bool-cases (same_mtime c.mtime m)) [
    | inl e ↦ rw e (
      ap some (fresh m (same_mtime→eq c.mtime m e)),
      fresh,
      rw e (ap (λ r. (c, some r)) (fresh m (same_mtime→eq c.mtime m e))),
      refl,
    )
    | inr e ↦
        rw (e, (==_iff m m).1 refl) (refl, λ m' p. ap content (some-injective m m' p), refl, refl)
  ]
