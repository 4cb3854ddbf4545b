-- ===== src/JsonStore/Examples.antt =====
-- A file that is rewritten, read by a cache that holds its first content.
use timberdoodle.Base.{ℕ, zero, suc, ◌≡◌, refl, String, none, some, List, [], ◌∷◌, arith}
use timberdoodle.JsonStore.{RuleCache, get, malformed, holds}
use timberdoodle.JsonStore.Freshness.{IsFresh, get-IsFresh}

abbrev content : ℕ → List String
content zero = "old" ∷ []
content _ = "new" ∷ []

abbrev cache : RuleCache String
cache = record { mtime = some 0; records = "old" ∷ [] }

cache-IsFresh : IsFresh content cache
cache-IsFresh zero e = refl
cache-IsFresh (suc m) e = absurd (ground arith)

get-IsFresh_example :
    let after = (get cache (some 7) (holds (content 7))).0 in
    ((get cache (some 7) (holds (content 7))).1 ≡ some (content 7))
    × IsFresh content after
    × (get after (some 7) malformed ≡ (after, some (content 7)))
    × ((get (get cache none malformed).0 (some 7) (holds ("third" ∷ []))).1 ≡ some ("third" ∷ []))
get-IsFresh_example = get-IsFresh content cache 7 malformed ("third" ∷ []) cache-IsFresh
