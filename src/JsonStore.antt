-- ===== src/JsonStore.antt =====
-- src/timberdoodle/json_store.py: the cache that rereads a JSON list when the file's mtime changes.
-- `stat` and `load` look at the file one after the other, so each call is given what either saw.
pub mod Freshness
pub mod Records
mod Examples
use timberdoodle.Base.{ℕ, Bool, true, false, Option, none, some, List, [], ◌==◌, if◌then◌else◌}

-- What `load` finds: no file, a JSON list, or a text that `json.load` refuses.
pub data File (R : Type 0) : Type 0 where
  missing malformed : File R
  holds : List R → File R

-- `none` is a JSONDecodeError.
unfoldable pub load : {R : Type 0} → File R → Option (List R)
load missing = some []
load malformed = none
load (holds records) = some records

pub record RuleCache (R : Type 0) : Type 0 where
  pub mtime : Option ℕ
  pub records : List R

abbrev pub new_cache : {R : Type 0} → RuleCache R
new_cache = record { mtime = none; records = [] }

abbrev pub same_mtime : Option ℕ → ℕ → Bool
same_mtime none m = false
same_mtime (some n) m = n == m

module _ {R : Type 0} where
  unfoldable pub refresh : RuleCache R → ℕ → Option (List R) → RuleCache R × Option (List R)
  refresh c m none = (c, none)
  refresh c m (some records) = (record { mtime = some m; records = records }, some records)

  -- The mtime that `os.stat` saw, or `none` for FileNotFoundError, and what `load` then found. The
  -- result is the list that is returned, or `none` for an exception.
  unfoldable pub get : RuleCache R → Option ℕ → File R → RuleCache R × Option (List R)
  unfolding refresh load
  get c none file = (new_cache, some [])
  get c (some m) file =
      if same_mtime c.mtime m then (c, some c.records) else refresh c m (load file)
