-- ===== src/JsonStore/Records.antt =====
-- src/timberdoodle/json_store.py: `save`, and the reads and writes of a list of JSON objects that
-- fault_api.py and derivation_api.py make under their lock.
use timberdoodle.Base.{
  ℕ, String, Bool, true, false, not, Option, none, some, List, [], ◌∷◌, ◌++◌, ◌==◌, length, str_eq,
  contains, if◌then◌else◌,
}
use timberdoodle.Base.Dict.{text_key, lookup, insert}
use timberdoodle.Values.{Value, text}
use timberdoodle.JsonStore.{File, holds, load}
pub mod Laws

-- A dict with texts as keys, in its order.
abbrev pub Object : Type 0
Object = List (String × Value)

-- The file is replaced as a whole, so a crash leaves the old list or the new one.
unfoldable pub save : List Object → File Object
save records = holds records

-- `{**a, **b}`
unfoldable pub merge : Object → Object → Object
unfolding insert
merge a [] = a
merge a ((k, v) ∷ b) = merge (insert k v a) b

-- `{k: v for k, v in body.items() if k not in names}`
unfoldable pub without : List String → Object → Object
without names [] = []
without names ((k, v) ∷ o) =
    let rest = without names o in if contains names k then rest else (k, v) ∷ rest

-- `value == record_id`, for an id from the path
abbrev pub is_text : Value → String → Bool
is_text (text s) i = str_eq s i
is_text _ i = false

unfoldable pub id_is : String → Object → Option Bool
unfolding lookup
id_is i r = elim (lookup "id" r) [ none ↦ none | some v ↦ some (is_text v i) ]

abbrev pub keep_unless : Option Bool → Object → Option (List Object) → Option (List Object)
keep_unless none r rest = none
keep_unless (some true) r rest = rest
keep_unless (some false) r none = none
keep_unless (some false) r (some rs) = some (r ∷ rs)

-- `[r for r in records if r["id"] != record_id]`; `none` is a KeyError.
unfoldable pub others : String → List Object → Option (List Object)
unfolding lookup id_is
others i [] = some []
others i (r ∷ rs) = keep_unless (id_is i r) r (others i rs)

abbrev pub or_later : Option Bool → Option Bool → Option Bool
or_later none later = none
or_later (some true) later = some true
or_later (some false) later = later

-- `any(w["id"] == webhook_id for w in webhooks)`, which stops at the first
unfoldable pub has_record : String → List Object → Option Bool
unfolding lookup id_is
has_record i [] = some false
has_record i (r ∷ rs) = or_later (id_is i r) (has_record i rs)

-- How the request ends: an answer, or an exception that `handle_traced` does not know.
pub data Response : Type 0 where
  status : ℕ → Response
  object : ℕ → Object → Response
  objects : List Object → Response
  served : Response
  server_error : Response

abbrev pub FileStep : Type 0
FileStep = File Object × Response

-- Reads the file, and answers a JSONDecodeError with 400.
abbrev pub loaded : File Object → (List Object → FileStep) → FileStep
unfolding load
loaded f next = elim (load f) [ none ↦ (f, status 400) | some records ↦ next records ]

unfoldable pub removed : File Object → List Object → Option (List Object) → FileStep
unfolding save
removed f records none = (f, status 400)
removed f records (some rest) =
    if length rest == length records then (f, status 404) else (save rest, status 204)

-- `_delete`, the same in both services
unfoldable pub delete_record : String → File Object → FileStep
unfolding load others removed save
delete_record i f = loaded f (λ records. removed f records (others i records))

-- `records.append(record)` between a load and a save, and the answer
unfoldable pub append_record : Object → File Object → FileStep
unfolding load save
append_record r f = loaded f (λ records. (save (records ++ r ∷ []), object 201 r))
