-- ===== src/HisQuery/Describe.antt =====
-- src/timberdoodle/hisquery.py: `describe_points`, what is said of a point beside its history. The rows
-- of its query are given; a text that is missing and one that is empty are the same to `or` and `if`.
use timberdoodle.Base.{
  ℕ, String, Bool, true, false, not, Option, none, some, List, [], ◌∷◌, ◌==◌, map, keep, str_eq,
  or_else, is_some, if◌then◌else◌,
}
use Prim.Native.Char.{Char, code}
use Prim.Native.Nat.{Ordering}
use Prim.Native.String.{compare as str_compare}
use timberdoodle.Base.Dict.{text_key, lookup, insert}
use timberdoodle.Base.Text.{after_last}
use timberdoodle.Mapping.{sorted, starts_with}
use timberdoodle.TripleStore.{brick, proj, td}
use timberdoodle.HisQuery.{bind}
use timberdoodle.HisQuery.Vocab.{local_name}
use timberdoodle.HisQuery.Compile.{checked_uri}

-- `str(value).split(" ")` without the empty parts
abbrev pub put_part : String → List String → List String
put_part w ps = if str_eq w "" then ps else w ∷ ps

abbrev pub with_char : Char → String × List String → String × List String
with_char c (w, ps) = if code c == b' ' then ("", put_part w ps) else (String.◌∷◌ c w, ps)

-- The part that the text begins with, and the parts behind it.
unfoldable pub parts : String → String × List String
parts String.[] = ("", [])
parts (String.◌∷◌ c s) = with_char c (parts s)

unfoldable pub split_concat : Option String → List String
unfolding parts
split_concat none = []
split_concat (some t) = put_part (parts t).0 (parts t).1

-- `s.removeprefix(p)`
unfoldable pub remove_prefix : String → String → String
remove_prefix String.[] s = s
remove_prefix (String.◌∷◌ d p) String.[] = String.[]
remove_prefix (String.◌∷◌ d p) (String.◌∷◌ c s) =
    if starts_with (String.◌∷◌ c s) (String.◌∷◌ d p) then remove_prefix p s else String.◌∷◌ c s

unfoldable pub point_key : String → String
unfolding remove_prefix
point_key uri = remove_prefix "urn:point:" uri

-- `s.replace(p, "", 1)`
unfoldable pub remove_first : String → String → String
unfolding remove_prefix
remove_first p String.[] = String.[]
remove_first p (String.◌∷◌ c s) =
    let later = String.◌∷◌ c (remove_first p s) in
    if starts_with (String.◌∷◌ c s) p then remove_prefix p (String.◌∷◌ c s) else later

abbrev pub text_le : String → String → Bool
text_le a b = elim (str_compare a b) [ Ordering.gt ↦ false | _ ↦ true ]

-- The key `(not Brick's, a PROJ class, the name)`, as an order.
abbrev pub rank : String → ℕ
rank t = if starts_with t (brick "") then 0 else if starts_with t (proj "") then 2 else 1

abbrev pub class_le : String → String → Bool
class_le a b = elim (Prim.Native.Nat.compare (rank a) (rank b)) [
  | Ordering.lt ↦ true
  | Ordering.eq ↦ text_le a b
  | Ordering.gt ↦ false
]

-- `sorted(..., key=...)`: an insertion keeps what is equal in its order.
unfoldable pub insert_by {ℓ} : {A : Type ℓ} → (A → A → Bool) → A → List A → List A
insert_by le x [] = x ∷ []
insert_by le x (y ∷ ys) = let rest = insert_by le x ys in if le x y then x ∷ y ∷ ys else y ∷ rest

unfoldable pub sorted_by {ℓ} : {A : Type ℓ} → (A → A → Bool) → List A → List A
unfolding insert_by
sorted_by le [] = []
sorted_by le (x ∷ xs) = insert_by le x (sorted_by le xs)

unfoldable pub classes_of : Option String → List String
unfolding sorted_by split_concat
classes_of types = sorted_by class_le (keep (λ t. not (starts_with t (td ""))) (split_concat types))

pub record PointRow : Type 0 where
  pub point : String
  pub types : Option String
  pub tags : Option String
  pub topic : Option String
  pub dis : Option String
  pub unit : Option String
  pub kind : Option String
  pub equip : Option String
  pub equip_dis : Option String

pub record Info : Type 0 where
  pub id : String
  pub point : String
  pub dis : String
  pub dis_from_tag : Bool
  pub unit : Option String
  pub kind : Option String
  pub brick_class : Option String
  pub tags : List String
  pub equip : Option String
  pub equip_dis : Option String

-- `str(x) if x else None`
abbrev pub nonempty : Option String → Option String
nonempty none = none
nonempty (some t) = if str_eq t "" then none else some t

-- `a or b`
abbrev pub or_text : Option String → Option String → Option String
or_text a b = elim (nonempty a) [ none ↦ b | some t ↦ some t ]

abbrev pub last_level : Option String → String → String
unfolding local_name
last_level topic uri = elim (nonempty topic) [
  | none ↦ local_name uri
  | some t ↦ after_last (λ c. code c == b'/') t
]

abbrev pub head? : List String → Option String
head? [] = none
head? (x ∷ xs) = some x

abbrev pub short_equip : Option String → Option String
unfolding remove_first
short_equip none = none
short_equip (some e) = some (remove_first "urn:equip:" e)

unfoldable pub describe_row : PointRow → Info
unfolding local_name last_level classes_of sorted split_concat point_key short_equip
describe_row r = record {
  id = r.point;
  point = point_key r.point;
  dis = or_else (or_text r.dis none) (last_level r.topic r.point);
  dis_from_tag = is_some r.dis;
  unit = nonempty r.unit;
  kind = nonempty r.kind;
  brick_class = head? (map local_name (classes_of r.types));
  tags = sorted (split_concat r.tags);
  equip = nonempty r.equip;
  equip_dis = nonempty (or_text r.equip_dis (short_equip (nonempty r.equip)));
}

-- A point of which the query says nothing.
unfoldable pub undescribed : String → Info
unfolding local_name point_key
undescribed uri = record {
  id = uri;
  point = point_key uri;
  dis = local_name uri;
  dis_from_tag = false;
  unit = none;
  kind = none;
  brick_class = none;
  tags = [];
  equip = none;
  equip_dis = none;
}

abbrev pub Infos : Type 0
Infos = List (String × Info)

unfoldable pub describe_rows : List PointRow → Infos → Infos
unfolding describe_row insert
describe_rows [] m = m
describe_rows (r ∷ rs) m = describe_rows rs (insert r.point (describe_row r) m)

abbrev pub set_default : String → Option Info → Infos → Infos
unfolding insert undescribed
set_default uri none m = insert uri (undescribed uri) m
set_default uri (some i) m = m

unfoldable pub add_defaults : List String → Infos → Infos
unfolding set_default lookup
add_defaults [] m = m
add_defaults (u ∷ us) m = add_defaults us (set_default u (lookup u m) m)

-- `_uri` of each
unfoldable pub checked_uris : List String → Option (List String)
unfolding checked_uri
checked_uris [] = some []
checked_uris (u ∷ us) = bind (checked_uri u) (λ a. bind (checked_uris us) (λ b. some (a ∷ b)))

-- The rows are those that the query for the points returns.
unfoldable pub describe_points : (List String → List PointRow) → List String → Option Infos
unfolding checked_uris describe_rows add_defaults
describe_points rows_of [] = some []
describe_points rows_of (u ∷ us) =
    bind (checked_uris (u ∷ us))
      (λ cs. some (add_defaults (u ∷ us) (describe_rows (rows_of cs) [])))
