-- ===== src/FaultDetector.antt =====
-- src/timberdoodle/fault_detector.py: rules, their cache with the Brick rosters, and the range test.
-- A rule is a dict as it came over HTTP, so a key may be missing: `none` in a result is an exception
-- (KeyError or TypeError), which ends the call.
pub mod Cur
pub mod His
pub mod Windows
pub mod Deliver
pub mod Roster
pub mod Edges
pub mod Watch
pub mod Tracking
mod Examples
use timberdoodle.Base.{
  ℕ, String, Bool, true, false, ◌||◌, Option, none, some, List, [], ◌∷◌, ◌++◌, str_eq,
  if◌then◌else◌, contains,
}
use timberdoodle.Base.Int.{ℤ, pos, negsuc, ltb_ℤ}
use timberdoodle.Base.Dict.{text_key, lookup, insert}
use timberdoodle.Values.{Value, null, bool, num, text, tree}
use timberdoodle.JsonStore.{File, load, same_mtime}

pub record Scope : Type 0 where
  pub brick_class : Option String
  pub topic_glob : Option String

pub record Rule : Type 0 where
  pub id : String
  pub mode : Option String
  pub type : Option String
  pub applies_to : Option Scope
  pub min : Option Value
  pub max : Option Value
  -- Numbers count millionths, so these two count microseconds, as an instant does.
  pub stuck_seconds : Option ℕ
  pub max_age_seconds : Option ℕ
  pub severity : Option String

-- The value as an operand of `<`: True and False compare as 1 and 0.
unfoldable pub as_number : Value → Option ℤ
as_number (num z) = some z
as_number (bool true) = some (pos 1000000)
as_number (bool false) = some (pos 0)
as_number _ = none

abbrev pub both {ℓ} : {A B : Type ℓ} → Option A → (A → Option B) → Option B
both none f = none
both (some a) f = f a

-- `rule["min"]` and `rule["max"]` as operands.
unfoldable pub bound : Option Value → Option ℤ
unfolding as_number
bound o = both o as_number

unfoldable pub above : Rule → ℤ → Option Bool
unfolding bound
above rule v = both (bound rule.max) (λ hi. some (ltb_ℤ hi v))

unfoldable pub out_of_range : Rule → ℤ → Option Bool
unfolding above bound
out_of_range rule v =
    let rest = above rule v in both (bound rule.min) (λ lo. if ltb_ℤ v lo then some true else rest)

unfoldable pub evaluate_range_rule : Rule → Value → Option Bool
unfolding out_of_range
evaluate_range_rule rule (num v) = out_of_range rule v
evaluate_range_rule rule _ = some false

abbrev pub is_text : Option String → String → Bool
is_text none s = false
is_text (some t) s = str_eq t s

-- Which points each brick_class names; `none` where the query raises. `store=None` is no function.
abbrev pub Brick : Type 0
Brick = Option (String → Option (List String))

abbrev pub Roster : Type 0
Roster = List (String × List String)

unfoldable pub ids_at : Roster → String → List String
ids_at roster point = elim (lookup point roster) [ none ↦ [] | some ids ↦ ids ]

-- `roster.setdefault(point, set()).add(id)`
unfoldable pub add_ids : String → List String → Roster → Roster
unfolding ids_at
add_ids id [] roster = roster
add_ids id (point ∷ points) roster =
    let ids = ids_at roster point in
    add_ids id points (insert point (if contains ids id then ids else ids ++ id ∷ []) roster)

-- The Brick class of a rule that the roster is built for.
unfoldable pub cur_class : Rule → Option String
cur_class rule =
    if is_text rule.mode "cur"
    then elim rule.applies_to [ none ↦ none | some scope ↦ scope.brick_class ]
    else none

unfoldable pub build_roster : (String → Option (List String)) → List Rule → Roster → Option Roster
unfolding add_ids cur_class
build_roster query [] roster = some roster
build_roster query (rule ∷ rules) roster = elim (cur_class rule) [
  | none ↦ build_roster query rules roster
  | some brick_class ↦
      both (query brick_class) (λ points. build_roster query rules (add_ids rule.id points roster))
]

unfoldable pub build_brick_roster : Brick → List Rule → Option Roster
unfolding build_roster
build_brick_roster none rules = some []
build_brick_roster (some query) rules = build_roster query rules []

pub record RuleCache : Type 0 where
  pub mtime : Option ℕ
  pub rules : List Rule
  pub brick_roster : Roster

-- `_rules` and `_mtime` are set before the roster is built, and stay set if that raises.
unfoldable pub renew : Brick → RuleCache → ℕ → Option (List Rule) → RuleCache × Option (List Rule)
unfolding build_brick_roster
renew brick c m none = (c, none)
renew brick c m (some rules) = elim (build_brick_roster brick rules) [
  | none ↦ (record c { mtime = some m; rules = rules }, none)
  | some roster ↦ (record { mtime = some m; rules = rules; brick_roster = roster }, some rules)
]

unfoldable pub get : Brick → RuleCache → Option ℕ → File Rule → RuleCache × Option (List Rule)
unfolding renew load
get brick c none file = (record { mtime = none; rules = []; brick_roster = [] }, some [])
get brick c (some m) file =
    if same_mtime c.mtime m then (c, some c.rules) else renew brick c m (load file)

unfoldable pub rule_ids_for_point : RuleCache → String → List String
unfolding ids_at
rule_ids_for_point c point = ids_at c.brick_roster point
