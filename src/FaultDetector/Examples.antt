-- ===== src/FaultDetector/Examples.antt =====
-- A range rule for zone temperatures, a webhook, and the theorems on them.
use timberdoodle.Base.{
  String, Bool, false, ◌≡◌, refl, Option, none, some, List, [], ◌∷◌, contains, any, str_eq, All,
  ◌&&◌, if◌then◌else◌,
}
use timberdoodle.Base.Int.{pos}
use timberdoodle.Base.Dict.{lookup}
use timberdoodle.Values.{Value, num}
use timberdoodle.Faults.{find_open, open_fault, close_fault}
use timberdoodle.Faults.Runs.{empty_table}
use timberdoodle.JsonStore.{holds, load}
use timberdoodle.FaultDetector.{
  Rule, Scope, RuleCache, as_number, bound, above, out_of_range, evaluate_range_rule, build_roster,
  add_ids, ids_at, cur_class, renew, build_brick_roster, get, rule_ids_for_point,
}
use timberdoodle.FaultDetector.Deliver.{Webhook, fire_webhooks}
use timberdoodle.FaultDetector.Cur.{
  Detector, Message, object, handle_rules, handle_rule, act, detail_of, raise_fault, clear_fault,
  announce, fire, applies, in_scope,
}
use timberdoodle.FaultDetector.Edges.{IsBalanced}
use timberdoodle.FaultDetector.Watch.{Turn, message, sweep, take_turns, take_turns-IsBalanced}
use timberdoodle.FaultDetector.Tracking.{turns_track, IsTracked}
use timberdoodle.FaultDetector.Roster.{covers, get_builds_roster, get_keeps_stale_roster}

abbrev rule_for : String → Scope → Rule
rule_for id scope = record {
  id = id;
  mode = some "cur";
  type = some "range";
  applies_to = some scope;
  min = some (num (pos 10000000));
  max = some (num (pos 30000000));
  stuck_seconds = none;
  max_age_seconds = none;
  severity = none;
}

abbrev by_topic : Rule
by_topic = rule_for "zone" record { brick_class = none; topic_glob = some "site/zone" }

abbrev by_class : Rule
by_class = rule_for "brick" record { brick_class = some "Zone_Sensor"; topic_glob = none }

-- No pattern of these rules has a wildcard.
abbrev exact : String → String → Bool
exact topic glob = str_eq topic glob

abbrev stuck_rule : Rule
stuck_rule = record by_topic { mode = some "his"; type = some "stuck"; stuck_seconds = some 100 }

abbrev hook : Webhook
hook = record { id = "w"; url = "http://hooks.example.com/"; secret = ""; filter = none }

abbrev cache : RuleCache
cache = record { mtime = none; rules = []; brick_roster = [] }

abbrev idle : Detector
idle = record { faults = empty_table; fired = [] }

abbrev too_hot : Message
too_hot = object (some (num (pos 31000000)))

abbrev fine : Message
fine = object (some (num (pos 21000000)))

abbrev day : List Turn
day =
    message (some 1) (holds (by_topic ∷ [])) 10 "site/zone" too_hot
    ∷ message (some 1) (holds (by_topic ∷ [])) 20 "site/zone" too_hot
    ∷ sweep (some 2) (holds (stuck_rule ∷ [])) 30 []
    ∷ message (some 3) (holds (by_topic ∷ [])) 40 "site/zone" fine
    ∷ message (some 3) (holds (by_topic ∷ [])) 50 "site/zone" too_hot
    ∷ []

take_turns-IsBalanced_example :
    IsBalanced
      (hook ∷ [])
      "zone"
      "urn:point:site/zone"
      (take_turns exact none (hook ∷ []) day (cache, idle)).1
unfolding find_open
take_turns-IsBalanced_example =
    take_turns-IsBalanced exact none (hook ∷ []) day (cache, idle) "zone" "urn:point:site/zone" refl

abbrev hot : Value
hot = num (pos 31000000)

abbrev after_hot : Detector
after_hot =
    (handle_rules exact cache (some []) 10 "site/zone" hot (by_topic ∷ by_class ∷ []) idle).0

hot_is_no_error :
    (handle_rules exact cache (some []) 10 "site/zone" hot (by_topic ∷ by_class ∷ []) idle).1
    ≡ false
unfolding handle_rules handle_rule act detail_of raise_fault clear_fault announce fire applies
    in_scope rule_ids_for_point ids_at evaluate_range_rule out_of_range above bound as_number
    open_fault find_open close_fault fire_webhooks lookup
hot_is_no_error = refl

turns_track_example :
    All (IsTracked exact cache (some []) 10 "site/zone" hot after_hot) (by_topic ∷ by_class ∷ [])
turns_track_example =
    turns_track exact cache (some []) 10 "site/zone" hot (by_topic ∷ by_class ∷ []) idle refl
      hot_is_no_error

abbrev brick : String → Option (List String)
brick c = if str_eq c "Zone_Sensor" then some ("p1" ∷ "p2" ∷ []) else none

abbrev rules : List Rule
rules = by_topic ∷ by_class ∷ []

rules_read : (get (some brick) cache (some 7) (holds rules)).1 ≡ some rules
unfolding get renew build_brick_roster build_roster add_ids ids_at cur_class load
rules_read = refl

get_builds_roster_example :
    contains (rule_ids_for_point (get (some brick) cache (some 7) (holds rules)).0 "p2") "brick"
    ≡ any (λ r. str_eq r.id "brick" && covers brick "p2" r) rules
get_builds_roster_example =
    get_builds_roster brick cache 7 (holds rules) rules "p2" "brick" refl rules_read

abbrev unknown_class : Rule
unknown_class = rule_for "other" record { brick_class = some "Unheard_Of"; topic_glob = none }

query_fails : build_roster brick (unknown_class ∷ []) [] ≡ none
unfolding build_roster cur_class
query_fails = refl

get_keeps_stale_roster_example :
    let c = (get (some brick) cache (some 7) (holds (unknown_class ∷ []))).0 in
    ((get (some brick) cache (some 7) (holds (unknown_class ∷ []))).1 ≡ none)
    × ((get (some brick) c (some 7) (holds [])).1 ≡ some (unknown_class ∷ []))
    × (rule_ids_for_point (get (some brick) c (some 7) (holds [])).0 "p1"
        ≡ rule_ids_for_point cache "p1")
get_keeps_stale_roster_example =
    get_keeps_stale_roster brick cache 7 (unknown_class ∷ []) (holds []) "p1" refl query_fails
