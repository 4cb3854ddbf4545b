-- ===== src/DerivationEngine/Examples.antt =====
-- A formula over two zones, one of them disabled, and the theorems on it.
use timberdoodle.DerivationEngine.Ticks.{is_due, run_tick, interval, run_tick_spaces_runs}
use timberdoodle.Base.{
  ◌++◌, ◌+◌, leb, if◌then◌else◌, arith, String, true, false, Option, none, some, List, [], ◌∷◌, ◌≡◌,
  refl, str_eq,
}
use timberdoodle.Base.Int.{pos}
use timberdoodle.Base.Dict.{lookup}
use timberdoodle.Values.{null, num}
use timberdoodle.Health.{Health, is_disabled}
use timberdoodle.Health.Target.{is_target_disabled}
use timberdoodle.TimeSeries.{moment_key}
use timberdoodle.TripleStore.{literal, Triple, holds}
use timberdoodle.DerivationEngine.{Derivation, Engine, World, Row, ok}
use timberdoodle.DerivationEngine.Evaluate.{is_skipped}
use timberdoodle.DerivationEngine.Sweep.{evaluate_derivations, on_message}
use timberdoodle.DerivationEngine.Effects.{
  row_of, evaluate_derivations_dry_run, evaluate_derivations-keeps_disabled,
}
use timberdoodle.DerivationEngine.Outputs.{
  prefix-IsForeign, IsForeign, IsOutside, evaluate_derivations_outputs_only,
}

abbrev average : Derivation
average = record {
  id = "avg";
  kind = none;
  fn_source = "def run(inputs, row): return 21";
  window_seconds = 300;
  output = record { unit = some "C"; label = none; brick_class = none };
  depends_on = [];
  select = "zones";
  target_var = "zone";
  input_vars = "sensor" ∷ [];
  extra_vars = [];
  input_windows = [];
  applies_to_topic_glob = some "site/t1";
  interval_seconds = some 60;
  root_select = "";
  part_relationship = "";
  leaf_point_class = "";
}

abbrev zones : List Row
zones =
    (("zone", some "urn:z1") ∷ ("sensor", some "urn:point:site/t1") ∷ [])
    ∷ (("zone", some "urn:z2") ∷ ("sensor", some "urn:point:site/t2") ∷ [])
    ∷ []

abbrev engine : Engine
engine = record {
  query = λ g q. ok zones;
  compiles = λ source. true;
  run = λ source inputs extra. ok (num (pos 21000000));
  missing_attribute = λ id. id;
}

abbrev broken : Health
broken = record { consecutive_failures = 5; disabled = true; last_error = some "boom" }

abbrev world : World
world = record { graph = []; history = []; health = some ((("avg", "urn:z2"), broken) ∷ []) }

abbrev no_cycle : List (String × List String) → Option (List String)
no_cycle g = none

evaluate_derivations_dry_run_example :
    (evaluate_derivations engine none 1000 true no_cycle (average ∷ []) none world).0 ≡ world
evaluate_derivations_dry_run_example =
    evaluate_derivations_dry_run engine none 1000 no_cycle (average ∷ []) none world

z2_is_skipped : is_skipped "avg" world "urn:z2" ≡ true
unfolding is_skipped is_target_disabled is_disabled lookup
z2_is_skipped = refl

evaluate_derivations-keeps_disabled_example :
    (row_of "avg" "urn:z2"
        (evaluate_derivations engine none 1000 false no_cycle (average ∷ []) none world).0
      ≡ row_of "avg" "urn:z2" world)
    × (row_of "avg" "urn:z2" (on_message engine none str_eq 1000 "site/t1" (average ∷ []) world)
        ≡ row_of "avg" "urn:z2" world)
evaluate_derivations-keeps_disabled_example =
    evaluate_derivations-keeps_disabled engine none 1000 false no_cycle (average ∷ []) none str_eq
      "site/t1" world "avg" "urn:z2" z2_is_skipped

sensor-IsForeign : IsForeign "urn:point:site/t1"
sensor-IsForeign = prefix-IsForeign "urn:point:site/t1" refl

zone-IsForeign : IsForeign "urn:z1"
zone-IsForeign = prefix-IsForeign "urn:z1" refl

abbrev fact : Triple
fact = record { subject = "urn:z1"; predicate = "p"; object = literal null }

fact-IsOutside : IsOutside fact
fact-IsOutside = (zone-IsForeign, λ p e. absurd (ground (arith, e)))

abbrev known : World
known = record world { graph = fact ∷ [] }

evaluate_derivations_outputs_only_example :
    let w' = (evaluate_derivations engine none 1000 false no_cycle (average ∷ []) none known).0 in
    (lookup ("urn:point:site/t1", 7) w'.history ≡ lookup ("urn:point:site/t1", 7) known.history)
    × (holds w'.graph fact ≡ holds known.graph fact)
    × (holds w'.graph fact ≡ true)
evaluate_derivations_outputs_only_example =
    evaluate_derivations_outputs_only engine none 1000 false no_cycle (average ∷ []) none known
      "urn:point:site/t1" 7 fact fact sensor-IsForeign fact-IsOutside refl

run_tick_spaces_runs_example :
    is_due
      (run_tick engine none no_cycle 5000000 1000 ([] ++ average ∷ []) (world, [])).1
      7000
      "avg"
    ≡ (if is_due [] 1000 "avg"
        then leb (1000 + interval 5000000 average) 7000
        else is_due [] 7000 "avg")
run_tick_spaces_runs_example =
    run_tick_spaces_runs engine none no_cycle 5000000 1000 7000 [] [] average world [] refl
