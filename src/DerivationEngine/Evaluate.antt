-- ===== src/DerivationEngine/Evaluate.antt =====
-- One target: its inputs, the guarded computation, and what is recorded of it. A window that starts
-- before the epoch starts at it; no row is older. The variables of a derivation are distinct names.
use timberdoodle.Base.{
  ℕ, ◌-◌, String, Bool, true, false, Option, none, some, List, [], ◌∷◌, ◌++◌, str_eq, if◌then◌else◌,
  or_else, map,
}
use timberdoodle.Base.Dict.{text_key, lookup}
use timberdoodle.Values.{Instant, Value, null}
use timberdoodle.Faults.{FaultTable, opened, list_faults}
use timberdoodle.Health.Target.{
  TargetTable, record_target_failure, record_target_success, is_target_disabled,
}
use timberdoodle.TimeSeries.{History, Series, write_point_value, read_range}
use timberdoodle.TripleStore.{Graph, add_entity, add_derived_from, brick, td}
use timberdoodle.Ingest.{link_point_to_equip}
use timberdoodle.DerivationEngine.{
  Output, Derivation, output_uri, named, Result, ok, raised, TraceEntry, failed, absent, computed,
  World, Row, leaves_of, Engine,
}

-- An open fault of the point makes its series empty.
unfoldable pub read_input_series : Option FaultTable → History → String → Instant → Instant → Series
unfolding read_range list_faults
read_input_series none h point start end = read_range h point start end
read_input_series (some t) h point start end =
    elim (list_faults t (some opened) (some point) none) [
      | [] ↦ read_range h point start end
      | _ ∷ _ ↦ []
    ]

unfoldable pub add_sources : String → List String → Graph → Graph
unfolding add_derived_from
add_sources out [] g = g
add_sources out (i ∷ is) g = add_sources out is (add_derived_from out i g)

-- An empty class counts as none.
abbrev pub class_of : Output → String
class_of o = elim o.brick_class [
  | none ↦ td "ComputedPoint"
  | some c ↦ if str_eq c "" then td "ComputedPoint" else brick c
]

unfoldable pub write_and_attach :
    World → String → String → Value → Instant → Output → List String → World
unfolding write_point_value add_entity link_point_to_equip add_sources
write_and_attach w out target value now o inputs = record w {
  history = write_point_value w.history out value now o.unit o.label;
  graph =
      add_sources out inputs (link_point_to_equip out target (add_entity out (class_of o) w.graph));
}

abbrev pub with_health : (TargetTable → TargetTable) → World → World
with_health f w = record w { health = elim w.health [ none ↦ none | some t ↦ some (f t) ] }

abbrev pub is_null : Value → Bool
is_null null = true
is_null _ = false

unfoldable pub is_skipped : String → World → String → Bool
is_skipped derivation w target = elim w.health [
  | none ↦ false
  | some t ↦ is_target_disabled t derivation target
]

module _ (derivation : String) (dry_run : Bool) where
  -- `_record_target_failure`
  unfoldable pub fail_target : World → String → String → World
  fail_target w target error =
      if dry_run
      then w
      else with_health (λ t. (record_target_failure t derivation target error).0) w

  -- The world that `_record_and_trace_success` leaves, and the entry that it returns.
  unfoldable pub succeed_target : World → Output → Instant → String → Value → List String → World
  unfolding write_and_attach
  succeed_target w o now target value inputs =
      if dry_run
      then w
      else let counted = with_health (λ t. record_target_success t derivation target) w in
        if is_null value
        then counted
        else write_and_attach counted (output_uri derivation target) target value now o inputs

  unfoldable pub success_entry : String → Value → List String → TraceEntry
  success_entry target value inputs =
      if is_null value
      then absent target
      else computed target value (output_uri derivation target) inputs

  -- After the `try`: the failure or the success is recorded and traced.
  unfoldable pub conclude_target :
      World → Output → Instant → String → List String → Result Value → World × TraceEntry
  unfolding fail_target succeed_target success_entry
  conclude_target w o now target inputs (raised e) = (fail_target w target e, failed target e)
  conclude_target w o now target inputs (ok v) =
      (succeed_target w o now target v inputs, success_entry target v inputs)

-- `str(getattr(row, name))`: `none` is an AttributeError.
unfoldable pub attribute : Row → String → Option String
attribute row name = elim (lookup name row) [
  | none ↦ none
  | some none ↦ some "None"
  | some (some s) ↦ some s
]

unfoldable pub attributes : Row → List String → Option (List (String × String))
unfolding attribute
attributes row [] = some []
attributes row (n ∷ ns) =
    let rest = attributes row ns in
    elim (attribute row n) [
      | none ↦ none
      | some s ↦ elim rest [ none ↦ none | some vs ↦ some ((n, s) ∷ vs) ]
    ]

abbrev pub uris : List (String × String) → List String
uris vs = map (λ v. v.1) vs

module _ (engine : Engine) (faults : Option FaultTable) where
  unfoldable pub read_formula_inputs :
      History → List (String × String) → List (String × ℕ) → ℕ → Instant → List (String × Series)
  unfolding read_input_series
  read_formula_inputs h [] windows window now = []
  read_formula_inputs h ((name, point) ∷ rest) windows window now =
      (name, read_input_series faults h point (now - or_else (lookup name windows) window) now)
      ∷ read_formula_inputs h rest windows window now

  -- The body of the `try` of a formula.
  unfoldable pub compute_formula :
      World → Derivation → Instant → Row → List (String × String) → Result Value
  unfolding read_formula_inputs attributes
  compute_formula w d now row inputs = elim (attributes row d.extra_vars) [
    | none ↦ raised (engine.missing_attribute d.id)
    | some extra ↦
        engine.run d.fn_source
          (named (read_formula_inputs w.history inputs d.input_windows d.window_seconds now)) extra
  ]

  -- The children of a node that have a value, as series of one sample and as their output URIs.
  unfoldable pub child_values :
      String → List String → List (String × Value) → Instant → List Series × List String
  child_values derivation [] values now = ([], [])
  child_values derivation (c ∷ cs) values now =
      let (series, sources) = child_values derivation cs values now in
      let v = or_else (lookup c values) null in
      if is_null v
      then (series, sources)
      else (((now, v) ∷ []) ∷ series, output_uri derivation c ∷ sources)

  unfoldable pub rollup_node_inputs :
      World
      → Derivation
      → String
      → List String
      → List (String × Value)
      → Instant
      → Result (List Series × List String)
  unfolding read_input_series child_values attributes
  rollup_node_inputs w d node children values now =
      elim (engine.query w.graph (leaves_of node d.leaf_point_class)) [
        | raised e ↦ raised e
        | ok rows ↦ elim (leaf_uris rows) [
          | none ↦ raised (engine.missing_attribute d.id)
          | some leaves ↦
              let (series, sources) = child_values d.id children values now in
              ok (
                map (λ p. read_input_series faults w.history p (now - d.window_seconds) now) leaves
                    ++ series,
                leaves ++ sources,
              )
        ]
      ]
    where
      leaf_uris : List Row → Option (List String)
      leaf_uris [] = some []
      leaf_uris (r ∷ rs) =
          let rest = leaf_uris rs in
          elim (attribute r "p") [
            | none ↦ none
            | some p ↦ elim rest [ none ↦ none | some ps ↦ some (p ∷ ps) ]
          ]
