-- ===== src/DerivationEngine/Sweep.antt =====
-- The loops over rows, nodes, roots and derivations, and the handler of a message.
use timberdoodle.Base.{
  ℕ, String, Bool, true, false, not, ◌&&◌, Option, none, some, List, [], ◌∷◌, ◌++◌, length, ltb,
  contains, keep, str_eq, if◌then◌else◌, or_else, str_append, map,
}
use timberdoodle.Base.Dict.{text_key, lookup, insert}
use timberdoodle.Values.{Instant, Value, null}
use timberdoodle.Faults.{FaultTable}
use timberdoodle.DerivationEngine.{
  Derivation, listed, Result, ok, raised, TraceEntry, failed, World, Row, written, edges_under,
  Engine,
}
use timberdoodle.DerivationEngine.Evaluate.{
  is_skipped, conclude_target, attribute, attributes, uris, compute_formula, rollup_node_inputs,
}
use timberdoodle.DerivationEngine.Order.{topological_order}

-- The world that was reached, and the trace; `none` is an exception.
abbrev pub Pass : Type 0
Pass = World × Option (List TraceEntry)

abbrev pub and_then : Pass → (World → Pass) → Pass
and_then (w, none) next = (w, none)
and_then (w, some es) next =
    let (w', rest) = next w in (w', elim rest [ none ↦ none | some fs ↦ some (es ++ fs) ])

-- A query that raises, and an attribute that is missing.
abbrev pub with_rows : World → Result (List Row) → (List Row → Pass) → Pass
with_rows w (raised e) next = (w, none)
with_rows w (ok rows) next = next rows

abbrev pub with_some : {A : Type 0} → World → Option A → (A → Pass) → Pass
with_some w none next = (w, none)
with_some w (some a) next = next a

module _ (engine : Engine) (faults : Option FaultTable) (now : Instant) (dry_run : Bool) where
  unfoldable pub run_target : Derivation → Row → String → List (String × String) → World → Pass
  unfolding compute_formula is_skipped conclude_target
  run_target d row target inputs w =
      if is_skipped d.id w target
      then (w, some [])
      else let (w', entry) =
          conclude_target d.id dry_run w d.output now target (uris inputs)
            (compute_formula engine faults w d now row inputs) in
        (w', some (entry ∷ []))

  abbrev pub triggers : Option String → List (String × String) → Bool
  triggers none inputs = true
  triggers (some point) inputs = contains (uris inputs) point

  unfoldable pub evaluate_row : Derivation → Option String → Row → World → Pass
  unfolding run_target attribute attributes
  evaluate_row d trigger row w = with_some w (attribute row d.target_var) (λ target.
      with_some w (attributes row d.input_vars) (λ inputs.
        if triggers trigger inputs then run_target d row target inputs w else (w, some [])))

  unfoldable pub evaluate_rows : Derivation → Option String → List Row → World → Pass
  unfolding evaluate_row
  evaluate_rows d trigger [] w = (w, some [])
  evaluate_rows d trigger (row ∷ rows) w =
      and_then (evaluate_row d trigger row w) (evaluate_rows d trigger rows)

  unfoldable pub evaluate_formula : Derivation → Option String → World → Pass
  unfolding evaluate_rows
  evaluate_formula d trigger w =
      if engine.compiles d.fn_source
      then with_rows w (engine.query w.graph (written d.select))
          (λ rows. evaluate_rows d trigger rows w)
      else (w, none)

  -- `edges`: the root, and then each parent and child in the order of the rows.
  unfoldable pub add_edge :
      String → String → List (String × List String) → List (String × List String)
  add_edge parent child edges =
      let longer = insert parent (or_else (lookup parent edges) [] ++ child ∷ []) edges in
      elim (lookup child longer) [ none ↦ insert child [] longer | some _ ↦ longer ]

  unfoldable pub read_edges :
      List Row → List (String × List String) → Option (List (String × List String))
  unfolding attribute add_edge
  read_edges [] edges = some edges
  read_edges (row ∷ rows) edges = elim (attribute row "parent") [
    | none ↦ none
    | some parent ↦ elim (attribute row "child") [
      | none ↦ none
      | some child ↦ read_edges rows (add_edge parent child edges)
    ]
  ]

  abbrev pub node_cap : ℕ
  node_cap = 10000

  abbrev pub value_of : Result Value → Value
  value_of (ok v) = v
  value_of (raised e) = null

  -- The result of the `try` of a node, with the points that it was computed from.
  unfoldable pub compute_node :
      Derivation → World → String → List String → List (String × Value) → Result Value × List String
  unfolding rollup_node_inputs
  compute_node d w node children values =
      elim (rollup_node_inputs engine faults w d node children values now) [
        | raised e ↦ (raised e, [])
        | ok inputs ↦ (engine.run d.fn_source (listed inputs.0) (("node", node) ∷ []), inputs.1)
      ]

  unfoldable pub walk_nodes :
      Derivation → List (String × List String) → List String → List (String × Value) → World → Pass
  unfolding compute_node is_skipped conclude_target
  walk_nodes d edges [] values w = (w, some [])
  walk_nodes d edges (node ∷ order) values w =
      let (result, sources) = compute_node d w node (or_else (lookup node edges) []) values in
      let (w', entry) = conclude_target d.id dry_run w d.output now node sources result in
      let skipped = walk_nodes d edges order values w in
      let (w'', rest) = walk_nodes d edges order (insert node (value_of result) values) w' in
      if is_skipped d.id w node
      then skipped
      else (w'', elim rest [ none ↦ none | some es ↦ some (entry ∷ es) ])

  -- What graphlib finds is an argument, as in `topological_order`.
  module _ (find_cycle : List (String × List String) → Option (List String)) where
    unfoldable pub walk_rollup_tree : Derivation → String → World → Pass
    unfolding walk_nodes read_edges
    walk_rollup_tree d root w =
        if engine.compiles d.fn_source
        then with_rows w (engine.query w.graph (edges_under root d.part_relationship)) (λ rows.
          with_some w (read_edges rows ((root, []) ∷ [])) (λ edges.
            if ltb node_cap (length edges)
            then (w, some (failed root "rollup tree exceeds 10000-node cap, aborted" ∷ []))
            else walk_nodes d edges (topological_order find_cycle edges) [] w))
        else (w, none)

    unfoldable pub evaluate_roots : Derivation → List String → World → Pass
    unfolding walk_rollup_tree
    evaluate_roots d [] w = (w, some [])
    evaluate_roots d (root ∷ roots) w =
        and_then (walk_rollup_tree d root w) (evaluate_roots d roots)

    unfoldable pub root_names : List Row → Option (List String)
    unfolding attribute
    root_names [] = some []
    root_names (row ∷ rows) =
        let rest = root_names rows in
        elim (attribute row "root") [
          | none ↦ none
          | some r ↦ elim rest [ none ↦ none | some rs ↦ some (r ∷ rs) ]
        ]

    unfoldable pub evaluate_rollup : Derivation → World → Pass
    unfolding evaluate_roots root_names
    evaluate_rollup d w =
        with_rows w (engine.query w.graph (written d.root_select))
          (λ rows. with_some w (root_names rows) (λ roots. evaluate_roots d roots w))

    abbrev pub is_rollup : Derivation → Bool
    is_rollup d = str_eq (or_else d.kind "formula") "rollup"

    unfoldable pub evaluate : Derivation → World → Pass
    unfolding evaluate_rollup evaluate_formula
    evaluate d w = if is_rollup d then evaluate_rollup d w else evaluate_formula d none w

    abbrev pub labelled : String → List TraceEntry → List (String × TraceEntry)
    labelled id es = map (λ e. (id, e)) es

    -- A derivation that raises is passed over, with what it wrote. The order has no other ids than those
    -- of the index, so its lookup does not fail.
    unfoldable pub evaluate_order :
        List (String × Derivation) → List String → World → World × List (String × TraceEntry)
    unfolding evaluate
    evaluate_order by_id [] w = (w, [])
    evaluate_order by_id (id ∷ order) w = elim (lookup id by_id) [
      | none ↦ (w, [])
      | some d ↦
          let (w', entries) = evaluate d w in
          let (w'', rest) = evaluate_order by_id order w' in
          (w'', labelled id (or_else entries []) ++ rest)
    ]

    abbrev pub index : List Derivation → List (String × Derivation) → List (String × Derivation)
    index [] by_id = by_id
    index (d ∷ ds) by_id = index ds (insert d.id d by_id)

    abbrev pub graph_of :
        List Derivation → List (String × List String) → List (String × List String)
    graph_of [] edges = edges
    graph_of (d ∷ ds) edges = graph_of ds (insert d.id d.depends_on edges)

    abbrev pub due : Option (List String) → List String → List String
    due none order = order
    due (some ids) order = keep (contains ids) order

    unfoldable pub evaluate_derivations :
        List Derivation → Option (List String) → World → World × List (String × TraceEntry)
    unfolding evaluate_order topological_order
    evaluate_derivations ds only_ids w =
        evaluate_order (index ds []) (due only_ids (topological_order find_cycle (graph_of ds [])))
          w

-- An MQTT message re-evaluates the formulas whose glob has its topic, in the rows that its point
-- feeds; an exception is swallowed.
module _ (engine : Engine) (faults : Option FaultTable) (fnmatch : String → String → Bool) where
  abbrev pub wants : Derivation → String → Bool
  wants d topic = elim d.applies_to_topic_glob [
    | none ↦ false
    | some glob ↦
        not (str_eq glob "")
        && (not (elim d.kind [ none ↦ false | some k ↦ str_eq k "rollup" ]) && fnmatch topic glob)
  ]

  unfoldable pub on_message : Instant → String → List Derivation → World → World
  unfolding evaluate_formula
  on_message now topic [] w = w
  on_message now topic (d ∷ ds) w =
      let next =
        if wants d topic
        then (evaluate_formula engine faults now false d (some (str_append "urn:point:" topic)) w).0
        else w in
      on_message now topic ds next
