-- ===== src/DerivationEngine/Steps.antt =====
-- From each recorded target to a whole pass.
use timberdoodle.Base.{
  String, Bool, true, false, Option, none, some, List, [], ◌∷◌, ◌≡◌, inl, inr, Bool-cases,
  Option-cases, or_else, if◌then◌else◌,
}
use timberdoodle.Base.Dict.{text_key, lookup, insert}
use timberdoodle.Values.{Instant, Value}
use timberdoodle.Faults.{FaultTable}
use timberdoodle.DerivationEngine.{
  Derivation, Output, Result, ok, raised, World, Row, written, edges_under, Engine,
}
use timberdoodle.DerivationEngine.Evaluate.{
  fail_target, succeed_target, is_skipped, conclude_target, uris, attribute, attributes,
}
use timberdoodle.DerivationEngine.Sweep.{
  Pass, and_then, with_rows, with_some, run_target, evaluate_row, evaluate_rows, evaluate_formula,
  compute_node, walk_nodes, value_of, read_edges, walk_rollup_tree, evaluate_roots, root_names,
  evaluate_rollup, evaluate, evaluate_order, evaluate_derivations,
}
use timberdoodle.DerivationEngine.Order.{topological_order}

-- A relation between the worlds before and after that no recorded target breaks.
pub record IsKept (dry_run : Bool) (R : World → World → Type 0) : Type 0 where
  pub same : (w : World) → R w w
  pub chain : (u v w : World) → R u v → R v w → R u w
  pub fails :
      (derivation : String) (w : World) (target error : String)
      → is_skipped derivation w target ≡ false
      → R w (fail_target derivation dry_run w target error)
  pub succeeds :
      (derivation : String) (w : World) (o : Output) (now : Instant) (target : String) (v : Value)
      (inputs : List String)
      → is_skipped derivation w target ≡ false
      → R w (succeed_target derivation dry_run w o now target v inputs)

module _ (dry_run : Bool) (R : World → World → Type 0) (kept : IsKept dry_run R) (engine : Engine)
    (faults : Option FaultTable) (now : Instant) where
  conclude-Keeps :
      (derivation : String) (w : World) (o : Output) (target : String) (inputs : List String)
      (r : Result Value)
      → is_skipped derivation w target ≡ false
      → R w (conclude_target derivation dry_run w o now target inputs r).0
  unfolding conclude_target
  conclude-Keeps derivation w o target inputs (raised e) h = kept.fails derivation w target e h
  conclude-Keeps derivation w o target inputs (ok v) h =
      kept.succeeds derivation w o now target v inputs h

  and_then-Keeps :
      (w : World) (p : Pass) (next : World → Pass)
      → R w p.0
      → ((v : World) → R v (next v).0)
      → R w (and_then p next).0
  and_then-Keeps w (v, none) next h k = h
  and_then-Keeps w (v, some es) next h k = kept.chain w v (next v).0 h (k v)

  with_rows-Keeps :
      (w : World) (a : Result (List Row)) (next : List Row → Pass)
      → ((rows : List Row) → R w (next rows).0)
      → R w (with_rows w a next).0
  with_rows-Keeps w (raised e) next h = kept.same w
  with_rows-Keeps w (ok rows) next h = h rows

  with_some-Keeps :
      {A : Type 0} (w : World) (o : Option A) (next : A → Pass)
      → ((a : A) → R w (next a).0)
      → R w (with_some w o next).0
  with_some-Keeps w none next h = kept.same w
  with_some-Keeps w (some a) next h = h a

  if-Keeps : (w : World) (b : Bool) (p q : Pass) → R w p.0 → R w q.0 → R w (if b then p else q).0
  if-Keeps w true p q h k = h
  if-Keeps w false p q h k = k

  target-Keeps :
      (d : Derivation) (row : Row) (target : String) (inputs : List (String × String)) (w : World)
      → R w (run_target engine faults now dry_run d row target inputs w).0
  unfolding run_target
  target-Keeps d row target inputs w = elim (Bool-cases (is_skipped d.id w target)) [
    | inl e ↦ rw (e, run_target) (kept.same w)
    | inr e ↦ rw (e, run_target) (conclude-Keeps d.id w d.output target (uris inputs) _ e)
  ]

  rows-Keeps :
      (d : Derivation) (trigger : Option String) (rows : List Row) (w : World)
      → R w (evaluate_rows engine faults now dry_run d trigger rows w).0
  unfolding evaluate_rows evaluate_row
  rows-Keeps d trigger [] w = kept.same w
  rows-Keeps d trigger (row ∷ rows) w =
      and_then-Keeps w (evaluate_row engine faults now dry_run d trigger row w) _
        (with_some-Keeps w (attribute row d.target_var) _ λ target.
          with_some-Keeps w (attributes row d.input_vars) _
            λ inputs. if-Keeps w _ _ _ (target-Keeps d row target inputs w) (kept.same w))
        (rows-Keeps d trigger rows)

  pub evaluate_formula-Keeps :
      (d : Derivation) (trigger : Option String) (w : World)
      → R w (evaluate_formula engine faults now dry_run d trigger w).0
  unfolding evaluate_formula
  evaluate_formula-Keeps d trigger w =
      if-Keeps w (engine.compiles d.fn_source) _ _
        (with_rows-Keeps w (engine.query w.graph (written d.select)) _
          λ rows. rows-Keeps d trigger rows w)
        (kept.same w)

  nodes-Keeps :
      (d : Derivation) (edges : List (String × List String)) (order : List String)
      (values : List (String × Value)) (w : World)
      → R w (walk_nodes engine faults now dry_run d edges order values w).0
  unfolding walk_nodes
  nodes-Keeps d edges [] values w = kept.same w
  nodes-Keeps d edges (node ∷ order) values w =
      let found =
        compute_node engine faults now dry_run d w node (or_else (lookup node edges) []) values in
      let w' = (conclude_target d.id dry_run w d.output now node found.1 found.0).0 in
      elim (Bool-cases (is_skipped d.id w node)) [
        | inl e ↦ rw (e, walk_nodes) (nodes-Keeps d edges order values w)
        | inr e ↦
            rw (e, walk_nodes)
              (kept.chain w w' _ (conclude-Keeps d.id w d.output node found.1 found.0 e) (
                nodes-Keeps d edges order
                  (insert node (value_of engine faults now dry_run found.0) values) w'))
      ]

  module _ (find_cycle : List (String × List String) → Option (List String)) where
    tree-Keeps :
        (d : Derivation) (root : String) (w : World)
        → R w (walk_rollup_tree engine faults now dry_run find_cycle d root w).0
    unfolding walk_rollup_tree
    tree-Keeps d root w =
        if-Keeps w (engine.compiles d.fn_source) _ _
          (with_rows-Keeps w (engine.query w.graph (edges_under root d.part_relationship)) _ λ rows.
            with_some-Keeps w (read_edges engine faults now dry_run rows ((root, []) ∷ [])) _
              λ edges.
                if-Keeps w _ _ _ (kept.same w)
                  (nodes-Keeps d edges (topological_order find_cycle edges) [] w))
          (kept.same w)

    roots-Keeps :
        (d : Derivation) (roots : List String) (w : World)
        → R w (evaluate_roots engine faults now dry_run find_cycle d roots w).0
    unfolding evaluate_roots
    roots-Keeps d [] w = kept.same w
    roots-Keeps d (root ∷ roots) w =
        and_then-Keeps w (walk_rollup_tree engine faults now dry_run find_cycle d root w) _
          (tree-Keeps d root w) (roots-Keeps d roots)

    evaluate-Keeps :
        (d : Derivation) (w : World) → R w (evaluate engine faults now dry_run find_cycle d w).0
    unfolding evaluate evaluate_rollup
    evaluate-Keeps d w =
        if-Keeps w _ _ _
          (with_rows-Keeps w (engine.query w.graph (written d.root_select)) _ λ rows.
            with_some-Keeps w (root_names engine faults now dry_run find_cycle rows) _
              λ roots. roots-Keeps d roots w)
          (evaluate_formula-Keeps d none w)

    order-Keeps :
        (by_id : List (String × Derivation)) (order : List String) (w : World)
        → R w (evaluate_order engine faults now dry_run find_cycle by_id order w).0
    unfolding evaluate_order
    order-Keeps by_id [] w = kept.same w
    order-Keeps by_id (id ∷ order) w = elim (Option-cases (lookup id by_id)) [
      | inl e ↦ rw (e, evaluate_order) (kept.same w)
      | inr (d, e) ↦
          let w' = (evaluate engine faults now dry_run find_cycle d w).0 in
          rw (e, evaluate_order)
            (kept.chain w w' _ (evaluate-Keeps d w) (order-Keeps by_id order w'))
    ]

    pub evaluate_derivations-Keeps :
        (ds : List Derivation) (only_ids : Option (List String)) (w : World)
        → R w (evaluate_derivations engine faults now dry_run find_cycle ds only_ids w).0
    unfolding evaluate_derivations
    evaluate_derivations-Keeps ds only_ids w = order-Keeps _ _ w
