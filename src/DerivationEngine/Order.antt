-- ===== src/DerivationEngine/Order.antt =====
-- `_topological_order`, over `graphlib.TopologicalSorter` of the standard library.
pub mod Graphs
pub mod Kahn
pub mod Kept
pub mod Runs
mod Examples
use timberdoodle.Base.{
  ℕ, zero, suc, ◌+◌, String, Bool, true, false, not, ◌&&◌, Option, none, some, List, [], ◌∷◌, ◌++◌,
  ◌==◌, length, all, keep, contains, str_eq, if◌then◌else◌,
}
use timberdoodle.Base.Dict.{text_key, lookup}

-- A dict from a node to what must run before it; its keys are distinct.
abbrev pub Graph : Type 0
Graph = List (String × List String)

abbrev pub keys : Graph → List String
keys [] = []
keys ((n, ds) ∷ g) = n ∷ keys g

unfoldable pub deps_of : Graph → String → List String
deps_of g n = elim (lookup n g) [ none ↦ [] | some ds ↦ ds ]

-- `del alive[node]`
unfoldable pub delete : String → Graph → Graph
delete n g = keep (λ e. not (str_eq e.0 n)) g

-- One pass over the entries that there were; a deletion is seen by the entries after it.
unfoldable pub prune_pass : Graph → Graph → Graph
unfolding delete
prune_pass [] alive = alive
prune_pass ((n, ds) ∷ rest) alive =
    prune_pass rest (if all (contains (keys alive)) ds then alive else delete n alive)

-- `while changed`; a pass that changes something makes the graph smaller.
unfoldable pub prune : ℕ → Graph → Graph
unfolding prune_pass
prune zero g = g
prune (suc fuel) g =
    let g' = prune_pass g g in
    let rest = prune fuel g' in if length g' == length g then g' else rest

-- TopologicalSorter meets the nodes in the order in which `add` first names them.
abbrev pub meet : List String → List String → List String
meet seen [] = seen
meet seen (n ∷ ns) = meet (if contains seen n then seen else seen ++ n ∷ []) ns

unfoldable pub encountered : List String → Graph → List String
encountered seen [] = seen
encountered seen ((n, ds) ∷ g) = encountered (meet seen (n ∷ ds)) g

-- `done(n)` makes those ready whose last missing predecessor was `n`.
unfoldable pub ready_after : Graph → String → List String → List String
ready_after [] n done = []
ready_after ((s, ds) ∷ g) n done =
    let rest = ready_after g n done in
    if contains ds n && all (contains done) ds then s ∷ rest else rest

-- The nodes handed out so far, the latest first, and those that are ready.
unfoldable pub hand_out : ℕ → Graph → List String → List String → List String
unfolding ready_after
hand_out zero g queue done = done
hand_out (suc fuel) g [] done = done
hand_out (suc fuel) g (n ∷ queue) done =
    hand_out fuel g (queue ++ ready_after g n (n ∷ done)) (n ∷ done)

unfoldable pub sources : Graph → List String
unfolding deps_of encountered
sources g = keep (λ n. length (deps_of g n) == 0) (encountered [] g)

abbrev pub rev_onto : List String → List String → List String
rev_onto [] acc = acc
rev_onto (n ∷ ns) acc = rev_onto ns (n ∷ acc)

-- `static_order` of a sorter without a cycle.
unfoldable pub static_order : Graph → List String
unfolding hand_out sources
static_order g = rev_onto (hand_out (length g) g (sources g) []) []

unfoldable pub without : List String → Graph → Graph
without cyclic g = keep (λ e. not (contains cyclic e.0)) g

-- `find_cycle` is the cycle of the CycleError that `static_order` raises, if it raises one.
module _ (find_cycle : Graph → Option (List String)) where
  unfoldable pub order_from : ℕ → Graph → List String
  order_from zero g = []
  order_from (suc fuel) g =
      let alive = prune (length g) g in
      elim (find_cycle alive) [
        | none ↦ static_order alive
        | some cycle ↦ order_from fuel (without cycle alive)
      ]

  -- Each CycleError takes a node away, so the fuel suffices.
  unfoldable pub topological_order : Graph → List String
  unfolding order_from
  topological_order g = order_from (suc (length g)) g
