-- ===== src/DerivationEngine/Order/Examples.antt =====
-- A graph with a cycle and a missing node, and the theorem on it.
use timberdoodle.Base.{
  String, true, ◌≡◌, refl, ◌↔◌, Option, none, some, List, [], ◌∷◌, contains, distinct,
  if◌then◌else◌, ◌&&◌, arith,
}
use timberdoodle.DerivationEngine.Order.{Graph, deps_of, topological_order}
use timberdoodle.DerivationEngine.Order.Kept.{FindsCycles, Runnable}
use timberdoodle.DerivationEngine.Order.Runs.{topological_order_exact, InOrder}

abbrev plant : Graph
plant =
    ("b", "a" ∷ [])
    ∷ ("c", "d" ∷ [])
    ∷ ("a", [])
    ∷ ("d", "c" ∷ [])
    ∷ ("e", "missing" ∷ [])
    ∷ ("f", "c" ∷ "a" ∷ [])
    ∷ []

-- Finds the one cycle that the graph has.
abbrev cycle_of : Graph → Option (List String)
cycle_of g =
    if contains (deps_of g "d") "c" && contains (deps_of g "c") "d"
    then some ("c" ∷ "d" ∷ "c" ∷ [])
    else none

cycle_of-FindsCycles : FindsCycles cycle_of
cycle_of-FindsCycles g c h = record {
  first = "c";
  inner = "d" ∷ [];
  shape = ground (arith, h);
  walk = (ground (arith, h), (ground (arith, h), tt));
}

topological_order_exact_example :
    InOrder plant [] (topological_order cycle_of plant)
    × (distinct (topological_order cycle_of plant) ≡ true)
    × ((n : String) → (contains (topological_order cycle_of plant) n ≡ true) ↔ Runnable plant n)
topological_order_exact_example = topological_order_exact cycle_of plant cycle_of-FindsCycles refl
