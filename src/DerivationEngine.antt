-- ===== src/DerivationEngine.antt =====
-- src/timberdoodle/derivation_engine.py: derivations, and the evaluation of a formula or a rollup.
pub mod Order
pub mod Evaluate
pub mod Sweep
pub mod Steps
pub mod Effects
pub mod Outputs
pub mod Ticks
mod Examples
use timberdoodle.Base.{
  ℕ, String, Bool, true, false, ◌||◌, Option, none, some, List, [], ◌∷◌, ◌++◌, ◌==◌, str_append,
  if◌then◌else◌, or_else,
}
use timberdoodle.Values.{Instant, Value, null}
use timberdoodle.Faults.{FaultTable}
use timberdoodle.Health.Target.{TargetTable}
use timberdoodle.TimeSeries.{History, Series}
use timberdoodle.TripleStore.{Graph}
use Prim.Native.Char.{code}

pub record Output : Type 0 where
  pub unit : Option String
  pub label : Option String
  pub brick_class : Option String

-- A validated derivation: the keys that the code reads with `[...]` are there. Its durations are in
-- microseconds here, as instants are.
pub record Derivation : Type 0 where
  pub id : String
  pub kind : Option String
  pub fn_source : String
  pub window_seconds : ℕ
  pub output : Output
  pub depends_on : List String
  pub select : String
  pub target_var : String
  pub input_vars : List String
  pub extra_vars : List String
  pub input_windows : List (String × ℕ)
  pub applies_to_topic_glob : Option String
  pub interval_seconds : Option ℕ
  pub root_select : String
  pub part_relationship : String
  pub leaf_point_class : String

-- The part of a URI behind its last `/` or `:`.
abbrev pub is_separator : ℕ → Bool
is_separator c = c == b'/' || c == b':'

abbrev pub has_separator : String → Bool
has_separator String.[] = false
has_separator (String.◌∷◌ c s) = is_separator (code c) || has_separator s

unfoldable pub local_name : String → String
local_name String.[] = String.[]
local_name (String.◌∷◌ c s) =
    let rest = local_name s in
    if is_separator (code c) || has_separator s then rest else String.◌∷◌ c s

unfoldable pub output_uri : String → String → String
unfolding local_name
output_uri derivation target =
    str_append "urn:point:computed/" (str_append derivation (str_append "/" (local_name target)))

-- A formula gets its series by name, a rollup gets a list of them.
pub data Inputs : Type 0 where
  named : List (String × Series) → Inputs
  listed : List Series → Inputs

-- What a guarded computation gives: its value (`null` is None), or the text of its exception.
pub data Result (A : Type 0) : Type 0 where
  ok : A → Result A
  raised : String → Result A

pub data TraceEntry : Type 0 where
  failed : String → String → TraceEntry
  absent : String → TraceEntry
  computed : String → Value → String → List String → TraceEntry

-- The databases that a pass writes. Without a health connection nothing is counted.
pub record World : Type 0 where
  pub graph : Graph
  pub history : History
  pub health : Option TargetTable

-- A row of a query: an unbound variable is None.
abbrev pub Row : Type 0
Row = List (String × Option String)

-- The queries: a text of the derivation, or one of the two that are made for a rollup.
pub data Query : Type 0 where
  written : String → Query
  edges_under : String → String → Query
  leaves_of : String → String → Query

-- What is not under src/: the SPARQL engine on the graph, and the Python interpreter that compiles
-- (sandbox.compile_fn) and runs (sandbox.run_with_timeout) a function; `false` is a source that does
-- not compile.
pub record Engine : Type 0 where
  pub query : Graph → Query → Result (List Row)
  pub compiles : String → Bool
  pub run : String → Inputs → List (String × String) → Result Value
  pub missing_attribute : String → String
