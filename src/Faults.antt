-- ===== src/Faults.antt =====
-- src/timberdoodle/faults.py: the `faults` table and its statements. A row lock is held by each
-- statement, so a statement is one step on the whole table.
pub mod Invariant
pub mod Runs
pub mod Transitions
pub mod Listing
mod Examples
use timberdoodle.Base.{
  ℕ, ◌+◌, String, Bool, true, false, ◌&&◌, Option, none, some, List, [], ◌∷◌, ◌++◌, map, ◌==◌, ltb,
  str_eq, if◌then◌else◌, is_none, keep,
}
use timberdoodle.Values.{Instant, Value}

pub data Status : Type 0 where
  opened resolved : Status

abbrev pub same_status : Status → Status → Bool
same_status opened opened = true
same_status resolved resolved = true
same_status _ _ = false

-- `detail` of a cur-mode fault: the value and the bounds of the rule.
pub record Detail : Type 0 where
  pub value : Value
  pub min : Value
  pub max : Value

pub record Fault : Type 0 where
  pub id : ℕ
  pub rule_id : String
  pub point_uri : String
  pub status : Status
  pub started_at : Instant
  pub ended_at : Option Instant
  pub detail : Option Detail
  pub severity : String
  pub acked_at : Option Instant
  pub acked_by : Option String
  pub snoozed_until : Option Instant

-- The table, and the next value of the BIGSERIAL sequence of its ids.
pub record FaultTable : Type 0 where
  pub next_id : ℕ
  pub rows : List Fault

-- The predicate of the partial unique index `faults_open_unique`.
abbrev pub is_open : String → String → Fault → Bool
is_open rule point f = str_eq f.rule_id rule && (str_eq f.point_uri point && is_none f.ended_at)

unfoldable pub find_open : String → String → List Fault → Option ℕ
find_open rule point [] = none
find_open rule point (f ∷ fs) = if is_open rule point f then some f.id else find_open rule point fs

-- The row that the INSERT writes; the columns that it does not name are NULL.
unfoldable pub new_row : ℕ → String → String → Instant → Option Detail → String → Fault
new_row i rule point now detail severity = record {
  id = i;
  rule_id = rule;
  point_uri = point;
  status = opened;
  started_at = now;
  ended_at = none;
  detail = detail;
  severity = severity;
  acked_at = none;
  acked_by = none;
  snoozed_until = none;
}

-- ON CONFLICT DO NOTHING still draws its id from the sequence.
unfoldable pub open_fault :
    FaultTable → String → String → Instant → Option Detail → String → FaultTable × Option ℕ
unfolding new_row
open_fault t rule point now detail severity =
    let row = new_row t.next_id rule point now detail severity in
    elim (find_open rule point t.rows) [
      | some _ ↦ (record t { next_id = t.next_id + 1 }, none)
      | none ↦ (record { next_id = t.next_id + 1; rows = t.rows ++ row ∷ [] }, some t.next_id)
    ]

unfoldable pub close_row : String → String → Instant → Fault → Fault
close_row rule point now f =
    if is_open rule point f then record f { ended_at = some now; status = resolved } else f

-- The id that RETURNING gives first is that of the first row that was updated.
unfoldable pub close_fault : FaultTable → String → String → Instant → FaultTable × Option ℕ
close_fault t rule point now =
    (record t { rows = map (close_row rule point now) t.rows }, find_open rule point t.rows)

abbrev pub has_id : ℕ → List Fault → Bool
has_id i [] = false
has_id i (f ∷ fs) = if f.id == i then true else has_id i fs

unfoldable pub ack_row : ℕ → String → Instant → Fault → Fault
ack_row i by now f = if f.id == i then record f { acked_at = some now; acked_by = some by } else f

unfoldable pub ack_fault : FaultTable → ℕ → String → Instant → FaultTable × Bool
unfolding ack_row
ack_fault t i by now = (record t { rows = map (ack_row i by now) t.rows }, has_id i t.rows)

unfoldable pub snooze_row : ℕ → Instant → Fault → Fault
snooze_row i until f = if f.id == i then record f { snoozed_until = some until } else f

unfoldable pub snooze_fault : FaultTable → ℕ → Instant → FaultTable × Bool
unfolding snooze_row
snooze_fault t i until = (record t { rows = map (snooze_row i until) t.rows }, has_id i t.rows)

-- A filter that is None adds no clause.
abbrev pub clause : Option String → String → Bool
clause none s = true
clause (some want) s = str_eq s want

abbrev pub status_clause : Option Status → Status → Bool
status_clause none s = true
status_clause (some want) s = same_status s want

abbrev pub selects : Option Status → Option String → Option String → Fault → Bool
selects status point rule f =
    status_clause status f.status && (clause point f.point_uri && clause rule f.rule_id)

-- ORDER BY started_at DESC; rows that started together stay in the order of the table.
unfoldable pub insert_row : Fault → List Fault → List Fault
insert_row f [] = f ∷ []
insert_row f (g ∷ gs) =
    let rest = insert_row f gs in if ltb f.started_at g.started_at then g ∷ rest else f ∷ g ∷ gs

unfoldable pub order_rows : List Fault → List Fault
unfolding insert_row
order_rows [] = []
order_rows (f ∷ fs) = insert_row f (order_rows fs)

unfoldable pub list_faults : FaultTable → Option Status → Option String → Option String → List Fault
unfolding order_rows
list_faults t status point rule = order_rows (keep (selects status point rule) t.rows)
