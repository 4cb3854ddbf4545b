-- ===== src/Faults/Runs.antt =====
-- Sequences of the statements of faults.py, as the detector and the API issue them.
use timberdoodle.Base.{ℕ, String, Option, List, [], ◌∷◌, arith}
use timberdoodle.Values.{Instant}
use timberdoodle.Faults.{FaultTable, Detail, open_fault, close_fault, ack_fault, snooze_fault}
use timberdoodle.Faults.Invariant.{
  IsValid, open_fault-IsValid, close_fault-IsValid, ack_fault-IsValid, snooze_fault-IsValid,
}

pub data Statement : Type 0 where
  opening : String → String → Instant → Option Detail → String → Statement
  closing : String → String → Instant → Statement
  acking : ℕ → String → Instant → Statement
  snoozing : ℕ → Instant → Statement

unfoldable pub execute : FaultTable → Statement → FaultTable
execute t (opening r p now d sev) = (open_fault t r p now d sev).0
execute t (closing r p now) = (close_fault t r p now).0
execute t (acking i by now) = (ack_fault t i by now).0
execute t (snoozing i until) = (snooze_fault t i until).0

unfoldable pub run : FaultTable → List Statement → FaultTable
run t [] = t
run t (s ∷ ss) = run (execute t s) ss

execute-IsValid : (t : FaultTable) (s : Statement) → IsValid t → IsValid (execute t s)
unfolding execute
execute-IsValid t (opening r p now d sev) = open_fault-IsValid t r p now d sev
execute-IsValid t (closing r p now) = close_fault-IsValid t r p now
execute-IsValid t (acking i by now) = ack_fault-IsValid t i by now
execute-IsValid t (snoozing i until) = snooze_fault-IsValid t i until

-- Whatever statements are issued, in whatever order, a well-formed table stays well-formed: each
-- rule has at most one open fault on a point, a row is resolved exactly when it has an end, and the
-- ids rise down the table and stay below the next id of the sequence.
pub run-IsValid : (t : FaultTable) (ss : List Statement) → IsValid t → IsValid (run t ss)
unfolding run
run-IsValid t [] v = v
run-IsValid t (s ∷ ss) v = run-IsValid (execute t s) ss (execute-IsValid t s v)

abbrev pub empty_table : FaultTable
empty_table = record { next_id = 1; rows = [] }

pub empty_table-IsValid : IsValid empty_table
empty_table-IsValid = record { unique_open = λ r p. omega arith; statuses = tt; ids = tt }
