-- ===== src/Faults/Examples.antt =====
-- A table with one open fault and one that was closed, and the theorems on it.
use timberdoodle.Base.{◌≡◌, refl, none, some, List, [], ◌∷◌}
use timberdoodle.Faults.{
  FaultTable, close_row, ack_fault, ack_row, snooze_fault, snooze_row, find_open, open_fault,
  close_fault,
}
use timberdoodle.Faults.Invariant.{IsValid}
use timberdoodle.Faults.Runs.{
  Statement, execute, opening, closing, acking, snoozing, run, empty_table, empty_table-IsValid,
  run-IsValid,
}
use timberdoodle.Faults.Transitions.{open_then_close}

abbrev script : List Statement
script =
    opening "r1" "p1" 10 none "warning"
    ∷ opening "r1" "p2" 20 none "critical"
    ∷ acking 1 "ann" 25
    ∷ snoozing 2 90
    ∷ closing "r1" "p1" 30
    ∷ opening "r1" "p2" 40 none "warning"
    ∷ opening "r1" "p1" 50 none "warning"
    ∷ []

abbrev table : FaultTable
table = run empty_table script

run-IsValid_example : IsValid (run empty_table script)
run-IsValid_example = run-IsValid empty_table script empty_table-IsValid

-- The row that was opened again has an id of its own; the opening in between drew an id for nothing.
script_opens : find_open "r1" "p1" table.rows ≡ some 4
unfolding run execute open_fault find_open close_fault close_row ack_fault ack_row snooze_fault
    snooze_row
script_opens = refl

closed : find_open "r2" "p1" table.rows ≡ none
unfolding run execute open_fault find_open close_fault close_row ack_fault ack_row snooze_fault
    snooze_row
closed = refl

open_then_close_example :
    ((open_fault table "r2" "p1" 60 none "warning").1 ≡ some table.next_id)
    × ((open_fault (open_fault table "r2" "p1" 60 none "warning").0 "r2" "p1" 61 none "info").1
        ≡ none)
    × ((open_fault (open_fault table "r2" "p1" 60 none "warning").0 "r2" "p1" 61 none "info").0.rows
        ≡ (open_fault table "r2" "p1" 60 none "warning").0.rows)
    × ((close_fault
          (open_fault (open_fault table "r2" "p1" 60 none "warning").0 "r2" "p1" 61 none "info").0
          "r2"
          "p1"
          70).1
        ≡ some table.next_id)
    × (find_open "r2" "p1"
          (close_fault
            (open_fault (open_fault table "r2" "p1" 60 none "warning").0 "r2" "p1" 61 none "info").0
            "r2"
            "p1"
            70).0.rows
        ≡ none)
open_then_close_example = open_then_close table "r2" "p1" 60 61 70 none none "warning" "info" closed
