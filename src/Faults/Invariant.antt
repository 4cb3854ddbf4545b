-- ===== src/Faults/Invariant.antt =====
-- The well-formedness of the `faults` table.
use timberdoodle.Base.{
  ℕ, ◌+◌, ◌≤◌, ◌<◌, String, ◌≡◌, refl, inl, inr, true, Option, none, List, [], ◌∷◌, ◌++◌, arith,
  eq_iff, if◌then◌else◌, is_none, Option-cases, All, All-append, map,
}
use timberdoodle.Values.{Instant}
use timberdoodle.Faults.{
  Fault, FaultTable, Detail, opened, resolved, is_open, find_open, open_fault, close_row,
  close_fault, ack_row, ack_fault, snooze_row, snooze_fault,
}

-- How many open faults a rule has on a point.
abbrev pub open_count : String → String → List Fault → ℕ
open_count r p [] = 0
open_count r p (f ∷ fs) = (if is_open r p f then 1 else 0) + open_count r p fs

-- A row is resolved exactly when it has an end.
abbrev pub StatusFits : Fault → Type 0
StatusFits f = f.status ≡ (if is_none f.ended_at then opened else resolved)

-- Ids rise down the table and lie below the next value of the sequence.
abbrev pub IdsBelow : ℕ → List Fault → Type 0
IdsBelow bound [] = Unit
IdsBelow bound (f ∷ fs) = (f.id < bound) × All (λ g. f.id < g.id) fs × IdsBelow bound fs

pub record IsValid (t : FaultTable) : Type 0 where
  pub unique_open : (r p : String) → open_count r p t.rows ≤ 1
  pub statuses : All StatusFits t.rows
  pub ids : IdsBelow t.next_id t.rows

pub find_open-none :
    (r p : String) (fs : List Fault) → find_open r p fs ≡ none → open_count r p fs ≡ 0
unfolding find_open
find_open-none r p [] h = refl
find_open-none r p (f ∷ fs) h = ground (arith, find_open-none r p fs)

pub open_count-append :
    (r p : String) (xs ys : List Fault)
    → open_count r p (xs ++ ys) ≡ open_count r p xs + open_count r p ys
open_count-append r p [] ys = omega arith
open_count-append r p (f ∷ fs) ys = omega (arith, open_count-append r p fs ys)

same_key :
    (r p r' p' : String) (f : Fault)
    → is_open r p f ≡ true
    → is_open r' p' f ≡ true
    → (r ≡ r') × (p ≡ p')
same_key r p r' p' f h k =
    ground
      (arith, eq_iff f.rule_id r, eq_iff f.rule_id r', eq_iff f.point_uri p, eq_iff f.point_uri p')

ids_below-mono : (a b : ℕ) (fs : List Fault) → a ≤ b → IdsBelow a fs → IdsBelow b fs
ids_below-mono a b [] h k = tt
ids_below-mono a b (f ∷ fs) h k = (omega arith, k.1, ids_below-mono a b fs h k.2)

All-below :
    (b : ℕ) (f : Fault) (fs : List Fault) → IdsBelow b fs → b ≡ f.id → All (λ g. g.id < f.id) fs
All-below b f [] h e = tt
All-below b f (g ∷ fs) h e = (omega arith, All-below b f fs h.2 e)

ids_below-append :
    (b : ℕ) (fs : List Fault) (f : Fault)
    → IdsBelow b fs
    → f.id ≡ b
    → IdsBelow (b + 1) (fs ++ f ∷ [])
ids_below-append b [] f h e = (omega arith, tt, tt)
ids_below-append b (g ∷ gs) f h e = (
  omega arith,
  All-append (λ k. g.id < k.id) gs (f ∷ []) h.1 (omega arith, tt),
  ids_below-append b gs f h.2 e,
)

-- Two rows that agree on their ids: an update of other columns keeps the order of the ids.
module _ (change : Fault → Fault) (same_id : (f : Fault) → (change f).id ≡ f.id) where
  All-ids-map :
      (n : ℕ) (fs : List Fault) → All (λ g. n < g.id) fs → All (λ g. n < g.id) (map change fs)
  All-ids-map n [] h = tt
  All-ids-map n (f ∷ fs) h = (omega (arith, same_id f), All-ids-map n fs h.1)

  ids_below-map : (b : ℕ) (fs : List Fault) → IdsBelow b fs → IdsBelow b (map change fs)
  ids_below-map b [] h = tt
  ids_below-map b (f ∷ fs) h =
      (omega (arith, same_id f), rw (same_id f) (All-ids-map f.id fs h.1), ids_below-map b fs h.2)

one_more :
    (r p r' p' : String) (fs : List Fault) (f : Fault)
    → open_count r p fs ≡ 0
    → f.rule_id ≡ r
    → f.point_uri ≡ p
    → open_count r' p' fs ≤ 1
    → open_count r' p' (fs ++ f ∷ []) ≤ 1
one_more r p r' p' fs f h e e' k =
    ground (arith, open_count-append r' p' fs (f ∷ []), eq_iff f.rule_id r', eq_iff f.point_uri p')

pub open_fault-IsValid :
    (t : FaultTable) (r p : String) (now : Instant) (d : Option Detail) (sev : String)
    → IsValid t
    → IsValid (open_fault t r p now d sev).0
unfolding open_fault find_open
open_fault-IsValid t r p now d sev v = elim (Option-cases (find_open r p t.rows)) [
  | inl e ↦
      rw (e, open_fault)
        (record {
          unique_open = λ r' p'.
              one_more r p r' p' t.rows _ (find_open-none r p t.rows e) refl refl
                (v.unique_open r' p');
          statuses = All-append StatusFits t.rows _ v.statuses (refl, tt);
          ids = ids_below-append t.next_id t.rows _ v.ids refl;
        })
  | inr (i, e) ↦
      rw (e, open_fault)
        (record {
          unique_open = v.unique_open;
          statuses = v.statuses;
          ids = ids_below-mono t.next_id (t.next_id + 1) t.rows (omega arith) v.ids;
        })
]

close_row_count :
    (r p : String) (now : Instant) (r' p' : String) (fs : List Fault)
    → open_count r' p' (map (close_row r p now) fs) ≤ open_count r' p' fs
unfolding close_row
close_row_count r p now r' p' [] = omega arith
close_row_count r p now r' p' (f ∷ fs) = ground (arith, close_row_count r p now r' p' fs)

close_row_status :
    (r p : String) (now : Instant) (fs : List Fault)
    → All StatusFits fs
    → All StatusFits (map (close_row r p now) fs)
unfolding close_row
close_row_status r p now [] h = tt
close_row_status r p now (f ∷ fs) h = (ground arith, close_row_status r p now fs h.1)

close_row-id : (r p : String) (now : Instant) (f : Fault) → (close_row r p now f).id ≡ f.id
unfolding close_row
close_row-id r p now f = ground arith

pub close_fault-IsValid :
    (t : FaultTable) (r p : String) (now : Instant) → IsValid t → IsValid (close_fault t r p now).0
unfolding close_fault close_row
close_fault-IsValid t r p now v = record {
  unique_open = λ r' p'. omega (arith, close_row_count r p now r' p' t.rows, v.unique_open r' p');
  statuses = close_row_status r p now t.rows v.statuses;
  ids = ids_below-map (close_row r p now) (close_row-id r p now) t.next_id t.rows v.ids;
}

-- A column that neither the index nor the status reads.
pub record IsNote (change : Fault → Fault) : Type 0 where
  pub same_id : (f : Fault) → (change f).id ≡ f.id
  pub same_open : (r p : String) (f : Fault) → is_open r p (change f) ≡ is_open r p f
  pub same_fits : (f : Fault) → StatusFits f → StatusFits (change f)

module _ (change : Fault → Fault) (note : IsNote change) where
  note_count : (r p : String) (fs : List Fault) → open_count r p (map change fs) ≡ open_count r p fs
  note_count r p [] = refl
  note_count r p (f ∷ fs) = rw (note.same_open r p f, note_count r p fs)

  note_status : (fs : List Fault) → All StatusFits fs → All StatusFits (map change fs)
  note_status [] h = tt
  note_status (f ∷ fs) h = (note.same_fits f h.0, note_status fs h.1)

  pub note-IsValid : (t : FaultTable) → IsValid t → IsValid (record t { rows = map change t.rows })
  note-IsValid t v = record {
    unique_open = λ r p. omega (arith, note_count r p t.rows, v.unique_open r p);
    statuses = note_status t.rows v.statuses;
    ids = ids_below-map change note.same_id t.next_id t.rows v.ids;
  }

ack_row-IsNote : (i : ℕ) (by : String) (now : Instant) → IsNote (ack_row i by now)
unfolding ack_row
ack_row-IsNote i by now = record {
  same_id = λ f. ground arith;
  same_open = λ r p f. ground arith;
  same_fits = λ f h. ground arith;
}

snooze_row-IsNote : (i : ℕ) (until : Instant) → IsNote (snooze_row i until)
unfolding snooze_row
snooze_row-IsNote i until = record {
  same_id = λ f. ground arith;
  same_open = λ r p f. ground arith;
  same_fits = λ f h. ground arith;
}

pub ack_fault-IsValid :
    (t : FaultTable) (i : ℕ) (by : String) (now : Instant)
    → IsValid t
    → IsValid (ack_fault t i by now).0
unfolding ack_fault
ack_fault-IsValid t i by now = note-IsValid (ack_row i by now) (ack_row-IsNote i by now) t

pub snooze_fault-IsValid :
    (t : FaultTable) (i : ℕ) (until : Instant) → IsValid t → IsValid (snooze_fault t i until).0
unfolding snooze_fault
snooze_fault-IsValid t i until = note-IsValid (snooze_row i until) (snooze_row-IsNote i until) t
