-- ===== src/Faults/Listing.antt =====
-- `list_faults`: what the alarm console and the API read.
use mathlib.Core.List.{Perm}
use mathlib.Core.List.Perm
use timberdoodle.Base.{
  ℕ, ◌≤◌, String, Option, List, [], ◌∷◌, arith, ltb, keep, All, Bool-cases, inl, inr,
}
use timberdoodle.Faults.{Fault, FaultTable, Status, selects, insert_row, order_rows, list_faults}

-- The latest start first.
abbrev pub IsNewestFirst : List Fault → Type 0
IsNewestFirst [] = Unit
IsNewestFirst (f ∷ fs) = All (λ g. g.started_at ≤ f.started_at) fs × IsNewestFirst fs

insert_row-perm : (f : Fault) (fs : List Fault) → Perm (insert_row f fs) (f ∷ fs)
unfolding insert_row
insert_row-perm f [] = Perm.refl (f ∷ [])
insert_row-perm f (g ∷ gs) = elim (Bool-cases (ltb f.started_at g.started_at)) [
  | inl e ↦ rw e (Perm.trans (Perm.cons g (insert_row-perm f gs)) (Perm.swap f g gs))
  | inr e ↦ rw e (Perm.refl (f ∷ g ∷ gs))
]

order_rows-perm : (fs : List Fault) → Perm (order_rows fs) fs
unfolding order_rows
order_rows-perm [] = Perm.refl []
order_rows-perm (f ∷ fs) =
    Perm.trans (insert_row-perm f (order_rows fs)) (Perm.cons f (order_rows-perm fs))

All-insert :
    (n : ℕ) (f : Fault) (fs : List Fault)
    → f.started_at ≤ n
    → All (λ g. g.started_at ≤ n) fs
    → All (λ g. g.started_at ≤ n) (insert_row f fs)
unfolding insert_row
All-insert n f [] h k = (h, tt)
All-insert n f (g ∷ gs) h k = elim (Bool-cases (ltb f.started_at g.started_at)) [
  | inl e ↦ rw e (k.0, All-insert n f gs h k.1)
  | inr e ↦ rw e (h, k)
]

All-le_trans :
    (m n : ℕ) (fs : List Fault)
    → m ≤ n
    → All (λ g. g.started_at ≤ m) fs
    → All (λ g. g.started_at ≤ n) fs
All-le_trans m n [] h k = tt
All-le_trans m n (f ∷ fs) h k = (omega arith, All-le_trans m n fs h k.1)

insert_row-IsNewestFirst :
    (f : Fault) (fs : List Fault) → IsNewestFirst fs → IsNewestFirst (insert_row f fs)
unfolding insert_row
insert_row-IsNewestFirst f [] h = (tt, tt)
insert_row-IsNewestFirst f (g ∷ gs) h = elim (Bool-cases (ltb f.started_at g.started_at)) [
  | inl e ↦
      rw e (All-insert g.started_at f gs (ground arith) h.0, insert_row-IsNewestFirst f gs h.1)
  | inr e ↦ rw e (((ground arith), All-le_trans g.started_at f.started_at gs (ground arith) h.0), h)
]

order_rows-IsNewestFirst : (fs : List Fault) → IsNewestFirst (order_rows fs)
unfolding order_rows
order_rows-IsNewestFirst [] = tt
order_rows-IsNewestFirst (f ∷ fs) =
    insert_row-IsNewestFirst f (order_rows fs) (order_rows-IsNewestFirst fs)

-- A listing holds the rows that pass every clause, each as often as the table does, and the latest
-- start comes first.
pub list_faults_sorted :
    (t : FaultTable) (status : Option Status) (point rule : Option String)
    → Perm (list_faults t status point rule) (keep (selects status point rule) t.rows)
      × IsNewestFirst (list_faults t status point rule)
unfolding list_faults
list_faults_sorted t status point rule = (
  order_rows-perm (keep (selects status point rule) t.rows),
  order_rows-IsNewestFirst (keep (selects status point rule) t.rows),
)
