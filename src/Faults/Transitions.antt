-- ===== src/Faults/Transitions.antt =====
-- Opening and closing a fault: the edges that fire webhooks.
use timberdoodle.Base.{
  ℕ, ◌+◌, String, ◌≡◌, refl, inl, inr, ◌&&◌, Option, none, some, List, [], ◌∷◌, ◌++◌, arith, str_eq,
  eq_iff, eq_refl, if◌then◌else◌, Option-cases, map, ap,
}
use timberdoodle.Values.{Instant}
use timberdoodle.Faults.{
  Fault, FaultTable, Detail, is_open, find_open, open_fault, new_row, close_row, close_fault,
}

pub find_open-append :
    (r p : String) (fs : List Fault) (f : Fault)
    → find_open r p fs ≡ none
    → find_open r p (fs ++ f ∷ []) ≡ (if is_open r p f then some f.id else none)
unfolding find_open
find_open-append r p [] f h = ground arith
find_open-append r p (g ∷ gs) f h = ground (arith, find_open-append r p gs f)

find_open-append_old :
    (r p : String) (fs gs : List Fault) (i : ℕ)
    → find_open r p fs ≡ some i
    → find_open r p (fs ++ gs) ≡ some i
unfolding find_open
find_open-append_old r p [] gs i h = cc
find_open-append_old r p (f ∷ fs) gs i h = ground (arith, find_open-append_old r p fs gs i)

pub find_open-close :
    (r p : String) (now : Instant) (r' p' : String) (fs : List Fault)
    → find_open r' p' (map (close_row r p now) fs)
      ≡ (if str_eq r r' && str_eq p p' then none else find_open r' p' fs)
unfolding find_open close_row
find_open-close r p now r' p' [] = ground arith
find_open-close r p now r' p' (f ∷ fs) = ground (
  arith,
  find_open-close r p now r' p' fs,
  eq_iff f.rule_id r,
  eq_iff f.rule_id r',
  eq_iff r r',
  eq_iff p p',
  eq_iff f.point_uri p,
  eq_iff f.point_uri p',
)

abbrev pub first_some : Option ℕ → Option ℕ → Option ℕ
first_some none b = b
first_some (some a) b = some a

module _ (t : FaultTable) (r p : String) (now : Instant) (d : Option Detail) (sev : String) where
  pub open_fault_new :
      find_open r p t.rows ≡ none
      → open_fault t r p now d sev ≡ (
        record { next_id = t.next_id + 1; rows = t.rows ++ new_row t.next_id r p now d sev ∷ [] },
        some t.next_id,
      )
  open_fault_new e = unfold open_fault in rw (e, open_fault)

  pub open_fault_old :
      (i : ℕ)
      → find_open r p t.rows ≡ some i
      → open_fault t r p now d sev ≡ (record t { next_id = t.next_id + 1 }, none)
  open_fault_old i e = unfold open_fault in rw (e, open_fault)

  pub find_open-new_row :
      (r' p' : String)
      → is_open r' p' (new_row t.next_id r p now d sev) ≡ (str_eq r r' && str_eq p p')
  unfolding new_row
  find_open-new_row r' p' = ground arith

  -- What is open after `open_fault`.
  pub find_open-open :
      (r' p' : String)
      → find_open r' p' (open_fault t r p now d sev).0.rows
        ≡ first_some
            (find_open r' p' t.rows)
            (if str_eq r r' && str_eq p p' then some t.next_id else none)
  unfolding new_row
  find_open-open r' p' = elim (Option-cases (find_open r p t.rows)) [
    | inl e ↦ rw (open_fault_new e) (elim (Option-cases (find_open r' p' t.rows)) [
      | inl e' ↦ rw (find_open-append r' p' t.rows _ e') (rw (e', find_open-new_row r' p') refl)
      | inr (i, e') ↦ rw (find_open-append_old r' p' t.rows _ i e') (rw e' refl)
    ])
    | inr (i, e) ↦ rw (open_fault_old i e) (ground (arith, eq_iff r r', eq_iff p p'))
  ]

is_open_after :
    (t : FaultTable) (r p : String) (now : Instant) (d : Option Detail) (sev : String)
    → find_open r p t.rows ≡ none
    → find_open r p (open_fault t r p now d sev).0.rows ≡ some t.next_id
is_open_after t r p now d sev e =
    rw (find_open-open t r p now d sev r p) (ground (arith, e, eq_iff r r, eq_iff p p))

-- An opening that fires gives the id that the closing of the same fault returns, and between the two
-- a second opening fires nothing and leaves the rows alone; after the closing nothing is open.
pub open_then_close :
    (t : FaultTable) (r p : String) (now later last : Instant) (d d' : Option Detail)
    (sev sev' : String)
    → find_open r p t.rows ≡ none
    → let t₁ = (open_fault t r p now d sev).0 in
      let t₂ = (open_fault t₁ r p later d' sev').0 in
      ((open_fault t r p now d sev).1 ≡ some t.next_id)
      × ((open_fault t₁ r p later d' sev').1 ≡ none)
      × (t₂.rows ≡ t₁.rows)
      × ((close_fault t₂ r p last).1 ≡ some t.next_id)
      × (find_open r p (close_fault t₂ r p last).0.rows ≡ none)
open_then_close t r p now later last d d' sev sev' e =
    let t₁ = (open_fault t r p now d sev).0 in
    let held = is_open_after t r p now d sev e in
    let again = open_fault_old t₁ r p later d' sev' t.next_id held in
    (
      ap (λ x. x.1) (open_fault_new t r p now d sev e),
      ap (λ x. x.1) again,
      ap (λ x. x.0.rows) again,
      unfold close_fault in rw again held,
      unfold close_fault in rw (again, find_open-close r p last r p t₁.rows) (simp eq_refl),
    )
