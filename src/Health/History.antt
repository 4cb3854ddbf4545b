-- ===== src/Health/History.antt =====
-- What a health table knows of a key, from the history of the key alone.
use timberdoodle.Base.{
  ℕ, ◌+◌, String, ◌≡◌, refl, Bool, true, false, ◌||◌, Option, none, some, List, [], ◌∷◌, arith, leb,
  if◌then◌else◌, Bool-cases, Option-cases, inl, inr, subst, sym,
}
use timberdoodle.Base.Dict.{Key, lookup, lookup-insert}
use timberdoodle.Health.{
  Health, HealthTable, count_failure, reset_count, record_failure, record_success, is_disabled,
  enable,
}

pub data Event : Type 0 where
  failed : String → Event
  succeeded enabled : Event

abbrev pub failures_of : Option Health → ℕ
failures_of none = 0
failures_of (some h) = h.consecutive_failures

abbrev pub disabled_of : Option Health → Bool
disabled_of none = false
disabled_of (some h) = h.disabled

-- Failures since the last success or enabling. Histories are latest first.
abbrev pub streak : List Event → ℕ
streak [] = 0
streak (failed _ ∷ h) = streak h + 1
streak (_ ∷ h) = 0

-- Since the last enabling, some streak reached the threshold.
abbrev pub tripped : ℕ → List Event → Bool
tripped threshold [] = false
tripped threshold (failed _ ∷ h) = leb threshold (streak h + 1) || tripped threshold h
tripped threshold (succeeded ∷ h) = tripped threshold h
tripped threshold (enabled ∷ h) = false

-- The row of a key after one of its own events; an enabling makes no row.
after : ℕ → Option Health → Event → Option Health
after n old (failed x) =
    let row = count_failure old x in
    if leb n row.consecutive_failures then some (record row { disabled = true }) else some row
after n old succeeded = some (reset_count old)
after n none enabled = none
after n (some h) enabled = some (record h { disabled = false; consecutive_failures = 0 })

Tells : ℕ → List Event → Option Health → Type 0
Tells n h o = (failures_of o ≡ streak h) × (disabled_of o ≡ tripped n h)

after-Tells :
    (n : ℕ) (h : List Event) (old : Option Health) (e : Event)
    → Tells n h old
    → Tells n (e ∷ h) (after n old e)
unfolding after Tells count_failure reset_count
after-Tells n h none (failed x) p = ground arith
after-Tells n h (some r) (failed x) p = ground arith
after-Tells n h none succeeded p = ground arith
after-Tells n h (some r) succeeded p = ground arith
after-Tells n h none enabled p = ground arith
after-Tells n h (some r) enabled p = ground arith

module _ {K : Type 0} ⦃k : Key K⦄ where
  unfoldable pub step : ℕ → HealthTable K → K → Event → HealthTable K
  step threshold t key (failed error) = (record_failure threshold t key error).0
  step threshold t key succeeded = record_success t key
  step threshold t key enabled = (enable t key).0

  -- The table after a history of all keys, the latest event first.
  unfoldable pub replay : ℕ → List (K × Event) → HealthTable K
  replay threshold [] = []
  replay threshold ((key, e) ∷ h) = step threshold (replay threshold h) key e

  abbrev pub history_of : K → List (K × Event) → List Event
  history_of key [] = []
  history_of key ((j, e) ∷ h) =
      let rest = history_of key h in if k.same j key then e ∷ rest else rest

  lookup-step :
      (n : ℕ) (t : HealthTable K) (a j : K) (e : Event)
      → lookup j (step n t a e) ≡ (if k.same a j then after n (lookup a t) e else lookup j t)
  unfolding step record_failure record_success enable after
  lookup-step n t a j (failed x) =
      elim (Bool-cases (leb n (count_failure (lookup a t) x).consecutive_failures)) [
        | inl e ↦ rw (e, step) (lookup-insert a j _ t)
        | inr e ↦ rw (e, step) (lookup-insert a j _ t)
      ]
  lookup-step n t a j succeeded = lookup-insert a j _ t
  lookup-step n t a j enabled = elim (Option-cases (lookup a t)) [
    | inl e ↦ rw (e, step) (ground (arith, k.same_iff a j, e))
    | inr (h, e) ↦ rw (e, step) (lookup-insert a j _ t)
  ]

  replay-Tells :
      (n : ℕ) (j : K) (h : List (K × Event)) → Tells n (history_of j h) (lookup j (replay n h))
  unfolding replay
  replay-Tells n j [] = unfold Tells lookup in (refl, refl)
  replay-Tells n j ((a, e) ∷ h) =
      rw (lookup-step n (replay n h) a j e) (elim (Bool-cases (k.same a j)) [
        | inl s ↦ rw (s) (
            subst (λ i. Tells n (e ∷ history_of j h) (after n (lookup i (replay n h)) e))
              (sym ((k.same_iff a j).0 s))
              (after-Tells n (history_of j h) _ e (replay-Tells n j h)))
        | inr s ↦ rw (s) (replay-Tells n j h)
      ])

  -- For every key and any interleaving of events of all keys: a key is disabled exactly when, since it
  -- was last enabled, some run of its own uninterrupted failures reached the threshold; a success
  -- resets the count and does not enable. A failure reports that it disabled the key exactly when the
  -- run that it ends has reached the threshold.
  pub is_disabled_iff_tripped :
      (threshold : ℕ) (h : List (K × Event)) (key : K) (error : String)
      → (is_disabled (replay threshold h) key ≡ tripped threshold (history_of key h))
        × ((record_failure threshold (replay threshold h) key error).1
            ≡ leb threshold (streak (history_of key h) + 1))
  unfolding is_disabled record_failure count_failure Tells
  is_disabled_iff_tripped threshold h key error =
      let told = replay-Tells threshold key h in (ground (arith, told), ground (arith, told))
