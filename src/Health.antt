-- ===== src/Health.antt =====
-- The delivery health of webhooks (src/timberdoodle/faults.py) and the evaluation health of
-- derivation targets (src/timberdoodle/derivation_health.py): the same table under two kinds of key.
pub mod Webhook
pub mod Target
pub mod History
mod Examples
use timberdoodle.Base.{
  ℕ, ◌+◌, String, Bool, true, false, Option, none, some, List, leb, if◌then◌else◌,
}
use timberdoodle.Base.Dict.{Key, lookup, insert}

pub record Health : Type 0 where
  pub consecutive_failures : ℕ
  pub disabled : Bool
  pub last_error : Option String

abbrev pub HealthTable : Type 0 → Type 0
HealthTable K = List (K × Health)

-- The row that the upsert of a failure leaves.
unfoldable pub count_failure : Option Health → String → Health
count_failure none error = record {
  consecutive_failures = 1;
  disabled = false;
  last_error = some error;
}
count_failure (some h) error = record h {
  consecutive_failures = h.consecutive_failures + 1;
  last_error = some error;
}

unfoldable pub reset_count : Option Health → Health
reset_count none = record { consecutive_failures = 0; disabled = false; last_error = none }
reset_count (some h) = record h { consecutive_failures = 0 }

module _ {K : Type 0} ⦃k : Key K⦄ where
  -- The upsert, and then the UPDATE that disables at the threshold.
  unfoldable pub record_failure : ℕ → HealthTable K → K → String → HealthTable K × Bool
  unfolding count_failure
  record_failure threshold t key error =
      let row = count_failure (lookup key t) error in
      if leb threshold row.consecutive_failures
      then (insert key (record row { disabled = true }) t, true)
      else (insert key row t, false)

  unfoldable pub record_success : HealthTable K → K → HealthTable K
  unfolding reset_count
  record_success t key = insert key (reset_count (lookup key t)) t

  unfoldable pub is_disabled : HealthTable K → K → Bool
  is_disabled t key = elim (lookup key t) [ none ↦ false | some h ↦ h.disabled ]

  -- An UPDATE of a key with no row matches nothing.
  unfoldable pub enable : HealthTable K → K → HealthTable K × Option Health
  enable t key = elim (lookup key t) [
    | none ↦ (t, none)
    | some h ↦
        let row = record h { disabled = false; consecutive_failures = 0 } in
        (insert key row t, some row)
  ]
