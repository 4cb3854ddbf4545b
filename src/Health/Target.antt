-- ===== src/Health/Target.antt =====
-- src/timberdoodle/derivation_health.py: `derivation_target_health`, keyed by a derivation's id and a
-- target's URI.
use timberdoodle.Base.{ℕ, String, Bool, Option, keep, str_eq}
use timberdoodle.Base.Dict.{pair_key}
use timberdoodle.Health.{Health, HealthTable, record_failure, record_success, is_disabled, enable}

abbrev pub TargetTable : Type 0
TargetTable = HealthTable (String × String)

abbrev pub disable_threshold : ℕ
disable_threshold = 5

unfoldable pub record_target_failure : TargetTable → String → String → String → TargetTable × Bool
record_target_failure t derivation target error =
    record_failure disable_threshold t (derivation, target) error

unfoldable pub record_target_success : TargetTable → String → String → TargetTable
record_target_success t derivation target = record_success t (derivation, target)

unfoldable pub is_target_disabled : TargetTable → String → String → Bool
is_target_disabled t derivation target = is_disabled t (derivation, target)

unfoldable pub enable_target : TargetTable → String → String → TargetTable × Option Health
enable_target t derivation target = enable t (derivation, target)

-- ORDER BY target_uri follows the database's collation, which `sort` stands for.
unfoldable pub list_targets : (TargetTable → TargetTable) → TargetTable → String → TargetTable
list_targets sort t derivation = sort (keep (λ row. str_eq row.0.0 derivation) t)
