-- ===== src/Health/Webhook.antt =====
-- src/timberdoodle/faults.py: `webhook_health`, keyed by the webhook's id.
use timberdoodle.Base.{ℕ, String, Bool}
use timberdoodle.Base.Dict.{text_key}
use timberdoodle.Health.{HealthTable, record_failure, record_success, is_disabled, enable}

abbrev pub disable_threshold : ℕ
disable_threshold = 5

unfoldable pub record_webhook_failure :
    HealthTable String → String → String → HealthTable String × Bool
record_webhook_failure t webhook error = record_failure disable_threshold t webhook error

unfoldable pub record_webhook_success : HealthTable String → String → HealthTable String
record_webhook_success t webhook = record_success t webhook

unfoldable pub is_webhook_disabled : HealthTable String → String → Bool
is_webhook_disabled t webhook = is_disabled t webhook

-- The whole table, keyed by webhook.
unfoldable pub list_webhook_health : HealthTable String → HealthTable String
list_webhook_health t = t

unfoldable pub enable_webhook : HealthTable String → String → HealthTable String
enable_webhook t webhook = (enable t webhook).0
