-- ===== src/FaultDetector/Deliver.antt =====
-- `_fire_webhooks` starts one delivery for each matching webhook, and `_deliver_and_record` carries
-- one out.
use timberdoodle.Base.{ℕ, String, Bool, Option, none, some, List, map, keep, if◌then◌else◌}
use timberdoodle.Values.{Value}
use timberdoodle.Health.{HealthTable}
use timberdoodle.Health.Webhook.{
  record_webhook_failure, record_webhook_success, is_webhook_disabled,
}
use timberdoodle.Webhooks.{Network, Delivery, Problem, deliver, matches_filter}

pub record Webhook : Type 0 where
  pub id : String
  pub url : String
  pub secret : String
  pub filter : Option (Option String)

pub data Event : Type 0 where
  fault_opened fault_resolved : Event

-- The payload's status follows from its event, "open" or "resolved".
pub record Payload : Type 0 where
  pub event : Event
  pub rule_id : String
  pub point_uri : String
  pub detail : Option Value

pub record Job : Type 0 where
  pub webhook : Webhook
  pub payload : Payload

unfoldable pub fire_webhooks : List Webhook → Payload → List Job
fire_webhooks webhooks payload =
    map (λ w. record { webhook = w; payload = payload })
      (keep (λ w. matches_filter w.filter payload.rule_id) webhooks)

abbrev pub max_attempts : ℕ
max_attempts = 3

-- `shown` is `str` of the exception; the environment decides `allow_private`.
module _ (net : Network) (shown : Problem → String) (allow_private : Bool) (backoff_base : ℕ) where
  unfoldable pub record_outcome : HealthTable String → String → Delivery → HealthTable String
  record_outcome t webhook d =
      if d.success
      then record_webhook_success t webhook
      else (record_webhook_failure t webhook
          (elim d.last_error [ none ↦ "unknown error" | some e ↦ shown e ])).0

  -- The health table after the attempt, and the delivery if one was made.
  unfoldable pub deliver_and_record :
      HealthTable String → Job → HealthTable String × Option Delivery
  unfolding record_outcome
  deliver_and_record t job =
      let d = deliver net allow_private job.webhook.url backoff_base max_attempts in
      if is_webhook_disabled t job.webhook.id
      then (t, none)
      else (record_outcome t job.webhook.id d, some d)
