-- ===== src/FaultDetector/His.antt =====
-- His-mode rules: the sweep over `point_history`, which is one snapshot here.
use timberdoodle.Base.{
  ℕ, ◌+◌, String, Bool, true, false, ◌&&◌, Option, none, some, List, [], ◌∷◌, length, ◌==◌, leb,
  ltb, str_eq, if◌then◌else◌, contains, keep, map, str_append, or_else,
}
use timberdoodle.Values.{Instant}
use timberdoodle.FaultDetector.{Rule, Scope, Brick, is_text, both}
use timberdoodle.FaultDetector.Deliver.{Webhook}
use timberdoodle.FaultDetector.Cur.{Detector, Step, raise_fault, clear_fault}

-- A row of `point_history`; `shown` is what COALESCE makes of its three value columns.
pub record Reading : Type 0 where
  pub point_uri : String
  pub ts : Instant
  pub shown : Option String

-- SELECT DISTINCT
unfoldable pub dedupe : List String → List String
dedupe [] = []
dedupe (x ∷ xs) = let rest = dedupe xs in if contains rest x then rest else x ∷ rest

abbrev pub texts : List (Option String) → List String
texts [] = []
texts (none ∷ xs) = texts xs
texts (some x ∷ xs) = x ∷ texts xs

-- The window starts at `now - timedelta(seconds=...)`, the length in microseconds; the sum avoids an instant before the epoch.
unfoldable pub in_window : String → ℕ → Instant → Reading → Bool
in_window point seconds now r = str_eq r.point_uri point && leb now (r.ts + seconds)

unfoldable pub window : List Reading → String → ℕ → Instant → List Reading
unfolding in_window
window rows point seconds now = keep (in_window point seconds now) rows

unfoldable pub evaluate_stuck : List Reading → String → ℕ → Instant → Bool
unfolding dedupe
evaluate_stuck rows point seconds now =
    let seen = window rows point seconds now in
    ltb 0 (length seen) && (length (dedupe (texts (map (λ r. r.shown) seen))) == 1)

abbrev pub later : Instant → Option Instant → Instant
later t none = t
later t (some u) = if ltb t u then u else t

unfoldable pub max_ts : String → List Reading → Option Instant
max_ts point [] = none
max_ts point (r ∷ rs) =
    let rest = max_ts point rs in if str_eq r.point_uri point then some (later r.ts rest) else rest

unfoldable pub evaluate_stale : List Reading → String → ℕ → Instant → Bool
unfolding max_ts
evaluate_stale rows point max_age now = elim (max_ts point rows) [
  | none ↦ false
  | some t ↦ leb (t + max_age) now
]

unfoldable pub reported : List Reading → List String
unfolding dedupe
reported rows = dedupe (map (λ r. r.point_uri) rows)

module _ (fnmatch : String → String → Bool) (brick : Brick) (rows : List Reading)
    (webhooks : Option (List Webhook)) (now : Instant) where
  unfoldable pub members : String → Option (List String)
  unfolding reported
  members brick_class = elim brick [
    | none ↦ some []
    | some query ↦ both (query brick_class) (λ class. some (keep (contains class) (reported rows)))
  ]

  -- `none` is an exception. With no store a brick_class rule has no candidates.
  unfoldable pub candidates : Scope → Option (List String)
  unfolding members
  candidates scope = elim scope.brick_class [
    | some brick_class ↦ members brick_class
    | none ↦
        both scope.topic_glob
          (λ glob. some (keep (λ uri. fnmatch uri (str_append "urn:point:" glob)) (reported rows)))
  ]

  -- `some none` is a rule type that is passed over.
  unfoldable pub verdict : Rule → String → Option (Option Bool)
  unfolding evaluate_stuck evaluate_stale
  verdict rule point = both rule.type (λ type.
      if str_eq type "stuck"
      then both rule.stuck_seconds (λ n. some (some (evaluate_stuck rows point n now)))
      else if str_eq type "stale"
      then both rule.max_age_seconds (λ n. some (some (evaluate_stale rows point n now)))
      else some none)

  unfoldable pub judge_point : Rule → String → Detector → Step
  unfolding verdict raise_fault clear_fault
  judge_point rule point s = elim (verdict rule point) [
    | none ↦ (s, true)
    | some none ↦ (s, false)
    | some (some true) ↦
        raise_fault webhooks now rule.id point none none (or_else rule.severity "warning") s
    | some (some false) ↦ clear_fault webhooks now rule.id point none s
  ]

  unfoldable pub judge_points : Rule → List String → Detector → Step
  unfolding judge_point
  judge_points rule [] s = (s, false)
  judge_points rule (point ∷ points) s =
      let (s', raised) = judge_point rule point s in
      if raised then (s', true) else judge_points rule points s'

  unfoldable pub sweep_rule : Rule → Detector → Step
  unfolding judge_points candidates
  sweep_rule rule s =
      if is_text rule.mode "his"
      then elim (both rule.applies_to candidates) [
        | none ↦ (s, true)
        | some points ↦ judge_points rule points s
      ]
      else (s, false)

  unfoldable pub evaluate_his_rules : List Rule → Detector → Step
  unfolding sweep_rule
  evaluate_his_rules [] s = (s, false)
  evaluate_his_rules (rule ∷ rules) s =
      let (s', raised) = sweep_rule rule s in
      if raised then (s', true) else evaluate_his_rules rules s'
