-- ===== src/FaultDetector/Watch.antt =====
-- The daemon as a sequence of turns: readings on the MQTT thread and sweeps on the main thread. Each
-- statement is atomic in the database, and a turn is taken whole here.
use timberdoodle.Base.{
  ℕ, String, Bool, true, false, ◌≡◌, refl, Option, none, some, List, [], ◌∷◌, Option-cases,
  Bool-cases, inl, inr,
}
use timberdoodle.Values.{Instant, Value}
use timberdoodle.JsonStore.{File}
use timberdoodle.FaultDetector.{Rule, RuleCache, Brick, get, both, is_text}
use timberdoodle.FaultDetector.Deliver.{Webhook}
use timberdoodle.FaultDetector.Cur.{
  Detector, Message, undecodable, not_an_object, object, handle_cur_reading, on_message,
}
use timberdoodle.FaultDetector.His.{
  Reading, verdict, judge_point, judge_points, candidates, sweep_rule, evaluate_his_rules,
}
use timberdoodle.FaultDetector.Edges.{
  IsBalanced, raise_fault-IsBalanced, clear_fault-IsBalanced, handle_rules-Keeps,
}

-- What a turn finds: the rules file, the time, and a message or the history.
pub data Turn : Type 0 where
  message : Option ℕ → File Rule → Instant → String → Message → Turn
  sweep : Option ℕ → File Rule → Instant → List Reading → Turn

module _ (fnmatch : String → String → Bool) (brick : Brick) (ws : List Webhook) where
  -- An exception ends its turn only, with what the turn had written.
  unfoldable pub take_turn : Turn → RuleCache × Detector → RuleCache × Detector
  take_turn (message stat file now topic m) s =
      (on_message fnmatch brick stat file (some ws) now topic m s).0
  take_turn (sweep stat file now rows) (c, s) =
      let (c', found) = get brick c stat file in
      elim found [
        | none ↦ (c', s)
        | some rules ↦ (c', (evaluate_his_rules fnmatch brick rows (some ws) now rules s).0)
      ]

  unfoldable pub take_turns : List Turn → RuleCache × Detector → RuleCache × Detector
  unfolding take_turn
  take_turns [] s = s
  take_turns (t ∷ ts) s = take_turns ts (take_turn t s)

  module _ (rows : List Reading) (now : Instant) (r p : String) where
    judge_point-Keeps :
        (rule : Rule) (point : String) (s : Detector)
        → IsBalanced ws r p s
        → IsBalanced ws r p (judge_point fnmatch brick rows (some ws) now rule point s).0
    unfolding judge_point
    judge_point-Keeps rule point s h =
        by_verdict (verdict fnmatch brick rows (some ws) now rule point) refl
      where
        by_verdict :
            (o : Option (Option Bool))
            → verdict fnmatch brick rows (some ws) now rule point ≡ o
            → IsBalanced ws r p (judge_point fnmatch brick rows (some ws) now rule point s).0
        by_verdict none e = rw (e, judge_point) h
        by_verdict (some none) e = rw (e, judge_point) h
        by_verdict (some (some true)) e =
            rw (e, judge_point) (raise_fault-IsBalanced ws now rule.id point none none _ s r p h)
        by_verdict (some (some false)) e =
            rw (e, judge_point) (clear_fault-IsBalanced ws now rule.id point none s r p h)

    judge_points-Keeps :
        (rule : Rule) (points : List String) (s : Detector)
        → IsBalanced ws r p s
        → IsBalanced ws r p (judge_points fnmatch brick rows (some ws) now rule points s).0
    unfolding judge_points
    judge_points-Keeps rule [] s h = h
    judge_points-Keeps rule (q ∷ qs) s h =
        let first = judge_point-Keeps rule q s h in
        elim (Bool-cases (judge_point fnmatch brick rows (some ws) now rule q s).1) [
          | inl e ↦ rw (e, judge_points) first
          | inr e ↦
              rw (e, judge_points)
                (judge_points-Keeps rule qs
                  (judge_point fnmatch brick rows (some ws) now rule q s).0 first)
        ]

    sweep_rule-Keeps :
        (rule : Rule) (s : Detector)
        → IsBalanced ws r p s
        → IsBalanced ws r p (sweep_rule fnmatch brick rows (some ws) now rule s).0
    unfolding sweep_rule
    sweep_rule-Keeps rule s h = elim (Bool-cases (is_text rule.mode "his")) [
      | inr e ↦ rw (e, sweep_rule) h
      | inl e ↦
          elim (Option-cases (both rule.applies_to (candidates fnmatch brick rows (some ws) now))) [
            | inl f ↦ rw (e, sweep_rule) (rw (f, sweep_rule) h)
            | inr (ps, f) ↦ rw (e, sweep_rule) (rw (f, sweep_rule) (judge_points-Keeps rule ps s h))
          ]
    ]

    evaluate_his_rules-Keeps :
        (rules : List Rule) (s : Detector)
        → IsBalanced ws r p s
        → IsBalanced ws r p (evaluate_his_rules fnmatch brick rows (some ws) now rules s).0
    unfolding evaluate_his_rules
    evaluate_his_rules-Keeps [] s h = h
    evaluate_his_rules-Keeps (rule ∷ rules) s h =
        let first = sweep_rule-Keeps rule s h in
        elim (Bool-cases (sweep_rule fnmatch brick rows (some ws) now rule s).1) [
          | inl e ↦ rw (e, evaluate_his_rules) first
          | inr e ↦
              rw (e, evaluate_his_rules)
                (evaluate_his_rules-Keeps rules
                  (sweep_rule fnmatch brick rows (some ws) now rule s).0 first)
        ]

  module _ (r p : String) where
    reading-Keeps :
        (stat : Option ℕ) (file : File Rule) (now : Instant) (topic : String) (v : Value)
        (s : RuleCache × Detector)
        → IsBalanced ws r p s.1
        → IsBalanced ws r p (handle_cur_reading fnmatch brick stat file (some ws) now topic v s).0.1
    unfolding handle_cur_reading
    reading-Keeps stat file now topic v (c, s) h = elim (Option-cases (get brick c stat file).1) [
      | inl e ↦ rw (e, handle_cur_reading) h
      | inr (rules, e) ↦
          rw (e, handle_cur_reading)
            (handle_rules-Keeps fnmatch (get brick c stat file).0 ws now topic v r p rules s h)
    ]

    take_turn-Keeps :
        (t : Turn) (s : RuleCache × Detector)
        → IsBalanced ws r p s.1
        → IsBalanced ws r p (take_turn t s).1
    unfolding take_turn on_message
    take_turn-Keeps (message stat file now topic undecodable) s h = h
    take_turn-Keeps (message stat file now topic not_an_object) s h = h
    take_turn-Keeps (message stat file now topic (object v)) s h =
        reading-Keeps stat file now topic _ s h
    take_turn-Keeps (sweep stat file now rows) (c, s) h =
        elim (Option-cases (get brick c stat file).1) [
          | inl e ↦ rw (e, take_turn) h
          | inr (rules, e) ↦ rw (e, take_turn) (evaluate_his_rules-Keeps rows now r p rules s h)
        ]

-- Over any sequence of readings and sweeps, whatever rules, errors and times they meet, each rule and
-- point has had as many `fault.opened` deliveries started as `fault.resolved` ones, and while its
-- fault is open one more for each webhook that its rule goes to; the webhooks stay the same.
pub take_turns-IsBalanced :
    (fnmatch : String → String → Bool) (brick : Brick) (ws : List Webhook) (ts : List Turn)
    (s : RuleCache × Detector) (r p : String)
    → IsBalanced ws r p s.1
    → IsBalanced ws r p (take_turns fnmatch brick ws ts s).1
unfolding take_turns
take_turns-IsBalanced fnmatch brick ws [] s r p h = h
take_turns-IsBalanced fnmatch brick ws (t ∷ ts) s r p h =
    take_turns-IsBalanced fnmatch brick ws ts (take_turn fnmatch brick ws t s) r p
      (take_turn-Keeps fnmatch brick ws r p t s h)
