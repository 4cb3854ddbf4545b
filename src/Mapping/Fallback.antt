-- ===== src/Mapping/Fallback.antt =====
-- `classify_point_with_fallback`: the classifier that is consulted where no rule fits.
use timberdoodle.Base.{
  ℕ, String, Bool, true, false, Option, none, some, List, [], ◌∷◌, ltb, if◌then◌else◌, map,
  str_append,
}
use timberdoodle.Values.{text}
use timberdoodle.TripleStore.{literal, Graph, add_entity, add_relationship, brick, td}
use timberdoodle.Ingest.{objects_of}
use timberdoodle.Mapping.{
  MappingRule, Outcome, direct, classify_point, read_tags, texts_of, as_set, sorted, definition,
}

-- Confidence in millionths.
pub record Guess : Type 0 where
  pub brick_class : String
  pub confidence : ℕ
  pub reasoning : String

abbrev pub threshold : ℕ
threshold = 700000

-- The language model is an argument: tags, the source topic if there is one, the known classes.
abbrev pub Model : Type 0
Model = List String → Option String → List String → Guess

pub data Verdict : Type 0 where
  by_rule : Outcome → Verdict
  by_model : String → Verdict

abbrev pub is_direct_outcome : Outcome → Bool
is_direct_outcome (direct c) = true
is_direct_outcome _ = false

abbrev pub first_text : List String → Option String
first_text [] = none
first_text (s ∷ _) = some s

module _ (capitalize : String → String) (rules : List MappingRule) (point : String) where
  unfoldable pub guess_of : Model → Graph → Guess
  guess_of model g =
      model (read_tags point g) (first_text (texts_of (objects_of point (td "sourceTopic") g)))
        (sorted (as_set (map (λ (r : MappingRule). r.brick_class) rules)))

  unfoldable pub apply_guess : Guess → Graph → Graph
  apply_guess guess g =
      add_relationship point (definition capitalize)
        (literal (text (str_append "llm-classified: " guess.reasoning)))
        (add_entity point (brick guess.brick_class) g)

  unfoldable pub consult : Option Model → Graph × Outcome → Graph × Verdict
  unfolding guess_of apply_guess
  consult none (g, o) = (g, by_rule o)
  consult (some model) (g, o) =
      let guess = guess_of model g in
      if is_direct_outcome o
      then (g, by_rule o)
      else if ltb guess.confidence threshold
      then (g, by_rule o)
      else (apply_guess guess g, by_model guess.brick_class)

  unfoldable pub classify_point_with_fallback : Option Model → Graph → Graph × Verdict
  unfolding consult
  classify_point_with_fallback model g = consult model (classify_point capitalize rules point g)
