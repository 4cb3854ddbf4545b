-- ===== src/HisQuery/Run/Examples.antt =====
-- Two entities and a class, of which the tag `ahu` selects one.
use timberdoodle.Base.{
  ◌≡◌, refl, String, false, not, ◌&&◌, some, List, [], ◌∷◌, contains, str_eq, keep,
}
use timberdoodle.BrickVocab.{new_vocab}
use timberdoodle.HisQuery.{has}
use timberdoodle.HisQuery.Vocab.{no_vocab, is_schema}
use timberdoodle.HisQuery.Compile.{Vocabularies, evaluate}
use timberdoodle.HisQuery.Compile.Meaning.{is_valid}
use timberdoodle.HisQuery.Compile.Answers.{World, matches, means}
use timberdoodle.Base.{if◌then◌else◌}
use timberdoodle.HisQuery.Run.{
  Answer, match_entities, Answered, run_query, expand_to_points, all_series, read_history,
  label_points,
}
use timberdoodle.HisQuery.Run.Stored.{stored}
use timberdoodle.HisQuery.Run.Raw.{IsRaw, run_query-IsRaw}
use timberdoodle.HisQuery.Calls.{Query, read_all}
use timberdoodle.HisQuery.Span.{date}
use timberdoodle.HisQuery.Span.Resolve.{Zone, resolve_span}
use timberdoodle.HisQuery.Describe.{describe_points}
use timberdoodle.TimeSeries
use timberdoodle.TimeSeries.{write_point_value}
use timberdoodle.Values.{num, null}
use timberdoodle.Base.Int.{pos}
use timberdoodle.Base.{Option, none, true, All, ◌*◌}
use timberdoodle.HisQuery.Run.Matches.{match_entities-means, contains-keep_iff}

abbrev bare : Vocabularies
bare = record { vocab = new_vocab [] []; rule_classes = []; graph = no_vocab }

abbrev graph : List String
graph = "urn:equip:a" ∷ "urn:equip:b" ∷ "https://brickschema.org/schema/Brick#AHU" ∷ []

abbrev world : World
world = record {
  tags = λ s. if str_eq s "urn:equip:b" then [] else "ahu" ∷ [];
  types = λ s. [];
  point_of = λ s. [];
  points = λ s. [];
  values = λ s name. [];
  compare = λ op x y. false;
  shown = λ x. "";
}

abbrev store : Answer
store q = keep (λ s. evaluate (matches world) s q.1 q.0) graph

match_entities-means_example :
    (found : List String) × (match_entities bare store (has "ahu") ≡ some found)
    × ((s : String)
        → contains found s
          ≡ (contains graph s && (means bare world s (has "ahu") && not (is_schema no_vocab s))))
unfolding is_valid
match_entities-means_example =
    match_entities-means bare world graph store
      (λ q s. contains-keep_iff (λ u. evaluate (matches world) u q.1 q.0) graph s) (has "ahu") refl

matches_test : match_entities bare store (has "ahu") ≡ some ("urn:equip:a" ∷ [])
unfolding match_entities evaluate new_vocab
matches_test = refl

-- Three samples of one point, two of them on the day that the query asks for.
abbrev samples : TimeSeries.History
samples =
    write_point_value
      (write_point_value (write_point_value [] "urn:point:p" (num (pos 1)) 250 none none)
        "urn:point:p" (num (pos 2)) 310 none none)
      "urn:point:p" (num (pos 3)) 350 none none

abbrev zone : Zone
zone = record { date_of = λ n. date 2026 9 3; midnight = λ d. d.day * 100 }

abbrev query : Query
query = record {
  mode = read_all;
  filter = has "ahu";
  filter_text = "ahu";
  span_text = none;
  rollup = none;
}

abbrev outcome : Option Answered
outcome =
    run_query bare (λ n xs. []) [] store (λ us. "urn:point:p" ∷ []) (λ us. [])
      (stored (λ u t. t) (λ f zs. null) samples) query (some zone) 310 1

-- The later of the two is cut.
abbrev expected : Answered
expected = record {
  span = record { start = 300; end = 400; label = "today" };
  matched = "urn:equip:a" ∷ [];
  hints = [];
  series =
      record {
        info = record {
          id = "urn:point:p";
          point = "p";
          dis = "p";
          dis_from_tag = false;
          unit = none;
          kind = some "Number";
          brick_class = none;
          tags = [];
          equip = none;
          equip_dis = none;
        };
        history = (310, num (pos 2)) ∷ [];
        truncated = true;
      }
      ∷ [];
}

answers : outcome ≡ some expected
unfolding run_query stored resolve_span match_entities expand_to_points describe_points label_points
    read_history all_series evaluate new_vocab write_point_value
answers = refl

run_query-IsRaw_example :
    (resolve_span (some zone) none 310 ≡ some expected.span)
    × All (IsRaw samples expected.span 1) expected.series
run_query-IsRaw_example =
    run_query-IsRaw bare (λ n xs. []) [] store (λ us. "urn:point:p" ∷ []) (λ us. []) (λ u t. t)
      (λ f zs. null) samples query (some zone) 310 1 expected refl answers
