-- ===== src/HisQuery/Calls/Examples.antt =====
-- `readAll(ahu).hisRead(today).hisRollup(avg, 15min)`.
use timberdoodle.Base.{◌≡◌, refl, String, some, List, [], ◌∷◌}
use timberdoodle.BrickVocab.{new_vocab}
use timberdoodle.HisQuery.{Token, number, name, lparen, rparen, comma, dot, has}
use timberdoodle.HisQuery.Vocab.{no_vocab}
use timberdoodle.HisQuery.Compile.{Vocabularies, Expr, Pattern, compile_filter}
use timberdoodle.HisQuery.Span.{date}
use timberdoodle.HisQuery.Span.Resolve.{Zone}
use timberdoodle.HisQuery.Calls.{read_all, Query, parse_query}
use timberdoodle.HisQuery.Calls.Accepted.{parse_query-compiles}

abbrev calls : List Token
calls =
    dot
    ∷ name "hisRead"
    ∷ lparen
    ∷ name "today"
    ∷ rparen
    ∷ dot
    ∷ name "hisRollup"
    ∷ lparen
    ∷ name "avg"
    ∷ comma
    ∷ number "15" (some "min")
    ∷ rparen
    ∷ []

abbrev tokens : List Token
tokens = name "readAll" ∷ lparen ∷ name "ahu" ∷ rparen ∷ calls

abbrev text : List Token → List Token → String
text (name n ∷ ts) us = n
text ts us = ""

abbrev utc : Zone
utc = record { date_of = λ n. date 2000 1 1; midnight = λ t. t.day }

abbrev bare : Vocabularies
bare = record { vocab = new_vocab [] []; rule_classes = []; graph = no_vocab }

abbrev query : Query
query = record {
  mode = read_all;
  filter = has "ahu";
  filter_text = "ahu";
  span_text = some "today";
  rollup = some (record { fold = "avg"; interval = "15min" });
}

parse_query_test : parse_query text utc 0 bare tokens ≡ some query
unfolding parse_query new_vocab
parse_query_test = refl

parse_query-compiles_example :
    (r : Expr × List Pattern) × (compile_filter bare (has "ahu") ≡ some r)
parse_query-compiles_example =
    parse_query-compiles text utc 0 bare tokens query no_vocab parse_query_test
