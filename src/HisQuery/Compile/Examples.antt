-- ===== src/HisQuery/Compile/Examples.antt =====
-- `ahu and equipRef != @AHU-1` over a graph where no pattern has a subject but the tag.
use timberdoodle.Base.{◌≡◌, refl, String, true, false, some, List, [], ◌∷◌}
use timberdoodle.BrickVocab.{new_vocab}
use timberdoodle.HisQuery.{Node, has, cmp, and, ref_to}
use timberdoodle.HisQuery.Vocab.{no_vocab}
use timberdoodle.HisQuery.Compile.{
  Pattern, tagged_with, Expr, Vocabularies, bound, negated, both, any_of, compile_filter, evaluate,
  refers_to, is_point_of,
}
use timberdoodle.HisQuery.Compile.Meaning.{is_valid}
use timberdoodle.HisQuery.Compile.Answers.{World, matches, means, compile_filter-means}
use timberdoodle.Base.{if◌then◌else◌, str_eq}
use Prim.Native.Char.{code}
use timberdoodle.Mapping.{starts_with}
use timberdoodle.Base.{ℕ, zero, suc, ◌&&◌, ◌==◌}
use timberdoodle.HisQuery.Compile.Quoted.{sparql_string, read_literal}

abbrev bare : Vocabularies
bare = record { vocab = new_vocab [] []; rule_classes = []; graph = no_vocab }

abbrev not_of_one : Node
not_of_one = and (has "ahu") (cmp "equipRef" "!=" (ref_to "AHU-1"))

abbrev world : World
world = record {
  tags = λ s. "ahu" ∷ [];
  types = λ s. [];
  point_of = λ s. if str_eq s "urn:point:a" then "urn:equip:haystack:AHU-1" ∷ [] else [];
  points = λ s. [];
  values = λ s name. [];
  compare = λ op x y. false;
  shown = λ x. "";
}

compile_test :
    compile_filter bare not_of_one
    ≡ some (
      both (bound 0) (negated (any_of (1 ∷ 2 ∷ []))),
      tagged_with "ahu"
          ∷ refers_to "equipRef" 1 "AHU-1"
          ∷ is_point_of "urn:equip:haystack:AHU-1"
          ∷ [],
    )
unfolding compile_filter new_vocab
compile_test = refl

-- An entity without any `equipRef` is selected, and a point of the equipment is not.
of_one_test :
    (means bare world "urn:point:b" not_of_one ≡ true)
    × (means bare world "urn:point:a" not_of_one ≡ false)
unfolding means new_vocab
of_one_test = (refl, refl)

compile_filter-means_example :
    (q : Expr × List Pattern) × (compile_filter bare not_of_one ≡ some q)
    × ((s : String) → evaluate (matches world) s q.1 q.0 ≡ means bare world s not_of_one)
unfolding is_valid
compile_filter-means_example = compile_filter-means bare world not_of_one refl

-- Replaces `\u0022` by a quote; the number counts the characters that have been taken.
abbrev expand_quotes : ℕ → String → String
expand_quotes skip String.[] = String.[]
expand_quotes (suc skip) (String.◌∷◌ c s) = expand_quotes skip s
expand_quotes zero (String.◌∷◌ c s) =
    let quoted = String.◌∷◌ "\"" (expand_quotes 5 s) in
    let kept = String.◌∷◌ c (expand_quotes 0 s) in
    if (code c == 92) && starts_with s "u0022" then quoted else kept

-- The text `\u0022` is read as a quote.
codepoint_test : read_literal (expand_quotes 0 (sparql_string "\\u0022")) ≡ some ("\"", "")
unfolding read_literal sparql_string
codepoint_test = refl
