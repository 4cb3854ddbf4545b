-- ===== src/HisQuery/Vocab.antt =====
-- src/timberdoodle/hisquery.py: `GraphVocab`, what the live graph declares on top of Brick. The rows
-- of the one query that `graph_vocab` sends are given, the predicate by its local name.
use timberdoodle.Base.{
  ℕ, suc, ◌+◌, String, Bool, true, false, not, ◌&&◌, ◌||◌, Option, none, some, List, [], ◌∷◌, ◌++◌,
  ◌==◌, contains, length, or_else, str_eq, any, if◌then◌else◌,
}
use Prim.Native.Char.{Char, code}
use timberdoodle.Base.Dict.{text_key, lookup, insert}
use timberdoodle.Base.Text.{lower, is_upper, any_char, after_last}
use timberdoodle.Base.Closure.{closure, cost}
use timberdoodle.Mapping.{MappingRule, starts_with}
use timberdoodle.TripleStore.{brick}
use timberdoodle.BrickVocab.{Index, add, get, put, haystack_to_brick_tag}
pub mod Declared
pub mod Schema

abbrev pub vocabulary_namespaces : List String
vocabulary_namespaces =
    "https://brickschema.org/" ∷ "https://w3id.org/rec#" ∷ "https://w3id.org/rec/"
    ∷ "https://w3id.org/ref#" ∷ "http://www.w3.org/" ∷ "http://qudt.org/" ∷ []

unfoldable pub in_vocabulary_namespace : String → Bool
in_vocabulary_namespace iri = any (starts_with iri) vocabulary_namespaces

unfoldable pub looks_like_class : String → Bool
looks_like_class name = any_char (λ c. code c == b'_') name || any_char is_upper name

abbrev pub put_rule : List String → String → Index → Index
unfolding put
put_rule [] c d = d
put_rule (t ∷ ts) c d = put_rule ts c (put t c d)

-- `out.setdefault(tag, set()).add(rule["brick_class"])` over the rules of both files
unfoldable pub rule_classes_by_tag : List MappingRule → Index → Index
unfolding put
rule_classes_by_tag [] d = d
rule_classes_by_tag (r ∷ rs) d = rule_classes_by_tag rs (put_rule r.tags r.brick_class d)

abbrev pub is_separator : Char → Bool
is_separator c = code c == b'#' || (code c == b'/' || code c == b':')

unfoldable pub local_name : String → String
local_name uri = after_last is_separator uri

pub record GraphVocab : Type 0 where
  pub children : Index
  pub equivalents : Index
  pub tagged : Index
  pub by_name : Index
  pub schema_iris : List String

abbrev pub no_vocab : GraphVocab
no_vocab = record { children = []; equivalents = []; tagged = []; by_name = []; schema_iris = [] }

unfoldable pub add_class : String → GraphVocab → GraphVocab
unfolding put local_name lower
add_class iri g = record g {
  schema_iris = add iri g.schema_iris;
  by_name =
      if starts_with iri (brick "") then g.by_name else put (lower (local_name iri)) iri g.by_name;
}

abbrev pub neighbours : GraphVocab → String → List String
unfolding lookup
neighbours g n = get n g.equivalents ++ get n g.children

abbrev pub keys : Index → List String
keys [] = []
keys ((k, v) ∷ d) = k ∷ keys d

-- What the loop may pop: what it starts from, and what the IRIs with an entry push when they are
-- visited.
abbrev pub expand_fuel : GraphVocab → List String → ℕ
expand_fuel g iris =
    length iris + cost (λ _. true) (neighbours g) (keys g.equivalents ++ keys g.children) []

unfoldable pub expand : GraphVocab → List String → List String
unfolding closure cost neighbours
expand g iris = or_else (closure (λ _. true) (neighbours g) (expand_fuel g iris) iris []) []

unfoldable pub classes_named : GraphVocab → String → List String
unfolding lower lookup
classes_named g name = get (lower name) g.by_name

abbrev pub tag_word : String → String
unfolding lower lookup
tag_word word = lower (or_else (lookup (lower word) haystack_to_brick_tag) "")

unfoldable pub classes_tagged : GraphVocab → String → List String
unfolding lower lookup
classes_tagged g word = get (lower word) g.tagged ++ get (tag_word word) g.tagged

unfoldable pub is_schema : GraphVocab → String → Bool
unfolding in_vocabulary_namespace
is_schema g iri = contains g.schema_iris iri || in_vocabulary_namespace iri

pub record Row : Type 0 where
  pub sub : String
  pub predicate : String
  pub obj : String

unfoldable pub add_row : Row → GraphVocab → GraphVocab
unfolding put add_class lower local_name
add_row r g =
    if str_eq r.predicate "subClassOf"
    then add_class r.obj (add_class r.sub (record g { children = put r.obj r.sub g.children }))
    else if str_eq r.predicate "equivalentClass"
    then add_class r.obj (
        add_class r.sub
          (record g { equivalents = put r.obj r.sub (put r.sub r.obj g.equivalents) }))
    else if str_eq r.predicate "hasAssociatedTag"
    then (let h =
          add_class r.sub (record g { tagged = put (lower (local_name r.obj)) r.sub g.tagged }) in
        record h { schema_iris = add r.obj h.schema_iris })
    else record g { schema_iris = add r.sub g.schema_iris }

unfoldable pub graph_vocab : List Row → GraphVocab → GraphVocab
unfolding add_row
graph_vocab [] g = g
graph_vocab (r ∷ rs) g = graph_vocab rs (add_row r g)
