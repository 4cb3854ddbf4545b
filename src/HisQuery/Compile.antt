-- ===== src/HisQuery/Compile.antt =====
-- src/timberdoodle/hisquery.py: `_Compiler`. Each leaf of a filter becomes a set of subjects, which
-- the query joins as a flag, and the filter becomes one expression over the flags. Flags are numbered
-- from 0 here, and printed as ?m1, ?m2, ...
use timberdoodle.Base.{
  ℕ, zero, suc, ◌+◌, String, Bool, true, false, not, ◌&&◌, ◌||◌, Option, none, some, List, [], ◌∷◌,
  ◌++◌, map, ◌==◌, contains, any, length, or_else, str_eq, str_append, is_none, if◌then◌else◌,
}
use Prim.Native.Char.{Char, code}
use timberdoodle.Base.Dict.{text_key, lookup}
use timberdoodle.Base.Text.{any_char}
use timberdoodle.Mapping.{starts_with}
use timberdoodle.TripleStore.{brick, proj}
use timberdoodle.BrickVocab.{
  Vocab, Index, get, canonical_class, canonical_tag, descendants, classes_with_tag,
}
use timberdoodle.HisQuery
use timberdoodle.HisQuery.{Literal, str, num, flag, ref_to, Node, has, cmp, and, or, bind}
use timberdoodle.HisQuery.Vocab.{
  GraphVocab, expand, classes_named, classes_tagged, looks_like_class,
}
pub mod Meaning
pub mod Correct
pub mod Answers
pub mod Refused
pub mod Quoted
pub mod Codepoints
mod Examples

-- The patterns that bind `?s`, with the number of the variable that they use.
pub data Pattern : Type 0 where
  tagged_with : String → Pattern
  typed_as_any : ℕ → List String → Pattern
  is_raw_point : Pattern
  is_point : ℕ → Pattern
  has_point : ℕ → Pattern
  is_site : Pattern
  refers_to : String → ℕ → String → Pattern
  is_point_of : String → Pattern
  compares : String → ℕ → String → Literal → Pattern

-- The text of the FILTER.
pub data Expr : Type 0 where
  bound : ℕ → Expr
  is_subject : String → Expr
  negated : Expr → Expr
  both either : Expr → Expr → Expr
  any_of : List ℕ → Expr

pub record Compiler : Type 0 where
  pub n : ℕ
  pub flags : List Pattern

pub record Vocabularies : Type 0 where
  pub vocab : Vocab
  pub rule_classes : Index
  pub graph : GraphVocab

-- Registers one pattern after the other; the flags' numbers.
unfoldable pub register : List Pattern → List Pattern → List ℕ × List Pattern
register [] flags = ([], flags)
register (p ∷ ps) flags =
    let (ms, flags') = register ps (flags ++ p ∷ []) in (length flags ∷ ms, flags')

-- `_any`
unfoldable pub any_expr : List ℕ → Expr
any_expr (m ∷ []) = bound m
any_expr ms = any_of ms

abbrev pub forbidden : Char → Bool
forbidden c =
    code c == b'<'
    || (code c == b'>'
        || (code c == b' '
            || (code c == 34
                || (code c == b'{'
                    || (code c == b'}'
                        || (code c == b'|'
                            || (code c == b'\\' || (code c == b'^' || code c == b'`'))))))))

-- `_uri`; `none` is a HisQueryError.
unfoldable pub checked_uri : String → Option String
checked_uri t = if any_char forbidden t then none else some t

unfoldable pub ref_to_equip_uri : String → String
ref_to_equip_uri r = if starts_with r "urn:" then r else str_append "urn:equip:haystack:" r

module _ (v : Vocabularies) where
  abbrev pub brick_names : Option String → String → List String
  unfolding descendants
  brick_names none name = name ∷ []
  brick_names (some c) name = or_else (descendants v.vocab c) []

  -- `vocab.descendants(cls) or {cls}`
  abbrev pub or_itself : List String → String → List String
  or_itself [] c = c ∷ []
  or_itself (d ∷ ds) c = d ∷ ds

  abbrev pub rule_names : List String → List String
  unfolding descendants
  rule_names [] = []
  rule_names (c ∷ cs) = or_itself (or_else (descendants v.vocab c) []) c ++ rule_names cs

  abbrev pub tag_names : Option String → List String
  unfolding classes_with_tag
  tag_names none = []
  tag_names (some t) = classes_with_tag v.vocab t

  -- The classes of a name, before `expand`.
  unfoldable pub class_iris : String → List String
  unfolding canonical_class canonical_tag classes_named classes_tagged looks_like_class lookup
      brick_names tag_names rule_names
  class_iris name =
      if looks_like_class name
      then map brick (brick_names (canonical_class v.vocab name) name)
        ++ proj name ∷ classes_named v.graph name
      else map brick
          (tag_names (canonical_tag v.vocab name) ++ rule_names (get name v.rule_classes))
        ++ (classes_tagged v.graph name ++ classes_named v.graph name)

  abbrev pub typed_patterns : ℕ → List String → List Pattern
  unfolding expand
  typed_patterns n [] = []
  typed_patterns n (c ∷ cs) = typed_as_any n (expand v.graph (c ∷ cs)) ∷ []

  -- `_STRUCTURAL_ALIASES`; a variable is taken for each.
  unfoldable pub structural : String → ℕ → List Pattern
  structural name n =
      if str_eq name "point"
      then is_raw_point ∷ is_point (n + 2) ∷ []
      else if str_eq name "equip"
      then has_point (n + 1) ∷ []
      else if str_eq name "site"
      then is_site ∷ []
      else []

  unfoldable pub has_patterns : String → ℕ → List Pattern
  unfolding class_iris expand structural
  has_patterns name n =
      let typed = typed_patterns (n + 1) (class_iris name) in
      tagged_with name ∷ typed ++ structural name (n + length typed)

  abbrev pub vars_of : List Pattern → ℕ
  vars_of [] = 0
  vars_of (tagged_with t ∷ ps) = vars_of ps
  vars_of (p ∷ ps) = suc (vars_of ps)

  unfoldable pub compile_has : String → Compiler → Expr × Compiler
  unfolding register any_expr has_patterns
  compile_has name c =
      let ps = has_patterns name c.n in
      let (ms, flags) = register ps c.flags in
      (any_expr ms, record { n = c.n + vars_of ps; flags = flags })

-- `e if node.op == "==" else f"(!{e})"`
abbrev pub signed : String → Expr → Expr
signed op e = if str_eq op "==" then e else negated e

abbrev pub is_equality : String → Bool
is_equality op = str_eq op "==" || str_eq op "!="

unfoldable pub compile_id : String → Literal → Compiler → Option (Expr × Compiler)
unfolding checked_uri
compile_id op (ref_to r) c =
    if is_equality op then bind (checked_uri r) (λ u. some (signed op (is_subject u), c)) else none
compile_id op _ c = none

abbrev pub ref_patterns : String → String → ℕ → String → List Pattern
ref_patterns name r n u =
    refers_to name n r ∷ (if str_eq name "equipRef" then is_point_of u ∷ [] else [])

-- The URI is looked at for `equipRef` alone.
abbrev pub equip_uri : String → String → Option String
unfolding checked_uri ref_to_equip_uri
equip_uri name r = if str_eq name "equipRef" then checked_uri (ref_to_equip_uri r) else some ""

unfoldable pub compile_ref : String → String → String → Compiler → Option (Expr × Compiler)
unfolding register any_expr checked_uri ref_to_equip_uri
compile_ref name op r c = bind (equip_uri name r) (λ u.
    let (ms, flags) = register (ref_patterns name r (c.n + 1) u) c.flags in
    some (signed op (any_expr ms), record { n = c.n + 1; flags = flags }))

abbrev pub compared : String → String → Literal → Compiler → Expr × Compiler
compared name op lit c = (
  bound (length c.flags),
  record { n = c.n + 1; flags = c.flags ++ compares name (c.n + 1) op lit ∷ [] },
)

unfoldable pub compile_value : String → String → Literal → Compiler → Option (Expr × Compiler)
unfolding compile_ref
compile_value name op (ref_to r) c = if is_equality op then compile_ref name op r c else none
compile_value name op (flag b) c =
    if is_equality op then some (compared name op (flag b) c) else none
compile_value name op lit c = some (compared name op lit c)

unfoldable pub compile_cmp : String → String → Literal → Compiler → Option (Expr × Compiler)
unfolding compile_id compile_value
compile_cmp name op lit c =
    if str_eq name "id" then compile_id op lit c else compile_value name op lit c

module _ (v : Vocabularies) where
  -- `expr`; the left side is compiled first. `none` is a HisQueryError.
  unfoldable pub expr : Node → Compiler → Option (Expr × Compiler)
  unfolding compile_has compile_cmp
  expr (has name) c = some (compile_has v name c)
  expr (cmp name op lit) c = compile_cmp name op lit c
  expr (HisQuery.not a) c = bind (expr a c) (λ r. some (negated r.0, r.1))
  expr (and a b) c = bind (expr a c) (λ r. bind (expr b r.1) (λ s. some (both r.0 s.0, s.1)))
  expr (or a b) c = bind (expr a c) (λ r. bind (expr b r.1) (λ s. some (either r.0 s.0, s.1)))

  -- `compile_filter`: the body of the FILTER, and the patterns of the flags.
  unfoldable pub compile_filter : Node → Option (Expr × List Pattern)
  unfolding expr
  compile_filter node = bind (expr node (record { n = 0; flags = [] })) (λ r. some (r.0, r.1.flags))

-- What the query selects, given the subjects of each pattern: a flag is bound for a subject of its
-- pattern.
module _ (subjects : Pattern → String → Bool) (s : String) where
  abbrev pub flagged : List Pattern → ℕ → Bool
  flagged [] m = false
  flagged (p ∷ ps) zero = subjects p s
  flagged (p ∷ ps) (suc m) = flagged ps m

  unfoldable pub evaluate : List Pattern → Expr → Bool
  evaluate flags (bound m) = flagged flags m
  evaluate flags (is_subject u) = str_eq s u
  evaluate flags (negated e) = not (evaluate flags e)
  evaluate flags (both a b) = evaluate flags a && evaluate flags b
  evaluate flags (either a b) = evaluate flags a || evaluate flags b
  evaluate flags (any_of ms) = any (flagged flags) ms
