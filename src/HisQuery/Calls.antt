-- ===== src/HisQuery/Calls.antt =====
-- src/timberdoodle/hisquery.py: `Parser.parse` and `parse_query`, the calls after the filter. The text
-- of the source from one token up to another is a parameter, which takes what is left at either.
use timberdoodle.Base.{
  ℕ, zero, suc, ◌+◌, ◌-◌, String, Bool, true, false, not, ◌&&◌, ◌||◌, Option, none, some, List, [],
  ◌∷◌, ◌++◌, contains, length, or_else, str_append, str_eq, is_some, is_none, if◌then◌else◌,
}
use timberdoodle.Base.Text.{strip}
use timberdoodle.HisQuery.{
  Token, number, name, lparen, rparen, comma, dot, Node, parse_filter, bind, ◌>>=◌,
}
use timberdoodle.HisQuery.Interval.{Interval, parse_interval}
use timberdoodle.HisQuery.Compile.{Vocabularies, compile_filter}
use timberdoodle.HisQuery.Span.Resolve.{Zone, resolve_span}
pub mod Accepted
pub mod Fuel
mod Examples

pub data Mode : Type 0 where
  read read_all : Mode

pub record Rollup : Type 0 where
  pub fold : String
  pub interval : String

pub record Query : Type 0 where
  pub mode : Mode
  pub filter : Node
  pub filter_text : String
  pub span_text : Option String
  pub rollup : Option Rollup

abbrev pub folds : List String
folds = "avg" ∷ "min" ∷ "max" ∷ "sum" ∷ "count" ∷ []

pub data Paren : Type 0 where
  opens closes other : Paren

abbrev pub paren : Token → Paren
paren lparen = opens
paren rparen = closes
paren _ = other

abbrev pub at_token : Paren → ℕ → List Token → (ℕ → Option (List Token)) → Option (List Token)
at_token opens depth here later = later (suc depth)
at_token closes zero here later = some here
at_token closes (suc depth) here later = later depth
at_token other depth here later = later depth

-- From behind `hisRead(`: what is left at the closing parenthesis, the parentheses in between matched.
unfoldable pub to_close : List Token → ℕ → Option (List Token)
to_close [] depth = none
to_close (t ∷ ts) depth = at_token (paren t) depth (t ∷ ts) (to_close ts)

abbrev pub behind : List Token → List Token
behind [] = []
behind (t ∷ ts) = ts

module _ (source : List Token → List Token → String) (utc : Zone) (start_of_2000 : ℕ) where
  unfoldable pub validate_span_text : String → Option String
  unfolding resolve_span
  validate_span_text t = bind (resolve_span (some utc) (some t) start_of_2000) (λ s. some t)

  abbrev pub span_of : List Token → List Token → Option (String × List Token)
  unfolding validate_span_text strip
  span_of ts close =
      let t = strip (source ts close) in
      if str_eq t "" then none else bind (validate_span_text t) (λ u. some (u, behind close))

abbrev pub interval_text : String → Option String → String
interval_text n unit = str_append n (or_else unit "")

-- `_expect`: the next token, if it is of the kind.
unfoldable pub expect {ℓ} : {A : Type ℓ} → (Token → Option A) → List Token → Option (A × List Token)
expect kind [] = none
expect kind (t ∷ ts) = bind (kind t) (λ a. some (a, ts))

abbrev pub punct_lparen : Token → Option Bool
punct_lparen lparen = some true
punct_lparen _ = none

abbrev pub punct_rparen : Token → Option Bool
punct_rparen rparen = some true
punct_rparen _ = none

abbrev pub punct_comma : Token → Option Bool
punct_comma comma = some true
punct_comma _ = none

abbrev pub a_name : Token → Option String
a_name (name n) = some n
a_name _ = none

abbrev pub punct_dot : Token → Option Bool
punct_dot dot = some true
punct_dot _ = none

-- `.`, and the name of the call
unfoldable pub next_call : List Token → Option (String × List Token)
unfolding expect
next_call ts = do d ← expect punct_dot ts; expect a_name d.1

-- The text of a number with its unit
abbrev pub a_number : Token → Option String
a_number (number n unit) = some (interval_text n unit)
a_number _ = none

abbrev pub known_fold : String × List Token → Option (String × List Token)
known_fold r = if contains folds r.0 then some r else none

abbrev pub checked_interval : String × List Token → Option (String × List Token)
unfolding parse_interval
checked_interval r = bind (parse_interval (strip r.0)) (λ i. some r)

-- `hisRollup(`, with what follows the name
unfoldable pub parse_his_rollup : List Token → Option (Rollup × List Token)
unfolding expect checked_interval
parse_his_rollup ts = do
  a ← expect punct_lparen ts
  f ← bind (expect a_name a.1) known_fold
  b ← expect punct_comma f.1
  i ← bind (expect a_number b.1) checked_interval
  c ← expect punct_rparen i.1
  some (record { fold = f.0; interval = i.0 }, c.1)

pub record Calls : Type 0 where
  pub span_text : Option String
  pub rollup : Option Rollup

module _ (source : List Token → List Token → String) (utc : Zone) (start_of_2000 : ℕ) where
  -- `hisRead(`, with what follows the name
  unfoldable pub parse_his_read : List Token → Option (String × List Token)
  unfolding to_close span_of expect
  parse_his_read ts = do
    a ← expect punct_lparen ts
    close ← to_close a.1 zero
    span_of source utc start_of_2000 a.1 close

  -- One call, by its name.
  unfoldable pub parse_call : Calls → String → List Token → Option (Calls × List Token)
  unfolding parse_his_read parse_his_rollup
  parse_call c fn ts =
      if str_eq fn "hisRead"
      then if is_some c.span_text
        then none
        else bind (parse_his_read ts) (λ r. some (record c { span_text = some r.0 }, r.1))
      else if str_eq fn "hisRollup"
      then if is_some c.rollup
        then none
        else bind (parse_his_rollup ts) (λ r. some (record c { rollup = some r.0 }, r.1))
      else none

  -- `while self._at("PUNCT", ".")`, and then the end of the input. Each round takes two tokens at
  -- least.
  unfoldable pub parse_calls : ℕ → Calls → List Token → Option Calls
  unfolding parse_call next_call
  parse_calls fuel c [] = some c
  parse_calls zero c (t ∷ ts) = none
  parse_calls (suc fuel) c (t ∷ ts) = do
    n ← next_call (t ∷ ts)
    r ← parse_call c n.0 n.1
    parse_calls fuel r.0 r.1

  abbrev pub finish : Mode → Node → String → List Token → Option Query
  unfolding parse_calls
  finish mode node text ts =
      bind (parse_calls (length ts) (record { span_text = none; rollup = none }) ts) (λ c.
        some (record {
          mode = mode;
          filter = node;
          filter_text = text;
          span_text = c.span_text;
          rollup = c.rollup;
        }))

  abbrev pub closed : Mode → List Token → Node × List Token → Option Query
  unfolding finish
  closed mode start (node, rparen ∷ ts) = finish mode node (strip (source start (rparen ∷ ts))) ts
  closed mode start _ = none

  abbrev pub wrapped : Mode → List Token → Option Query
  unfolding parse_filter closed
  wrapped mode ts = bind (parse_filter ts) (λ r. closed mode ts r)

  abbrev pub bare : List Token → Option Query
  unfolding parse_filter finish strip
  bare ts = bind (parse_filter ts) (λ r. finish read_all r.0 (strip (source ts r.1)) r.1)

  unfoldable pub parse : List Token → Option Query
  unfolding wrapped bare
  parse (name fn ∷ lparen ∷ ts) =
      if str_eq fn "read"
      then wrapped read ts
      else if str_eq fn "readAll"
      then wrapped read_all ts
      else bare (name fn ∷ lparen ∷ ts)
  parse ts = bare ts

  -- `parse_query`, from the tokens of a text that is not blank: the filter is compiled without a
  -- graph for its errors.
  unfoldable pub parse_query : Vocabularies → List Token → Option Query
  unfolding parse compile_filter
  parse_query v ts = bind (parse ts) (λ q. bind (compile_filter v q.filter) (λ c. some q))
