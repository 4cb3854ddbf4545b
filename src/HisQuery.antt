-- ===== src/HisQuery.antt =====
-- src/timberdoodle/hisquery.py: the filter grammar on tokens, and the rollup intervals. Positions serve
-- error texts only, and the end of the list is the EOF token.
use timberdoodle.Base.{
  ℕ, zero, suc, ◌+◌, ◌*◌, ◌≡◌, refl, String, Bool, true, false, ◌&&◌, ◌||◌, Option, none, some,
  List, [], ◌∷◌, ◌==◌, length, if◌then◌else◌,
}
use Prim.Native.Char.{Char, code}
pub mod Vocab
pub mod Compile
pub mod Span
pub mod Calls
pub mod Describe
pub mod Run
pub mod Print
pub mod Steps
pub mod RoundTrip
pub mod Interval
mod Examples

-- A string carries what stands between its quotes, a reference what follows its `@`.
pub data Token : Type 0 where
  string : String → Token
  number : String → Option String → Token
  ref : String → Token
  op : String → Token
  name : String → Token
  date month : String → Token
  lparen rparen comma dot range arrow : Token
  kw_and kw_or kw_not kw_true kw_false kw_null : Token

-- The value of a comparison; a number keeps its text, and its unit is dropped.
pub data Literal : Type 0 where
  str : String → Literal
  num : String → Literal
  flag : Bool → Literal
  ref_to : String → Literal

pub data Node : Type 0 where
  has : String → Node
  cmp : String → String → Literal → Node
  not : Node → Node
  and : Node → Node → Node
  or : Node → Node → Node

abbrev pub unescaped : Char → Char
unescaped c = if code c == b'n' then "\n" else if code c == b't' then "\t" else c

-- `re.sub(r"\\(.)", ...)`: a backslash and what follows it, but a line feed.
unfoldable pub unescape_string : String → String
unescape_string String.[] = String.[]
unescape_string (String.◌∷◌ c String.[]) = String.◌∷◌ c String.[]
unescape_string (String.◌∷◌ c (String.◌∷◌ d s)) =
    let escaped = String.◌∷◌ (unescaped d) (unescape_string s) in
    let plain = String.◌∷◌ c (unescape_string (String.◌∷◌ d s)) in
    if code c == b'\\' && (if code d == 10 then false else true) then escaped else plain

unfoldable pub parse_value : List Token → Option (Literal × List Token)
unfolding unescape_string
parse_value (string s ∷ ts) = some (str (unescape_string s), ts)
parse_value (number n unit ∷ ts) = some (num n, ts)
parse_value (kw_true ∷ ts) = some (flag true, ts)
parse_value (kw_false ∷ ts) = some (flag false, ts)
parse_value (ref id ∷ ts) = some (ref_to id, ts)
parse_value _ = none

-- `none` is a HisQueryError.
abbrev pub bind {ℓ κ} : {A : Type ℓ} {B : Type κ} → Option A → (A → Option B) → Option B
bind none f = none
bind (some a) f = f a

infixl 5 ◌>>=◌
abbrev pub ◌>>=◌ {ℓ κ} : {A : Type ℓ} {B : Type κ} → Option A → (A → Option B) → Option B
m >>= f = bind m f

-- What a step that gives a result went through.
pub bind-cases :
    {A B : Type 0} (o : Option A) (f : A → Option B) (b : B)
    → bind o f ≡ some b
    → (a : A) × (o ≡ some a) × (f a ≡ some b)
bind-cases none f b h = cc
bind-cases (some a) f b h = (a, refl, h)

abbrev pub expect_rparen : Node × List Token → Option (Node × List Token)
expect_rparen (n, rparen ∷ ts) = some (n, ts)
expect_rparen _ = none

-- What follows a tag's name: a path, a comparison, or nothing of the term.
unfoldable pub parse_rest : String → List Token → Option (Node × List Token)
unfolding parse_value
parse_rest tag (arrow ∷ ts) = none
parse_rest tag (op o ∷ ts) = bind (parse_value ts) (λ v. some (cmp tag o v.0, v.1))
parse_rest tag ts = some (has tag, ts)

-- Which of the five parts runs. Each call takes a unit of fuel.
pub data Goal : Type 0 where
  filter conj term : Goal
  or_loop and_loop : Node → Goal

unfoldable pub parse_goal : ℕ → Goal → List Token → Option (Node × List Token)
unfolding parse_rest
parse_goal zero g ts = none
parse_goal (suc fuel) filter ts =
    bind (parse_goal fuel conj ts) (λ r. parse_goal fuel (or_loop r.0) r.1)
parse_goal (suc fuel) conj ts =
    bind (parse_goal fuel term ts) (λ r. parse_goal fuel (and_loop r.0) r.1)
parse_goal (suc fuel) (or_loop n) (kw_or ∷ ts) =
    bind (parse_goal fuel conj ts) (λ r. parse_goal fuel (or_loop (or n r.0)) r.1)
parse_goal (suc fuel) (or_loop n) ts = some (n, ts)
parse_goal (suc fuel) (and_loop n) (kw_and ∷ ts) =
    bind (parse_goal fuel term ts) (λ r. parse_goal fuel (and_loop (and n r.0)) r.1)
parse_goal (suc fuel) (and_loop n) ts = some (n, ts)
parse_goal (suc fuel) term (lparen ∷ ts) = bind (parse_goal fuel filter ts) expect_rparen
parse_goal (suc fuel) term (kw_not ∷ ts) = bind (parse_goal fuel term ts) (λ r. some (not r.0, r.1))
parse_goal (suc fuel) term (name tag ∷ ts) = parse_rest tag ts
parse_goal (suc fuel) term _ = none

-- A token is passed by three calls at most, and two more begin.
unfoldable pub parse_filter : List Token → Option (Node × List Token)
unfolding parse_goal
parse_filter ts = parse_goal (4 * length ts + 4) filter ts
