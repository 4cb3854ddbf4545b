-- ===== src/HisQuery/Print.antt =====
-- The tokens of a filter, with the parentheses that its precedence asks for, and the fuel that
-- parsing them takes.
use timberdoodle.Base.{
  ℕ, suc, ◌+◌, String, true, false, ◌||◌, none, List, [], ◌∷◌, ◌++◌, ◌==◌, if◌then◌else◌,
}
use Prim.Native.Char.{code}
use timberdoodle.HisQuery.{
  Token, string, number, ref, op, name, lparen, rparen, kw_and, kw_or, kw_not, kw_true, kw_false,
  Literal, str, num, flag, ref_to, Node, has, cmp, not, and, or,
}

-- A backslash or a quote gets a backslash before it.
unfoldable pub escape_string : String → String
escape_string String.[] = String.[]
escape_string (String.◌∷◌ c s) =
    if code c == b'\\' || code c == b'"'
    then String.◌∷◌ "\\" (String.◌∷◌ c (escape_string s))
    else String.◌∷◌ c (escape_string s)

abbrev pub token_of : Literal → Token
token_of (str s) = string (escape_string s)
token_of (num n) = number n none
token_of (flag true) = kw_true
token_of (flag false) = kw_false
token_of (ref_to id) = ref id

-- As a term, as an operand of `or`, and as a whole filter.
pub record Printed : Type 0 where
  pub term : List Token
  pub conj : List Token
  pub filter : List Token

abbrev pub alone : List Token → Printed
alone ts = record { term = ts; conj = ts; filter = ts }

abbrev pub enclosed : List Token → List Token
enclosed ts = lparen ∷ (ts ++ rparen ∷ [])

abbrev pub print : Node → Printed
print (has tag) = alone (name tag ∷ [])
print (cmp tag o v) = alone (name tag ∷ op o ∷ token_of v ∷ [])
print (not n) = alone (kw_not ∷ (print n).term)
print (and l r) =
    let ts = (print l).conj ++ kw_and ∷ (print r).term in
    record { term = enclosed ts; conj = ts; filter = ts }
print (or l r) =
    let ts = (print l).filter ++ kw_or ∷ (print r).conj in
    record { term = enclosed ts; conj = enclosed ts; filter = ts }

-- The fuel that a part takes, and how much of it is left to the loop behind it.
pub record Cost : Type 0 where
  pub term : ℕ
  pub conj : ℕ
  pub conj_loop : ℕ
  pub filter : ℕ
  pub filter_loop : ℕ

abbrev pub of_term : ℕ → Cost
of_term t = record {
  term = t;
  conj = suc t;
  conj_loop = t;
  filter = suc (suc t);
  filter_loop = suc t;
}

abbrev pub cost : Node → Cost
cost (has tag) = of_term 1
cost (cmp tag o v) = of_term 1
cost (not n) = of_term (suc (cost n).term)
cost (and l r) =
    let a = cost l in
    let b = cost r in
    record {
      term = suc (suc (a.conj + suc b.term));
      conj = a.conj + suc b.term;
      conj_loop = a.conj_loop + b.term;
      filter = suc (a.conj + suc b.term);
      filter_loop = a.conj + suc b.term;
    }
cost (or l r) =
    let a = cost l in
    let b = cost r in
    record (of_term (suc (a.filter + suc b.conj))) {
      filter = a.filter + suc b.conj;
      filter_loop = a.filter_loop + b.conj;
    }
