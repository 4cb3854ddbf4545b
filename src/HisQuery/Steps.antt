-- ===== src/HisQuery/Steps.antt =====
-- One step of the parser on a printed filter.
use timberdoodle.Base.{
  ℕ, suc, ◌+◌, ◌≤◌, ◌-◌, String, Bool, true, false, ◌||◌, some, List, [], ◌∷◌, ◌++◌, ◌≡◌, refl, ap,
  ◌∙◌, arith, ◌==◌, append_assoc, inl, inr, Bool-cases,
}
use Prim.Native.Char.{Char, code}
use timberdoodle.HisQuery.{
  Token, op, arrow, rparen, kw_and, kw_or, Literal, str, num, flag, ref_to, Node, has, and, or,
  unescape_string, parse_value, parse_rest, Goal, filter, conj, term, or_loop, and_loop, parse_goal,
}
use timberdoodle.HisQuery.Print.{escape_string, token_of, print, cost, enclosed}

unescape_plain :
    (c : Char) (s : String)
    → (code c == b'\\') ≡ false
    → unescape_string (String.◌∷◌ c s) ≡ String.◌∷◌ c (unescape_string s)
unfolding unescape_string
unescape_plain c String.[] h = refl
unescape_plain c (String.◌∷◌ d s) h = rw h refl

unescape_string-escape_string : (s : String) → unescape_string (escape_string s) ≡ s
unfolding unescape_string escape_string
unescape_string-escape_string String.[] = refl
unescape_string-escape_string (String.◌∷◌ c s) =
    elim (Bool-cases (code c == b'\\' || code c == b'"')) [
      | inr e ↦
          rw (e, escape_string)
            (unescape_plain c (escape_string s) (ground (arith, e))
              ∙ ap (λ t. String.◌∷◌ c t) (unescape_string-escape_string s))
      | inl e ↦ rw (e, escape_string) (ground (arith, e, unescape_string-escape_string s))
    ]

pub parse_value-token_of :
    (v : Literal) (ts : List Token) → parse_value (token_of v ∷ ts) ≡ some (v, ts)
unfolding parse_value
parse_value-token_of (str s) ts = ap (λ t. some (str t, ts)) (unescape_string-escape_string s)
parse_value-token_of (num n) ts = refl
parse_value-token_of (flag true) ts = refl
parse_value-token_of (flag false) ts = refl
parse_value-token_of (ref_to id) ts = refl

-- What may follow a term, and what may follow an operand of `or`.
abbrev pub stops : List Token → Bool
stops (op o ∷ ts) = false
stops (arrow ∷ ts) = false
stops _ = true

abbrev pub ends : List Token → Bool
ends (kw_and ∷ ts) = false
ends ts = stops ts

pub stops_of_ends : (ts : List Token) → ends ts ≡ true → stops ts ≡ true
stops_of_ends ts h = ground arith

pub parse_rest_has :
    (tag : String) (ts : List Token) → stops ts ≡ true → parse_rest tag ts ≡ some (has tag, ts)
unfolding parse_rest
parse_rest_has tag ts h = ground (arith, h)

and_loop_ends :
    (f : ℕ) (n : Node) (ts : List Token)
    → ends ts ≡ true
    → parse_goal (suc f) (and_loop n) ts ≡ some (n, ts)
unfolding parse_goal
and_loop_ends f n ts h = ground (arith, h)

-- Fuel that is written another way.
pub same_fuel :
    {a : ℕ} (b : ℕ) (g : Goal) (ts : List Token) → a ≡ b → parse_goal a g ts ≡ parse_goal b g ts
same_fuel b g ts e = ap (λ x. parse_goal x g ts) e

pub conj_of_term :
    (c f : ℕ) (n : Node) (ts rest : List Token)
    → parse_goal (c + f) term (ts ++ rest) ≡ some (n, rest)
    → parse_goal (suc c + f) conj (ts ++ rest) ≡ parse_goal (c + f) (and_loop n) rest
unfolding parse_goal
conj_of_term c f n ts rest h =
    same_fuel (suc (c + f)) conj (ts ++ rest) (omega arith) ∙ rw (h, parse_goal) refl

pub filter_of_conj :
    (c k f : ℕ) (n : Node) (ts rest : List Token)
    → parse_goal (c + f) conj (ts ++ rest) ≡ parse_goal (k + f) (and_loop n) rest
    → 1 ≤ k
    → ends rest ≡ true
    → parse_goal (suc c + f) filter (ts ++ rest) ≡ parse_goal (c + f) (or_loop n) rest
unfolding parse_goal
filter_of_conj c k f n ts rest h p e =
    let done : parse_goal (c + f) conj (ts ++ rest) ≡ some (n, rest) =
      h
      ∙ (same_fuel (suc (k + f - 1)) (and_loop n) rest (omega (arith, p))
          ∙ and_loop_ends (k + f - 1) n rest e) in
    same_fuel (suc (c + f)) filter (ts ++ rest) (omega arith) ∙ rw (done, parse_goal) refl

-- A node that is printed alike at every level.
pub every_level :
    (n : Node) (c : ℕ) (ts : List Token)
    → 1 ≤ c
    → ((f : ℕ) (rest : List Token)
        → stops rest ≡ true
        → parse_goal (c + f) term (ts ++ rest) ≡ some (n, rest))
    → ((f : ℕ) (rest : List Token)
        → stops rest ≡ true
        → parse_goal (suc c + f) conj (ts ++ rest) ≡ parse_goal (c + f) (and_loop n) rest)
      × ((f : ℕ) (rest : List Token)
          → ends rest ≡ true
          → parse_goal (suc (suc c) + f) filter (ts ++ rest)
            ≡ parse_goal (suc c + f) (or_loop n) rest)
every_level n c ts p h = (
  (λ f rest s. conj_of_term c f n ts rest (h f rest s)),
  (λ f rest e.
      filter_of_conj (suc c) c f n ts rest
        (conj_of_term c f n ts rest (h f rest (stops_of_ends rest e))) p e),
)

-- A whole filter between parentheses is a term.
pub term_of_filter :
    (c k f : ℕ) (n : Node) (ts rest : List Token)
    → ((r : List Token)
        → ends r ≡ true
        → parse_goal (c + f) filter (ts ++ r) ≡ parse_goal (k + f) (or_loop n) r)
    → 1 ≤ k
    → parse_goal (suc c + f) term (enclosed ts ++ rest) ≡ some (n, rest)
unfolding parse_goal
term_of_filter c k f n ts rest h p =
    let some_fuel : k + f ≡ suc (k + f - 1) = omega (arith, p) in
    let done : parse_goal (c + f) filter (ts ++ rparen ∷ rest) ≡ some (n, rparen ∷ rest) =
      h (rparen ∷ rest) refl ∙ same_fuel (suc (k + f - 1)) (or_loop n) (rparen ∷ rest) some_fuel in
    same_fuel (suc (c + f)) term (enclosed ts ++ rest) (omega arith)
    ∙ rw (append_assoc ts (rparen ∷ []) rest, done, parse_goal) refl

pub and_step :
    (l r : Node)
    → ((f : ℕ) (rest : List Token)
        → stops rest ≡ true
        → parse_goal ((cost l).conj + f) conj ((print l).conj ++ rest)
          ≡ parse_goal ((cost l).conj_loop + f) (and_loop l) rest)
    → ((f : ℕ) (rest : List Token)
        → stops rest ≡ true
        → parse_goal ((cost r).term + f) term ((print r).term ++ rest) ≡ some (r, rest))
    → (f : ℕ) (rest : List Token) → stops rest ≡ true
    → parse_goal
        ((cost l).conj + suc (cost r).term + f)
        conj
        (((print l).conj ++ kw_and ∷ (print r).term) ++ rest)
      ≡ parse_goal ((cost l).conj_loop + (cost r).term + f) (and_loop (and l r)) rest
unfolding parse_goal
and_step l r h k f rest s =
    let tail : List Token = kw_and ∷ ((print r).term ++ rest) in
    let more : ℕ = (cost l).conj_loop + f in
    let right : parse_goal ((cost l).conj_loop + (cost r).term + f) term ((print r).term ++ rest)
        ≡ some (r, rest) =
      same_fuel ((cost r).term + more) term ((print r).term ++ rest) (omega arith)
      ∙ k more rest s in
    let here : parse_goal ((cost l).conj + suc (cost r).term + f) conj ((print l).conj ++ tail)
        ≡ parse_goal (suc ((cost l).conj_loop + (cost r).term + f)) (and_loop l) tail =
      same_fuel ((cost l).conj + (suc (cost r).term + f)) conj ((print l).conj ++ tail)
        (omega arith)
      ∙ (h (suc (cost r).term + f) tail refl
          ∙ same_fuel (suc ((cost l).conj_loop + (cost r).term + f)) (and_loop l) tail
              (omega arith)) in
    rw (append_assoc (print l).conj (kw_and ∷ (print r).term) rest)
      (here ∙ rw (right, parse_goal) refl)

pub or_step :
    (l r : Node)
    → ((f : ℕ) (rest : List Token)
        → ends rest ≡ true
        → parse_goal ((cost l).filter + f) filter ((print l).filter ++ rest)
          ≡ parse_goal ((cost l).filter_loop + f) (or_loop l) rest)
    → ((f : ℕ) (rest : List Token)
        → stops rest ≡ true
        → parse_goal ((cost r).conj + f) conj ((print r).conj ++ rest)
          ≡ parse_goal ((cost r).conj_loop + f) (and_loop r) rest)
    → 1 ≤ (cost r).conj_loop
    → (f : ℕ) (rest : List Token) → ends rest ≡ true
    → parse_goal
        ((cost l).filter + suc (cost r).conj + f)
        filter
        (((print l).filter ++ kw_or ∷ (print r).conj) ++ rest)
      ≡ parse_goal ((cost l).filter_loop + (cost r).conj + f) (or_loop (or l r)) rest
unfolding parse_goal
or_step l r h k p f rest e =
    let tail : List Token = kw_or ∷ ((print r).conj ++ rest) in
    let more : ℕ = (cost l).filter_loop + f in
    let some_fuel : (cost r).conj_loop + more ≡ suc ((cost r).conj_loop + more - 1) =
      omega (arith, p) in
    let right : parse_goal ((cost l).filter_loop + (cost r).conj + f) conj ((print r).conj ++ rest)
        ≡ some (r, rest) =
      same_fuel ((cost r).conj + more) conj ((print r).conj ++ rest) (omega arith)
      ∙ (k more rest (stops_of_ends rest e)
          ∙ (same_fuel (suc ((cost r).conj_loop + more - 1)) (and_loop r) rest some_fuel
              ∙ and_loop_ends ((cost r).conj_loop + more - 1) r rest e)) in
    let here : parse_goal ((cost l).filter + suc (cost r).conj + f) filter
          ((print l).filter ++ tail)
        ≡ parse_goal (suc ((cost l).filter_loop + (cost r).conj + f)) (or_loop l) tail =
      same_fuel ((cost l).filter + (suc (cost r).conj + f)) filter ((print l).filter ++ tail)
        (omega arith)
      ∙ (h (suc (cost r).conj + f) tail refl
          ∙ same_fuel (suc ((cost l).filter_loop + (cost r).conj + f)) (or_loop l) tail
              (omega arith)) in
    rw (append_assoc (print l).filter (kw_or ∷ (print r).conj) rest)
      (here ∙ rw (right, parse_goal) refl)
