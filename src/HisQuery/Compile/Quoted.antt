-- ===== src/HisQuery/Compile/Quoted.antt =====
-- `_sparql_string` and `_sparql_literal`: texts inside the query.
use timberdoodle.Base.{
  ℕ, ◌≡◌, refl, sym, ap, ◌∙◌, inl, inr, String, Bool, true, false, ◌||◌, Option, none, some, ◌==◌,
  ==_iff, Bool-cases, if◌then◌else◌, str_append,
}
use Prim.Native.Char.{Char, code}
use text.Mathlib.TextEquality.{Char-path}
use text.Mathlib.TextLemmas.{nil-append, cons-append, append_assoc, append-nil}
use timberdoodle.Base.Text.{replaced}
use timberdoodle.HisQuery.{Literal, str, num, flag, ref_to, bind}

abbrev pub one : Char → String
one c = String.◌∷◌ c String.[]

-- `value.replace(character, text)`
abbrev pub replace : ℕ → String → String → String
unfolding replaced
replace k t s = replaced (λ c. if code c == k then t else one c) s

unfoldable pub escape : String → String
unfolding replaced
escape value = replace 13 "\\r" (replace 10 "\\n" (replace 34 "\\\"" (replace 92 "\\\\" value)))

unfoldable pub sparql_string : String → String
unfolding escape
sparql_string value = str_append "\"" (str_append (escape value) "\"")

-- `repr` of the number that the text stands for is a parameter.
unfoldable pub sparql_literal : (String → String) → Literal → String
unfolding sparql_string
sparql_literal repr (flag b) = if b then "true" else "false"
sparql_literal repr (num n) = repr n
sparql_literal repr (str s) = sparql_string s
sparql_literal repr (ref_to r) = sparql_string r

-- How SPARQL reads a string literal, from behind its opening quote: the text, and what follows the
-- closing quote.
abbrev pub behind : Char → Option (String × String) → Option (String × String)
behind c r = bind r (λ q. some (String.◌∷◌ c q.0, q.1))

abbrev pub special : Char → Option Char
special d =
    if code d == b'n'
    then some "\n"
    else if code d == b'r'
    then some "\r"
    else if code d == b't'
    then some "\t"
    else if code d == b'b'
    then some "\u{8}"
    else if code d == b'f'
    then some "\u{c}"
    else if code d == 92 || (code d == 34 || code d == 39)
    then some d
    else none

abbrev pub behind? : Option Char → Option (String × String) → Option (String × String)
behind? none r = none
behind? (some c) r = behind c r

-- The Boolean says that a backslash came before.
unfoldable pub read_string : Bool → String → Option (String × String)
read_string escaped String.[] = none
read_string true (String.◌∷◌ c s) = behind? (special c) (read_string false s)
read_string false (String.◌∷◌ c s) =
    let more = behind c (read_string false s) in
    let next = read_string true s in
    if code c == 34
    then some ("", s)
    else if code c == 10 || code c == 13
    then none
    else if code c == 92
    then next
    else more

replaced-append :
    (f : Char → String) (a b : String)
    → replaced f (str_append a b) ≡ str_append (replaced f a) (replaced f b)
unfolding replaced
replaced-append f String.[] b = rw (nil-append b, nil-append (replaced f b))
replaced-append f (String.◌∷◌ c a) b =
    rw (cons-append c a b, replaced-append f a b, append_assoc (f c) (replaced f a) (replaced f b))
      refl

replace-append :
    (k : ℕ) (t a b : String)
    → replace k t (str_append a b) ≡ str_append (replace k t a) (replace k t b)
unfolding replace
replace-append k t a b = replaced-append (λ c. if code c == k then t else one c) a b

replace-one :
    (k : ℕ) (t : String) (c : Char) → replace k t (one c) ≡ (if code c == k then t else one c)
unfolding replace replaced
replace-one k t c = append-nil (if code c == k then t else one c)

escape-append : (a b : String) → escape (str_append a b) ≡ str_append (escape a) (escape b)
unfolding escape
escape-append a b =
    ap (λ s. replace 13 "\\r" (replace 10 "\\n" (replace 34 "\\\"" s)))
      (replace-append 92 "\\\\" a b)
    ∙ ap (λ s. replace 13 "\\r" (replace 10 "\\n" s))
        (replace-append 34 "\\\"" (replace 92 "\\\\" a) (replace 92 "\\\\" b))
    ∙ ap (λ s. replace 13 "\\r" s)
        (replace-append 10 "\\n" (replace 34 "\\\"" (replace 92 "\\\\" a))
          (replace 34 "\\\"" (replace 92 "\\\\" b)))
    ∙ replace-append 13 "\\r" (replace 10 "\\n" (replace 34 "\\\"" (replace 92 "\\\\" a)))
        (replace 10 "\\n" (replace 34 "\\\"" (replace 92 "\\\\" b)))

pub escape-one :
    (c : Char)
    → escape (one c) ≡ (
        if code c == 92
        then "\\\\"
        else if code c == 34
        then "\\\""
        else if code c == 10
        then "\\n"
        else if code c == 13
        then "\\r"
        else one c)
unfolding escape
escape-one c = elim (Bool-cases (code c == 92)) [
  | inl e ↦ rw e refl
  | inr e ↦ elim (Bool-cases (code c == 34)) [
    | inl f ↦ rw (e, append-nil (one c), f) refl
    | inr f ↦ elim (Bool-cases (code c == 10)) [
      | inl g ↦ rw (e, append-nil (one c), f, append-nil (one c), g) refl
      | inr g ↦ elim (Bool-cases (code c == 13)) [
        | inl h ↦ rw (e, append-nil (one c), f, append-nil (one c), g, append-nil (one c), h) refl
        | inr h ↦
            rw
              (
                e,
                append-nil (one c),
                f,
                append-nil (one c),
                g,
                append-nil (one c),
                h,
                append-nil (one c),
              )
              refl
      ]
    ]
  ]
]

pub two-append :
    (a b : Char) (t : String) → str_append (String.◌∷◌ a (one b)) t ≡ String.◌∷◌ a (String.◌∷◌ b t)
two-append a b t = rw (cons-append a (one b) t, cons-append b "" t, nil-append t) refl

is_char : (c d : Char) → (code c == code d) ≡ true → c ≡ d
is_char c d h = Char-path c d ((==_iff (code c) (code d)).0 h)

-- An escaped character is read as the character.
read-escaped :
    (c : Char) (t : String)
    → read_string false (str_append (escape (one c)) t) ≡ behind c (read_string false t)
unfolding read_string
read-escaped c t = elim (Bool-cases (code c == 92)) [
  | inl e ↦ rw (escape-one c, e, two-append "\\" "\\" t, is_char c "\\" e) refl
  | inr e ↦ elim (Bool-cases (code c == 34)) [
    | inl f ↦ rw (escape-one c, e, f, two-append "\\" "\"" t, is_char c "\"" f) refl
    | inr f ↦ elim (Bool-cases (code c == 10)) [
      | inl g ↦ rw (escape-one c, e, f, g, two-append "\\" "n" t, is_char c "\n" g) refl
      | inr g ↦ elim (Bool-cases (code c == 13)) [
        | inl h ↦ rw (escape-one c, e, f, g, h, two-append "\\" "r" t, is_char c "\r" h) refl
        | inr h ↦ rw (escape-one c, e, f, g, h, cons-append c "" t, nil-append t, e, f, g, h) refl
      ]
    ]
  ]
]

pub escape-cons :
    (c : Char) (s : String) → escape (String.◌∷◌ c s) ≡ str_append (escape (one c)) (escape s)
escape-cons c s =
    ap escape (sym (cons-append c "" s ∙ ap (String.◌∷◌ c) (nil-append s)))
    ∙ escape-append (one c) s

-- Whatever the text is, the query's reader takes the quoted form as that text and goes on behind it.
pub read_string-escape :
    (s rest : String)
    → read_string false (str_append (escape s) (String.◌∷◌ "\"" rest)) ≡ some (s, rest)
unfolding read_string escape
read_string-escape String.[] rest = rw (nil-append (String.◌∷◌ "\"" rest)) refl
read_string-escape (String.◌∷◌ c s) rest =
    rw
      (
        escape-cons c s,
        append_assoc (escape (one c)) (escape s) (String.◌∷◌ "\"" rest),
        read-escaped c (str_append (escape s) (String.◌∷◌ "\"" rest)),
        read_string-escape s rest,
      )
      refl

unfoldable pub read_literal : String → Option (String × String)
unfolding read_string
read_literal String.[] = none
read_literal (String.◌∷◌ c s) = if code c == 34 then read_string false s else none

-- The reader of a literal on the quoted text.
pub read_literal-quoted :
    (s rest : String)
    → read_literal (String.◌∷◌ "\"" (str_append (escape s) (String.◌∷◌ "\"" rest))) ≡ some (s, rest)
unfolding read_literal
read_literal-quoted s rest = read_string-escape s rest

pub sparql_string-append :
    (s rest : String)
    → str_append (sparql_string s) rest
      ≡ String.◌∷◌ "\"" (str_append (escape s) (String.◌∷◌ "\"" rest))
unfolding sparql_string
sparql_string-append s rest =
    rw
      (
        cons-append "\"" "" (str_append (escape s) "\""),
        nil-append (str_append (escape s) "\""),
        cons-append "\"" (str_append (escape s) "\"") rest,
        append_assoc (escape s) "\"" rest,
        cons-append "\"" "" rest,
        nil-append rest,
      )
      refl
