-- ===== src/HisQuery/Compile/Meaning.antt =====
-- What a filter means over the subjects of its leaves, and the flags that stand for them.
use timberdoodle.Base.{
  ℕ, ◌+◌, ◌≡◌, refl, sym, subst, ap, ◌∙◌, inl, inr, String, Bool, true, not, ◌&&◌, ◌||◌, Option,
  some, List, [], ◌∷◌, ◌++◌, append_assoc, append-nil, arith, str_eq, Bool-cases, length, any,
  any-append, if◌then◌else◌, is_some,
}
use timberdoodle.HisQuery
use timberdoodle.HisQuery.{Literal, str, num, flag, ref_to, Node, has, cmp, and, or, bind}
use timberdoodle.HisQuery.Vocab.{expand}
use timberdoodle.HisQuery.Compile.{
  Pattern, tagged_with, typed_as_any, is_point, has_point, refers_to, compares, Expr, Compiler,
  Vocabularies, register, any_expr, checked_uri, ref_to_equip_uri, typed_patterns, class_iris,
  structural, has_patterns, compile_has, signed, is_equality, ref_patterns, compared, flagged,
  evaluate,
}

-- The same pattern with the variable ?v0.
abbrev pub unnumbered : Pattern → Pattern
unnumbered (typed_as_any n iris) = typed_as_any 0 iris
unnumbered (is_point n) = is_point 0
unnumbered (has_point n) = has_point 0
unnumbered (refers_to name n r) = refers_to name 0 r
unnumbered (compares name n op lit) = compares name 0 op lit
unnumbered p = p

-- The filters that the compiler takes: `id` is compared with a reference by == or != only, and so
-- are references and Booleans; a reference that is written into the query is a URI.
unfoldable pub is_valid_cmp : String → String → Literal → Bool
unfolding checked_uri ref_to_equip_uri
is_valid_cmp name op (ref_to r) =
    is_equality op
    && (if str_eq name "id"
        then is_some (checked_uri r)
        else if str_eq name "equipRef"
        then is_some (checked_uri (ref_to_equip_uri r))
        else true)
is_valid_cmp name op (flag b) = not (str_eq name "id") && is_equality op
is_valid_cmp name op lit = not (str_eq name "id")

unfoldable pub is_valid : Node → Bool
unfolding is_valid_cmp
is_valid (has name) = true
is_valid (cmp name op lit) = is_valid_cmp name op lit
is_valid (HisQuery.not a) = is_valid a
is_valid (and a b) = is_valid a && is_valid b
is_valid (or a b) = is_valid a && is_valid b

module _ (v : Vocabularies) (subjects : Pattern → String → Bool) (s : String) where
  abbrev pub holds_any : List Pattern → Bool
  holds_any ps = any (λ p. subjects p s) ps

  abbrev pub agrees : String → Bool → Bool
  agrees op b = if str_eq op "==" then b else not b

  abbrev pub satisfies_cmp : String → String → Literal → Bool
  unfolding ref_to_equip_uri
  satisfies_cmp name op (ref_to r) =
      if str_eq name "id"
      then agrees op (str_eq s r)
      else agrees op (holds_any (ref_patterns name r 0 (ref_to_equip_uri r)))
  satisfies_cmp name op lit = subjects (compares name 0 op lit) s

  -- What the filter says of one subject: a name holds of it by its tag, by its class or by its place
  -- in the graph, a comparison by the tag's value.
  unfoldable pub satisfies : Node → Bool
  unfolding satisfies_cmp has_patterns
  satisfies (has name) = holds_any (has_patterns v name 0)
  satisfies (cmp name op lit) = satisfies_cmp name op lit
  satisfies (HisQuery.not a) = not (satisfies a)
  satisfies (and a b) = satisfies a && satisfies b
  satisfies (or a b) = satisfies a || satisfies b

  flagged-append :
      (fs : List Pattern) (p : Pattern) (later : List Pattern)
      → flagged subjects s (fs ++ p ∷ later) (length fs) ≡ subjects p s
  flagged-append [] p later = refl
  flagged-append (f ∷ fs) p later = flagged-append fs p later

  pub register-flags : (ps fs : List Pattern) → (register ps fs).1 ≡ fs ++ ps
  unfolding register
  register-flags [] fs = sym (append-nil fs)
  register-flags (p ∷ ps) fs = register-flags ps (fs ++ p ∷ []) ∙ append_assoc fs (p ∷ []) ps

  register-any :
      (ps fs later : List Pattern)
      → any (flagged subjects s (fs ++ ps ++ later)) (register ps fs).0 ≡ holds_any ps
  unfolding register
  register-any [] fs later = refl
  register-any (p ∷ ps) fs later =
      let e : ((fs ++ p ∷ []) ++ ps) ++ later ≡ (fs ++ p ∷ ps) ++ later =
        ap (λ xs. xs ++ later) (append_assoc fs (p ∷ []) ps) in
      let here : flagged subjects s ((fs ++ p ∷ ps) ++ later) (length fs) ≡ subjects p s =
        rw (append_assoc fs (p ∷ ps) later) (flagged-append fs p (ps ++ later)) in
      let rest : any (flagged subjects s ((fs ++ p ∷ ps) ++ later)) (register ps (fs ++ p ∷ [])).0
          ≡ holds_any ps =
        subst (λ xs. any (flagged subjects s xs) (register ps (fs ++ p ∷ [])).0 ≡ holds_any ps) e
          (register-any ps (fs ++ p ∷ []) later) in
      rw (here, rest) refl

  any_expr-any :
      (flags : List Pattern) (ms : List ℕ)
      → evaluate subjects s flags (any_expr ms) ≡ any (flagged subjects s flags) ms
  unfolding any_expr evaluate
  any_expr-any flags [] = refl
  any_expr-any flags (m ∷ []) = ground arith
  any_expr-any flags (m ∷ n ∷ ms) = refl

  -- The flags of some patterns, put together.
  pub register-evaluate :
      (ps fs later : List Pattern)
      → evaluate subjects s ((register ps fs).1 ++ later) (any_expr (register ps fs).0)
        ≡ holds_any ps
  register-evaluate ps fs later =
      any_expr-any ((register ps fs).1 ++ later) (register ps fs).0
      ∙ subst (λ xs. any (flagged subjects s (xs ++ later)) (register ps fs).0 ≡ holds_any ps)
          (sym (register-flags ps fs)) (register-any ps fs later)

  pub signed-evaluate :
      (flags : List Pattern) (op : String) (e : Expr)
      → evaluate subjects s flags (signed op e) ≡ agrees op (evaluate subjects s flags e)
  unfolding evaluate
  signed-evaluate flags op e = elim (Bool-cases (str_eq op "==")) [
    | inl q ↦ rw q refl
    | inr q ↦ rw q refl
  ]

-- A subject's answer does not depend on the variable of a pattern.
module _ (v : Vocabularies) (subjects : Pattern → String → Bool)
    (renamed : (p : Pattern) (s : String) → subjects p s ≡ subjects (unnumbered p) s) where
  typed_patterns-number :
      (s : String) (m n : ℕ) (iris : List String)
      → holds_any v subjects s (typed_patterns v m iris)
        ≡ holds_any v subjects s (typed_patterns v n iris)
  unfolding typed_patterns
  typed_patterns-number s m n [] = refl
  typed_patterns-number s m n (c ∷ cs) = ground (
    arith,
    renamed (typed_as_any m (expand v.graph (c ∷ cs))) s,
    renamed (typed_as_any n (expand v.graph (c ∷ cs))) s,
  )

  structural-number :
      (s name : String) (m n : ℕ)
      → holds_any v subjects s (structural v name m) ≡ holds_any v subjects s (structural v name n)
  unfolding structural
  structural-number s name m n = ground (
    arith,
    renamed (is_point (m + 2)) s,
    renamed (is_point (n + 2)) s,
    renamed (has_point (m + 1)) s,
    renamed (has_point (n + 1)) s,
  )

  pub holds_any-append :
      (s : String) (ps qs : List Pattern)
      → holds_any v subjects s (ps ++ qs) ≡ (holds_any v subjects s ps || holds_any v subjects s qs)
  holds_any-append s ps qs = any-append (λ p. subjects p s) ps qs

  has_patterns-number :
      (s name : String) (n : ℕ)
      → holds_any v subjects s (has_patterns v name n)
        ≡ holds_any v subjects s (has_patterns v name 0)
  unfolding has_patterns
  has_patterns-number s name n =
      let a : List Pattern = typed_patterns v (n + 1) (class_iris v name) in
      let b : List Pattern = typed_patterns v 1 (class_iris v name) in
      ground (
        arith,
        holds_any-append s (tagged_with name ∷ a) (structural v name (n + length a)),
        holds_any-append s (tagged_with name ∷ b) (structural v name (0 + length b)),
        typed_patterns-number s (n + 1) 1 (class_iris v name),
        structural-number s name (n + length a) (0 + length b),
      )

  -- What the compiler has made of a filter: flags after those that were there, and an expression
  -- that says of a subject what the filter says, whatever flags are added later.
  pub record Compiled (node : Node) (c : Compiler) (r : Option (Expr × Compiler)) : Type 0 where
    pub out : Expr × Compiler
    pub returns : r ≡ some out
    pub means :
        (s : String) (later : List Pattern)
        → evaluate subjects s (out.1.flags ++ later) out.0 ≡ satisfies v subjects s node
    pub new : List Pattern
    pub added : out.1.flags ≡ c.flags ++ new

  pub compile_has-Compiled :
      (name : String) (c : Compiler) → Compiled (has name) c (some (compile_has v name c))
  unfolding compile_has satisfies
  compile_has-Compiled name c = record {
    out = compile_has v name c;
    returns = refl;
    means = λ s later.
        register-evaluate v subjects s (has_patterns v name c.n) c.flags later
        ∙ has_patterns-number s name c.n;
    new = has_patterns v name c.n;
    added = register-flags v subjects "" (has_patterns v name c.n) c.flags;
  }

  pub compared-Compiled :
      (name op : String) (lit : Literal) (c : Compiler)
      → ((s : String)
          → satisfies_cmp v subjects s name op lit ≡ subjects (compares name 0 op lit) s)
      → Compiled (cmp name op lit) c (some (compared name op lit c))
  unfolding evaluate satisfies
  compared-Compiled name op lit c is = record {
    out = compared name op lit c;
    returns = refl;
    means = λ s later.
        subst
          (λ xs. flagged subjects s xs (length c.flags) ≡ satisfies_cmp v subjects s name op lit)
          (sym (append_assoc c.flags (compares name (c.n + 1) op lit ∷ []) later))
          (flagged-append v subjects s c.flags (compares name (c.n + 1) op lit) later
            ∙ renamed (compares name (c.n + 1) op lit) s
            ∙ sym (is s));
    new = compares name (c.n + 1) op lit ∷ [];
    added = refl;
  }
