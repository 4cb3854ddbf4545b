-- ===== src/HisQuery/Compile/Correct.antt =====
-- `compile_filter` against the meaning of a filter.
use timberdoodle.Base.{
  ℕ, ◌+◌, ◌≡◌, refl, sym, subst, ap, ◌∙◌, inl, inr, String, Bool, true, false, not, Option, none,
  some, List, [], ◌++◌, append_assoc, append-nil, arith, str_eq, Bool-cases, if◌then◌else◌, is_some,
}
use timberdoodle.HisQuery
use timberdoodle.HisQuery.{Literal, str, num, flag, ref_to, Node, has, cmp, and, or, bind}
use timberdoodle.HisQuery.Compile.{
  Pattern, refers_to, Expr, is_subject, negated, both, either, Compiler, Vocabularies, register,
  any_expr, checked_uri, ref_to_equip_uri, signed, is_equality, compile_id, ref_patterns, equip_uri,
  compile_ref, compile_cmp, expr, compile_filter, evaluate,
}
use timberdoodle.HisQuery.Compile.Meaning.{
  unnumbered, is_valid_cmp, is_valid, holds_any, agrees, satisfies, register-flags,
  register-evaluate, signed-evaluate, Compiled, compile_has-Compiled, compared-Compiled,
}

checked_uri-some : (t : String) → is_some (checked_uri t) ≡ true → checked_uri t ≡ some t
unfolding checked_uri
checked_uri-some t h = ground (arith, h)

pub checked_uri-none : (t : String) → is_some (checked_uri t) ≡ false → checked_uri t ≡ none
unfolding checked_uri
checked_uri-none t h = ground (arith, h)

equip_uri-some :
    (name r : String)
    → (if str_eq name "equipRef" then is_some (checked_uri (ref_to_equip_uri r)) else true) ≡ true
    → (u : String) × (equip_uri name r ≡ some u)
      × ((n : ℕ) → ref_patterns name r n u ≡ ref_patterns name r n (ref_to_equip_uri r))
unfolding equip_uri
equip_uri-some name r h = elim (Bool-cases (str_eq name "equipRef")) [
  | inl e ↦ (
    ref_to_equip_uri r,
    rw e (checked_uri-some (ref_to_equip_uri r) (ground (arith, h))),
    λ n. refl,
  )
  | inr e ↦ ("", rw e, λ n. rw e)
]

pub equip_uri-none :
    (name r : String)
    → (if str_eq name "equipRef" then is_some (checked_uri (ref_to_equip_uri r)) else true) ≡ false
    → equip_uri name r ≡ none
unfolding equip_uri
equip_uri-none name r h = elim (Bool-cases (str_eq name "equipRef")) [
  | inl e ↦ rw e (checked_uri-none (ref_to_equip_uri r) (ground (arith, h)))
  | inr e ↦ ground (arith, h)
]

module _ (v : Vocabularies) (subjects : Pattern → String → Bool)
    (renamed : (p : Pattern) (s : String) → subjects p s ≡ subjects (unnumbered p) s) where
  abbrev Works : Node → Compiler → Option (Expr × Compiler) → Type 0
  Works = Compiled v subjects renamed

  compile_id-Works :
      (r name op : String) (c : Compiler)
      → str_eq name "id" ≡ true
      → is_equality op ≡ true
      → is_some (checked_uri r) ≡ true
      → Works (cmp name op (ref_to r)) c (compile_id op (ref_to r) c)
  unfolding compile_id satisfies
  compile_id-Works r name op c e q u = record {
    out = (signed op (is_subject r), c);
    returns = rw (q, checked_uri-some r u);
    means = λ s later. rw e (
        signed-evaluate v subjects s (c.flags ++ later) op (is_subject r)
        ∙ unfold evaluate in refl);
    new = [];
    added = sym (append-nil c.flags);
  }

  ref_patterns-number :
      (s name op r u : String) (n : ℕ)
      → holds_any v subjects s (ref_patterns name r n u)
        ≡ holds_any v subjects s (ref_patterns name r 0 u)
  ref_patterns-number s name op r u n =
      ground (arith, renamed (refers_to name n r) s, renamed (refers_to name 0 r) s)

  compile_ref-Works :
      (r name op : String) (c : Compiler)
      → str_eq name "id" ≡ false
      → (if str_eq name "equipRef" then is_some (checked_uri (ref_to_equip_uri r)) else true) ≡ true
      → Works (cmp name op (ref_to r)) c (compile_ref name op r c)
  unfolding compile_ref satisfies
  compile_ref-Works r name op c e h =
      let (u, found, same) = equip_uri-some name r h in
      let ps : List Pattern = ref_patterns name r (c.n + 1) u in
      record {
        out = (
          signed op (any_expr (register ps c.flags).0),
          record { n = c.n + 1; flags = (register ps c.flags).1 },
        );
        returns = rw (found, bind);
        means = λ s later. rw e (
            signed-evaluate v subjects s ((register ps c.flags).1 ++ later) op
              (any_expr (register ps c.flags).0)
            ∙ ap (agrees v subjects s op) (
                register-evaluate v subjects s ps c.flags later
                ∙ ref_patterns-number s name op r u (c.n + 1)
                ∙ ap (holds_any v subjects s) (same 0)));
        new = ps;
        added = register-flags v subjects "" ps c.flags;
      }

  compile_cmp-Works :
      (lit : Literal) (name op : String) (c : Compiler)
      → is_valid_cmp name op lit ≡ true
      → Works (cmp name op lit) c (compile_cmp name op lit c)
  unfolding compile_cmp is_valid_cmp
  compile_cmp-Works (ref_to r) name op c h = elim (Bool-cases (str_eq name "id")) [
    | inl e ↦ rw e (compile_id-Works r name op c e (ground (arith, h, e)) (ground (arith, h, e)))
    | inr e ↦
        let q : is_equality op ≡ true = ground (arith, h, e) in
        rw (e, q) (compile_ref-Works r name op c e (ground (arith, h, e)))
  ]
  compile_cmp-Works (flag b) name op c h =
      let e : str_eq name "id" ≡ false = ground (arith, h) in
      let q : is_equality op ≡ true = ground (arith, h) in
      rw (e, q) (compared-Compiled v subjects renamed name op (flag b) c (λ s. refl))
  compile_cmp-Works (str t) name op c h =
      let e : str_eq name "id" ≡ false = ground (arith, h) in
      rw e (compared-Compiled v subjects renamed name op (str t) c (λ s. refl))
  compile_cmp-Works (num t) name op c h =
      let e : str_eq name "id" ≡ false = ground (arith, h) in
      rw e (compared-Compiled v subjects renamed name op (num t) c (λ s. refl))

  not-Works :
      (a : Node) (c : Compiler) (r : Option (Expr × Compiler))
      → Works a c r
      → Works (HisQuery.not a) c (bind r (λ q. some (negated q.0, q.1)))
  unfolding evaluate satisfies
  not-Works a c r w = record {
    out = (negated w.out.0, w.out.1);
    returns = rw (w.returns);
    means = λ s later. ap not (w.means s later);
    new = w.new;
    added = w.added;
  }

  -- The flags of the right side are added behind those of the left.
  pair-means :
      (a b : Node) (c : Compiler) (r t : Option (Expr × Compiler)) (wa : Works a c r)
      (wb : Works b wa.out.1 t) (s : String) (later : List Pattern)
      → evaluate subjects s (wb.out.1.flags ++ later) wa.out.0 ≡ satisfies v subjects s a
  pair-means a b c r t wa wb s later =
      subst (λ xs. evaluate subjects s xs wa.out.0 ≡ satisfies v subjects s a)
        (sym (append_assoc wa.out.1.flags wb.new later) ∙ ap (λ xs. xs ++ later) (sym wb.added))
        (wa.means s (wb.new ++ later))

  pair-added :
      (a b : Node) (c : Compiler) (r t : Option (Expr × Compiler)) (wa : Works a c r)
      (wb : Works b wa.out.1 t)
      → wb.out.1.flags ≡ c.flags ++ (wa.new ++ wb.new)
  pair-added a b c r t wa wb =
      wb.added ∙ ap (λ xs. xs ++ wb.new) wa.added ∙ append_assoc c.flags wa.new wb.new

  and-Works :
      (a b : Node) (c : Compiler) (r : Option (Expr × Compiler)) (wa : Works a c r)
      → Works b wa.out.1 (expr v b wa.out.1)
      → Works (and a b) c (bind r (λ q. bind (expr v b q.1) (λ p. some (both q.0 p.0, p.1))))
  unfolding evaluate satisfies
  and-Works a b c r wa wb = record {
    out = (both wa.out.0 wb.out.0, wb.out.1);
    returns = rw (wa.returns, bind, wb.returns);
    means = λ s later. rw (pair-means a b c r _ wa wb s later, wb.means s later);
    new = wa.new ++ wb.new;
    added = pair-added a b c r _ wa wb;
  }

  or-Works :
      (a b : Node) (c : Compiler) (r : Option (Expr × Compiler)) (wa : Works a c r)
      → Works b wa.out.1 (expr v b wa.out.1)
      → Works (or a b) c (bind r (λ q. bind (expr v b q.1) (λ p. some (either q.0 p.0, p.1))))
  unfolding evaluate satisfies
  or-Works a b c r wa wb = record {
    out = (either wa.out.0 wb.out.0, wb.out.1);
    returns = rw (wa.returns, bind, wb.returns);
    means = λ s later. rw (pair-means a b c r _ wa wb s later, wb.means s later);
    new = wa.new ++ wb.new;
    added = pair-added a b c r _ wa wb;
  }

  expr-Works : (node : Node) (c : Compiler) → is_valid node ≡ true → Works node c (expr v node c)
  unfolding expr is_valid
  expr-Works (has name) c h = compile_has-Compiled v subjects renamed name c
  expr-Works (cmp name op lit) c h = compile_cmp-Works lit name op c h
  expr-Works (HisQuery.not a) c h = not-Works a c (expr v a c) (expr-Works a c h)
  expr-Works (and a b) c h =
      let wa = expr-Works a c (ground (arith, h)) in
      and-Works a b c (expr v a c) wa (expr-Works b wa.out.1 (ground (arith, h)))
  expr-Works (or a b) c h =
      let wa = expr-Works a c (ground (arith, h)) in
      or-Works a b c (expr v a c) wa (expr-Works b wa.out.1 (ground (arith, h)))

  -- When no answer depends on a variable's number: a filter that the compiler takes is compiled, and
  -- for every subject the FILTER over the joined flags says what the filter means.
  pub compile_filter-satisfies :
      (node : Node)
      → is_valid node ≡ true
      → (q : Expr × List Pattern) × (compile_filter v node ≡ some q)
        × ((s : String) → evaluate subjects s q.1 q.0 ≡ satisfies v subjects s node)
  unfolding compile_filter
  compile_filter-satisfies node h =
      let w = expr-Works node (record { n = 0; flags = [] }) h in
      (
        (w.out.0, w.out.1.flags),
        rw (w.returns, bind),
        λ s.
            subst (λ xs. evaluate subjects s xs w.out.0 ≡ satisfies v subjects s node)
              (append-nil w.out.1.flags) (w.means s []),
      )
