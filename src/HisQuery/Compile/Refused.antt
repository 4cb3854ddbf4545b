-- ===== src/HisQuery/Compile/Refused.antt =====
-- A filter that the compiler does not take.
use timberdoodle.Base.{
  ◌≡◌, inl, inr, String, true, false, ◌&&◌, none, some, [], arith, str_eq, Bool-cases, Option-cases,
  if◌then◌else◌, is_some,
}
use timberdoodle.HisQuery
use timberdoodle.HisQuery.{Literal, str, num, flag, ref_to, Node, has, cmp, and, or, bind}
use timberdoodle.HisQuery.Compile.{
  Expr, both, either, Compiler, Vocabularies, checked_uri, ref_to_equip_uri, is_equality,
  compile_ref, compile_cmp, expr, compile_filter,
}
use timberdoodle.HisQuery.Compile.Meaning.{is_valid_cmp, is_valid}
use timberdoodle.HisQuery.Compile.Correct.{checked_uri-none, equip_uri-none}

compile_ref-none :
    (name op r : String) (c : Compiler)
    → (if str_eq name "equipRef" then is_some (checked_uri (ref_to_equip_uri r)) else true) ≡ false
    → compile_ref name op r c ≡ none
unfolding compile_ref
compile_ref-none name op r c h = rw (equip_uri-none name r h)

compile_cmp-none :
    (lit : Literal) (name op : String) (c : Compiler)
    → is_valid_cmp name op lit ≡ false
    → compile_cmp name op lit c ≡ none
unfolding compile_cmp is_valid_cmp
compile_cmp-none (ref_to r) name op c h = elim (Bool-cases (str_eq name "id")) [
  | inl e ↦ elim (Bool-cases (is_equality op)) [
    | inl q ↦ rw (e, q, checked_uri-none r (ground (arith, h, e, q)))
    | inr q ↦ rw (e, q)
  ]
  | inr e ↦ elim (Bool-cases (is_equality op)) [
    | inl q ↦ rw (e, q, compile_ref-none name op r c (ground (arith, h, e, q)))
    | inr q ↦ rw (e, q)
  ]
]
compile_cmp-none (flag b) name op c h = ground (arith, h)
compile_cmp-none (str t) name op c h = ground (arith, h)
compile_cmp-none (num t) name op c h = ground (arith, h)

pair-none :
    (v : Vocabularies) (a b : Node) (c : Compiler) (f : Expr → Expr → Expr)
    → ((d : Compiler) → is_valid b ≡ false → expr v b d ≡ none)
    → (is_valid a ≡ false → expr v a c ≡ none)
    → (is_valid a && is_valid b) ≡ false
    → bind {B = Expr × Compiler}
        (expr v a c)
        (λ q. bind {B = Expr × Compiler} (expr v b q.1) (λ p. some (f q.0 p.0, p.1)))
      ≡ none
pair-none v a b c f right left h = elim (Bool-cases (is_valid a)) [
  | inl e ↦ elim (Option-cases (expr v a c)) [
    | inl k ↦ rw (k, bind)
    | inr (q, k) ↦ rw (k, bind, right q.1 (ground (arith, h, e)))
  ]
  | inr e ↦ rw (left e, bind)
]

-- A filter that the compiler does not take is an error, wherever the comparison stands.
pub expr-none :
    (v : Vocabularies) (node : Node) (c : Compiler) → is_valid node ≡ false → expr v node c ≡ none
unfolding expr is_valid
expr-none v (has name) c h = cc
expr-none v (cmp name op lit) c h = compile_cmp-none lit name op c h
expr-none v (HisQuery.not a) c h = rw (expr-none v a c h)
expr-none v (and a b) c h = pair-none v a b c both (λ d. expr-none v b d) (λ q. expr-none v a c q) h
expr-none v (or a b) c h =
    pair-none v a b c either (λ d. expr-none v b d) (λ q. expr-none v a c q) h

-- `compile_filter` raises HisQueryError for every filter that the compiler does not take.
pub compile_filter-none :
    (v : Vocabularies) (node : Node) → is_valid node ≡ false → compile_filter v node ≡ none
unfolding compile_filter
compile_filter-none v node h = rw (expr-none v node (record { n = 0; flags = [] }) h, bind)
