-- ===== src/HisQuery/Calls/Accepted.antt =====
-- What a query that `parse_query` accepts has passed.
use timberdoodle.Base.{
  ℕ, ◌≡◌, refl, inl, inr, String, true, some, List, arith, Option-cases, Bool-cases,
}
use timberdoodle.HisQuery.{Token, Node}
use timberdoodle.HisQuery.Vocab.{GraphVocab}
use timberdoodle.HisQuery.Compile.{Vocabularies, Expr, Pattern, compile_filter}
use timberdoodle.HisQuery.Compile.Meaning.{is_valid}
use timberdoodle.HisQuery.Compile.Correct.{compile_filter-satisfies}
use timberdoodle.HisQuery.Compile.Refused.{compile_filter-none}
use timberdoodle.HisQuery.Span.Resolve.{Zone}
use timberdoodle.HisQuery.Calls.{Query, parse, parse_query}

-- The compiler looks at the filter alone for its errors.
compile_filter-some :
    (v w : Vocabularies) (node : Node) (q : Expr × List Pattern)
    → compile_filter v node ≡ some q
    → (r : Expr × List Pattern) × (compile_filter w node ≡ some r)
compile_filter-some v w node q h = elim (Bool-cases (is_valid node)) [
  | inl e ↦ let (r, k, m) = compile_filter-satisfies w (λ p s. true) (λ p s. refl) node e in (r, k)
  | inr e ↦ ground (arith, compile_filter-none v node e, h)
]

module _ (source : List Token → List Token → String) (utc : Zone) (start_of_2000 : ℕ) where
  -- A query that is accepted without a graph is compiled against any graph, so a filter raises no
  -- HisQueryError once the store has been asked.
  pub parse_query-compiles :
      (v : Vocabularies) (ts : List Token) (q : Query) (g : GraphVocab)
      → parse_query source utc start_of_2000 v ts ≡ some q
      → (r : Expr × List Pattern) × (compile_filter (record v { graph = g }) q.filter ≡ some r)
  unfolding parse_query
  parse_query-compiles v ts q g h = elim (Option-cases (parse source utc start_of_2000 ts)) [
    | inl e ↦ ground (arith, e, h)
    | inr (p, e) ↦ elim (Option-cases (compile_filter v p.filter)) [
      | inl k ↦ ground (arith, e, k, h)
      | inr (c, k) ↦
          let same : p ≡ q = ground (arith, e, k, h) in
          compile_filter-some v (record v { graph = g }) q.filter c (ground (arith, k, same))
    ]
  ]
