-- ===== src/HisQuery/RoundTrip.antt =====
-- A filter that is printed and parsed again.
use timberdoodle.Base.{
  ℕ, suc, ◌+◌, ◌*◌, ◌≤◌, ◌-◌, true, some, List, [], ◌∷◌, ◌++◌, ◌≡◌, refl, sym, ap, ◌∙◌, arith,
  length, length-append, append-nil,
}
use timberdoodle.HisQuery.{
  Token, op, name, rparen, kw_and, kw_or, kw_not, Node, has, cmp, not, and, or, parse_rest, filter,
  conj, term, or_loop, and_loop, parse_goal, parse_filter,
}
use timberdoodle.HisQuery.Print.{token_of, print, cost, enclosed}
use timberdoodle.HisQuery.Steps.{
  stops, ends, stops_of_ends, parse_value-token_of, parse_rest_has, same_fuel, conj_of_term,
  filter_of_conj, every_level, term_of_filter, and_step, or_step,
}

-- Each printed form of a node parses to it, with the fuel that it costs and any more.
record Parses (n : Node) : Type 0 where
  positive : 1 ≤ (cost n).term
  loop_positive : 1 ≤ (cost n).conj_loop
  conj_positive : 1 ≤ (cost n).conj
  as_term :
      (f : ℕ) (rest : List Token)
      → stops rest ≡ true
      → parse_goal ((cost n).term + f) term ((print n).term ++ rest) ≡ some (n, rest)
  as_conj :
      (f : ℕ) (rest : List Token)
      → stops rest ≡ true
      → parse_goal ((cost n).conj + f) conj ((print n).conj ++ rest)
        ≡ parse_goal ((cost n).conj_loop + f) (and_loop n) rest
  as_filter :
      (f : ℕ) (rest : List Token)
      → ends rest ≡ true
      → parse_goal ((cost n).filter + f) filter ((print n).filter ++ rest)
        ≡ parse_goal ((cost n).filter_loop + f) (or_loop n) rest

node-Parses : (n : Node) → Parses n
unfolding parse_goal
node-Parses (has tag) =
    let at_term : (f : ℕ) (rest : List Token)
        → stops rest ≡ true
        → parse_goal (1 + f) term (name tag ∷ rest) ≡ some (has tag, rest) =
      λ f rest s.
        same_fuel (suc f) term (name tag ∷ rest) (omega arith) ∙ parse_rest_has tag rest s in
    let (at_conj, at_filter) = every_level (has tag) 1 (name tag ∷ []) (omega arith) at_term in
    record {
      positive = omega arith;
      loop_positive = omega arith;
      conj_positive = omega arith;
      as_term = at_term;
      as_conj = at_conj;
      as_filter = at_filter;
    }
node-Parses (cmp tag o v) =
    let ts : List Token = name tag ∷ op o ∷ token_of v ∷ [] in
    let at_term : (f : ℕ) (rest : List Token)
        → stops rest ≡ true
        → parse_goal (1 + f) term (ts ++ rest) ≡ some (cmp tag o v, rest) =
      λ f rest s.
        same_fuel (suc f) term (ts ++ rest) (omega arith)
        ∙ (unfold parse_rest in rw (parse_value-token_of v rest) refl) in
    let (at_conj, at_filter) = every_level (cmp tag o v) 1 ts (omega arith) at_term in
    record {
      positive = omega arith;
      loop_positive = omega arith;
      conj_positive = omega arith;
      as_term = at_term;
      as_conj = at_conj;
      as_filter = at_filter;
    }
node-Parses (not n) =
    let inner = node-Parses n in
    let ts : List Token = kw_not ∷ (print n).term in
    let at_term : (f : ℕ) (rest : List Token)
        → stops rest ≡ true
        → parse_goal (suc (cost n).term + f) term (ts ++ rest) ≡ some (not n, rest) =
      λ f rest s.
        same_fuel (suc ((cost n).term + f)) term (ts ++ rest) (omega arith)
        ∙ rw (inner.as_term f rest s, parse_goal) refl in
    let (at_conj, at_filter) = every_level (not n) (suc (cost n).term) ts (omega arith) at_term in
    record {
      positive = omega arith;
      loop_positive = omega arith;
      conj_positive = omega arith;
      as_term = at_term;
      as_conj = at_conj;
      as_filter = at_filter;
    }
node-Parses (and l r) =
    let a = node-Parses l in
    let b = node-Parses r in
    let ts : List Token = (print l).conj ++ kw_and ∷ (print r).term in
    let at_conj : (f : ℕ) (rest : List Token)
        → stops rest ≡ true
        → parse_goal ((cost l).conj + suc (cost r).term + f) conj (ts ++ rest)
          ≡ parse_goal ((cost l).conj_loop + (cost r).term + f) (and_loop (and l r)) rest =
      λ f rest s. and_step l r a.as_conj b.as_term f rest s in
    let at_filter : (f : ℕ) (rest : List Token)
        → ends rest ≡ true
        → parse_goal (suc ((cost l).conj + suc (cost r).term) + f) filter (ts ++ rest)
          ≡ parse_goal ((cost l).conj + suc (cost r).term + f) (or_loop (and l r)) rest =
      λ f rest e.
        filter_of_conj ((cost l).conj + suc (cost r).term) ((cost l).conj_loop + (cost r).term) f
          (and l r) ts rest (at_conj f rest (stops_of_ends rest e)) (omega (arith, a.loop_positive))
          e in
    record {
      positive = omega arith;
      loop_positive = omega (arith, a.loop_positive);
      conj_positive = omega arith;
      as_term = λ f rest s.
          term_of_filter (suc ((cost l).conj + suc (cost r).term))
            ((cost l).conj + suc (cost r).term) f (and l r) ts rest (at_filter f) (omega arith);
      as_conj = at_conj;
      as_filter = at_filter;
    }
node-Parses (or l r) =
    let a = node-Parses l in
    let b = node-Parses r in
    let ts : List Token = (print l).filter ++ kw_or ∷ (print r).conj in
    let at_filter : (f : ℕ) (rest : List Token)
        → ends rest ≡ true
        → parse_goal ((cost l).filter + suc (cost r).conj + f) filter (ts ++ rest)
          ≡ parse_goal ((cost l).filter_loop + (cost r).conj + f) (or_loop (or l r)) rest =
      λ f rest e. or_step l r a.as_filter b.as_conj b.loop_positive f rest e in
    let at_term : (f : ℕ) (rest : List Token)
        → stops rest ≡ true
        → parse_goal (suc ((cost l).filter + suc (cost r).conj) + f) term (enclosed ts ++ rest)
          ≡ some (or l r, rest) =
      λ f rest s.
        term_of_filter ((cost l).filter + suc (cost r).conj) ((cost l).filter_loop + (cost r).conj)
          f (or l r) ts rest (at_filter f) (omega (arith, b.conj_positive)) in
    record {
      positive = omega arith;
      loop_positive = omega arith;
      conj_positive = omega arith;
      as_term = at_term;
      as_conj = λ f rest s.
          conj_of_term (suc ((cost l).filter + suc (cost r).conj)) f (or l r) (enclosed ts) rest
            (at_term f rest s);
      as_filter = at_filter;
    }

-- Four units of fuel for each token are enough.
record IsCheap (n : Node) : Type 0 where
  term_cost : (cost n).term + 2 ≤ 4 * length (print n).term
  conj_cost : (cost n).conj + 1 ≤ 4 * length (print n).conj
  filter_cost : (cost n).filter ≤ 4 * length (print n).filter

node-IsCheap : (n : Node) → IsCheap n
node-IsCheap (has tag) = record {
  term_cost = omega arith;
  conj_cost = omega arith;
  filter_cost = omega arith;
}
node-IsCheap (cmp tag o v) = record {
  term_cost = omega arith;
  conj_cost = omega arith;
  filter_cost = omega arith;
}
node-IsCheap (not n) =
    let a = (node-IsCheap n).term_cost in
    record {
      term_cost = omega (arith, a);
      conj_cost = omega (arith, a);
      filter_cost = omega (arith, a);
    }
node-IsCheap (and l r) =
    let a = (node-IsCheap l).conj_cost in
    let b = (node-IsCheap r).term_cost in
    let ts = (print l).conj ++ kw_and ∷ (print r).term in
    let m = length-append (print l).conj (kw_and ∷ (print r).term) in
    let k = length-append ts (rparen ∷ []) in
    record {
      term_cost = omega (arith, a, b, m, k);
      conj_cost = omega (arith, a, b, m);
      filter_cost = omega (arith, a, b, m);
    }
node-IsCheap (or l r) =
    let a = (node-IsCheap l).filter_cost in
    let b = (node-IsCheap r).conj_cost in
    let ts = (print l).filter ++ kw_or ∷ (print r).conj in
    let m = length-append (print l).filter (kw_or ∷ (print r).conj) in
    let k = length-append ts (rparen ∷ []) in
    record {
      term_cost = omega (arith, a, b, m, k);
      conj_cost = omega (arith, a, b, m, k);
      filter_cost = omega (arith, a, b, m);
    }

-- Every filter is read back: the tokens that print it, with parentheses only where `not`, `and` and
-- `or` ask for them, parse to it and to nothing after it. So `not` binds closer than `and`, `and`
-- closer than `or`, both to the left, and a string's escapes come off.
pub parse_filter-print : (n : Node) → parse_filter (print n).filter ≡ some (n, [])
unfolding parse_filter parse_goal
parse_filter-print n =
    let tokens = (print n).filter in
    let spare = 4 * length tokens + 4 - (cost n).filter in
    same_fuel ((cost n).filter + spare) filter tokens (omega (arith, (node-IsCheap n).filter_cost))
    ∙ (ap (λ ts. parse_goal ((cost n).filter + spare) filter ts) (sym (append-nil tokens))
        ∙ ((node-Parses n).as_filter spare [] refl
            ∙ same_fuel (suc ((cost n).filter_loop + spare - 1)) (or_loop n) []
                (omega (arith, (node-IsCheap n).filter_cost))))
