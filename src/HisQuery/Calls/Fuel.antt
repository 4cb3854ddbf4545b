-- ===== src/HisQuery/Calls/Fuel.antt =====
-- The loop over a query's calls, by the tokens that each call leaves.
use timberdoodle.Base.{
  ℕ, zero, suc, ◌≤◌, ◌<◌, ◌≡◌, refl, ap, inl, inr, String, Option, some, List, [], ◌∷◌, arith,
  length, str_eq, is_some, Option-cases, Bool-cases,
}
use timberdoodle.Base.Text.{strip}
use timberdoodle.HisQuery.{Token, bind, bind-cases}
use timberdoodle.HisQuery.Interval.{parse_interval}
use timberdoodle.HisQuery.Span.Resolve.{Zone}
use timberdoodle.HisQuery.Calls.{
  Paren, opens, closes, other, paren, at_token, Rollup, Calls, to_close, behind, validate_span_text,
  span_of, parse_his_read, expect, punct_lparen, punct_rparen, punct_comma, a_name, a_number,
  punct_dot, next_call, known_fold, checked_interval, parse_his_rollup, parse_call, parse_calls,
}

at_token-le :
    (p : Paren) (depth n : ℕ) (here close : List Token) (later : ℕ → Option (List Token))
    → ((d : ℕ) → later d ≡ some close → length close ≤ n)
    → length here ≤ suc n
    → at_token p depth here later ≡ some close
    → length close ≤ suc n
at_token-le opens depth n here close later h k e = omega (arith, h (suc depth) e)
at_token-le closes zero n here close later h k e = ground (arith, k, e)
at_token-le closes (suc depth) n here close later h k e = omega (arith, h depth e)
at_token-le other depth n here close later h k e = omega (arith, h depth e)

to_close-le :
    (ts : List Token) (depth : ℕ) (close : List Token)
    → to_close ts depth ≡ some close
    → length close ≤ length ts
unfolding to_close
to_close-le [] depth close h = cc
to_close-le (t ∷ ts) depth close h =
    at_token-le (paren t) depth (length ts) (t ∷ ts) close (to_close ts)
      (λ d e. to_close-le ts d close e) (omega arith) h

behind-le : (ts : List Token) → length (behind ts) ≤ length ts
behind-le [] = omega arith
behind-le (t ∷ ts) = omega arith

expect-le {ℓ} :
    {A : Type ℓ} (kind : Token → Option A) (ts : List Token) (r : A × List Token)
    → expect kind ts ≡ some r
    → length r.1 ≤ length ts
unfolding expect
expect-le kind [] r h = cc
expect-le kind (t ∷ ts) r h = elim (Option-cases (kind t)) [
  | inl e ↦ ground (arith, e, h)
  | inr (a, e) ↦ ground (arith, e, h)
]

known_fold-le : (r s : String × List Token) → known_fold r ≡ some s → length s.1 ≤ length r.1
known_fold-le r s h = ground (arith, h)

checked_interval-le :
    (r s : String × List Token) → checked_interval r ≡ some s → length s.1 ≤ length r.1
unfolding checked_interval
checked_interval-le r s h = elim (Option-cases (parse_interval (strip r.0))) [
  | inl e ↦ ground (arith, e, h)
  | inr (i, e) ↦ ground (arith, e, h)
]

parse_his_rollup-le :
    (ts : List Token) (r : Rollup × List Token)
    → parse_his_rollup ts ≡ some r
    → length r.1 ≤ length ts
unfolding parse_his_rollup
parse_his_rollup-le ts r h =
    let (a, ea, ha) = bind-cases (expect punct_lparen ts) _ r h in
    let (f, ef, hf) = bind-cases (bind (expect a_name a.1) known_fold) _ r ha in
    let (f', ef', kf) = bind-cases (expect a_name a.1) known_fold f ef in
    let (b, eb, hb) = bind-cases (expect punct_comma f.1) _ r hf in
    let (i, ei, hi) = bind-cases (bind (expect a_number b.1) checked_interval) _ r hb in
    let (i', ei', ki) = bind-cases (expect a_number b.1) checked_interval i ei in
    let (c, ec, hc) = bind-cases (expect punct_rparen i.1) _ r hi in
    let last : c.1 ≡ r.1 = ground (arith, hc) in
    omega (
      arith,
      expect-le punct_lparen ts a ea,
      expect-le a_name a.1 f' ef',
      known_fold-le f' f kf,
      expect-le punct_comma f.1 b eb,
      expect-le a_number b.1 i' ei',
      checked_interval-le i' i ki,
      expect-le punct_rparen i.1 c ec,
      ap length last,
    )

expect-lt {ℓ} :
    {A : Type ℓ} (kind : Token → Option A) (ts : List Token) (r : A × List Token)
    → expect kind ts ≡ some r
    → length r.1 < length ts
unfolding expect
expect-lt kind [] r h = cc
expect-lt kind (t ∷ ts) r h = elim (Option-cases (kind t)) [
  | inl e ↦ ground (arith, e, h)
  | inr (a, e) ↦ ground (arith, e, h)
]

next_call-lt :
    (ts : List Token) (r : String × List Token) → next_call ts ≡ some r → length r.1 < length ts
unfolding next_call
next_call-lt ts r h =
    let (d, ed, hd) = bind-cases (expect punct_dot ts) _ r h in
    omega (arith, expect-lt punct_dot ts d ed, expect-lt a_name d.1 r hd)

module _ (source : List Token → List Token → String) (utc : Zone) (start_of_2000 : ℕ) where
  span_of-le :
      (ts close : List Token) (r : String × List Token)
      → span_of source utc start_of_2000 ts close ≡ some r
      → length r.1 ≤ length close
  unfolding span_of
  span_of-le ts close r h = elim (Bool-cases (str_eq (strip (source ts close)) "")) [
    | inl e ↦ ground (arith, e, h)
    | inr e ↦
        let (u, eu, hu) =
          bind-cases (validate_span_text source utc start_of_2000 (strip (source ts close)))
            (λ u. some (u, behind close)) r (ground (arith, e, h)) in
        let last : behind close ≡ r.1 = ground (arith, hu) in
        omega (arith, behind-le close, ap length last)
  ]

  parse_his_read-le :
      (ts : List Token) (r : String × List Token)
      → parse_his_read source utc start_of_2000 ts ≡ some r
      → length r.1 ≤ length ts
  unfolding parse_his_read
  parse_his_read-le ts r h =
      let (a, ea, ha) = bind-cases (expect punct_lparen ts) _ r h in
      let (close, ec, hc) = bind-cases (to_close a.1 zero) _ r ha in
      omega (
        arith,
        expect-le punct_lparen ts a ea,
        to_close-le a.1 zero close ec,
        span_of-le a.1 close r hc,
      )

  parse_call-le :
      (c : Calls) (fn : String) (ts : List Token) (r : Calls × List Token)
      → parse_call source utc start_of_2000 c fn ts ≡ some r
      → length r.1 ≤ length ts
  unfolding parse_call
  parse_call-le c fn ts r h = elim (Bool-cases (str_eq fn "hisRead")) [
    | inl e ↦ elim (Bool-cases (is_some c.span_text)) [
      | inl k ↦ ground (arith, e, k, h)
      | inr k ↦
          let (s, es, hs) =
            bind-cases (parse_his_read source utc start_of_2000 ts)
              (λ s. some (record c { span_text = some s.0 }, s.1)) r (ground (arith, e, k, h)) in
          let last : s.1 ≡ r.1 = ground (arith, hs) in
          omega (arith, parse_his_read-le ts s es, ap length last)
    ]
    | inr e ↦ elim (Bool-cases (str_eq fn "hisRollup")) [
      | inl f ↦ elim (Bool-cases (is_some c.rollup)) [
        | inl k ↦ ground (arith, e, f, k, h)
        | inr k ↦
            let (s, es, hs) =
              bind-cases (parse_his_rollup ts) (λ s. some (record c { rollup = some s.0 }, s.1)) r
                (ground (arith, e, f, k, h)) in
            let last : s.1 ≡ r.1 = ground (arith, hs) in
            omega (arith, parse_his_rollup-le ts s es, ap length last)
      ]
      | inr f ↦ ground (arith, e, f, h)
    ]
  ]

  -- The fuel of the loop over the calls is never what ends it: with the number of the tokens, or any
  -- more, the result is the same.
  pub parse_calls-fuel :
      (f g : ℕ) (c : Calls) (ts : List Token)
      → length ts ≤ f
      → length ts ≤ g
      → parse_calls source utc start_of_2000 f c ts ≡ parse_calls source utc start_of_2000 g c ts
  unfolding parse_calls
  parse_calls-fuel f g c [] h k = refl
  parse_calls-fuel zero g c (t ∷ ts) h k = absurd (omega arith)
  parse_calls-fuel (suc f) zero c (t ∷ ts) h k = absurd (omega arith)
  parse_calls-fuel (suc f) (suc g) c (t ∷ ts) h k = elim (Option-cases (next_call (t ∷ ts))) [
    | inl e ↦ rw (e, bind)
    | inr (n, e) ↦ elim (Option-cases (parse_call source utc start_of_2000 c n.0 n.1)) [
      | inl q ↦ rw (e, bind, q)
      | inr (r, q) ↦
          rw (e, bind, q)
            (parse_calls-fuel f g r.0 r.1
              (omega (arith, next_call-lt (t ∷ ts) n e, parse_call-le c n.0 n.1 r q))
              (omega (arith, next_call-lt (t ∷ ts) n e, parse_call-le c n.0 n.1 r q)))
    ]
  ]
