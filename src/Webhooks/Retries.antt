-- ===== src/Webhooks/Retries.antt =====
-- How often and for how long `deliver` tries.
use timberdoodle.Base.{
  ℕ, zero, suc, ◌+◌, ◌≤◌, ◌<◌, ◌≡◌, ◌↔◌, refl, String, Bool, true, false, Option, none, some, List,
  [], ◌∷◌, ◌++◌, ◌==◌, arith, Bool-cases, Option-cases, inl, inr, ◌⊎◌, ==_iff, ap, sym, ◌∙◌,
}
use timberdoodle.Webhooks.{
  Network, Effect, posted, Delivery, validate_url, deliver_from, deliver, backoff, judge, preceded,
  delivered, fatal, transient, conclude, Problem, Outcome, refused,
}

abbrev is_transient : Outcome → Bool
is_transient (transient _) = true
is_transient _ = false

Outcome-cases :
    (o : Outcome)
    → (o ≡ delivered) ⊎ (((e : Problem) × (o ≡ fatal e)) ⊎ ((e : Problem) × (o ≡ transient e)))
Outcome-cases delivered = inl refl
Outcome-cases (fatal e) = inr (inl (e, refl))
Outcome-cases (transient e) = inr (inr (e, refl))

-- What one attempt comes to, whatever came before it.
module _ (net : Network) (allow_private : Bool) (url : String) where
  pub outcome : ℕ → Outcome
  outcome a = elim (validate_url net a allow_private url) [
    | some e ↦ fatal (refused e)
    | none ↦ judge (net.post a)
  ]

  -- The first attempt that is not a passing failure, among `left` attempts from `a` on.
  pub settle : ℕ → ℕ → Option Problem → Bool × Option Problem
  settle zero a last = (false, last)
  settle (suc left) a last = elim (outcome a) [
    | delivered ↦ (true, none)
    | fatal e ↦ (false, some e)
    | transient e ↦ settle left (a + 1) (some e)
  ]

  abbrev verdict : Delivery → Bool × Option Problem
  verdict d = (d.success, d.last_error)

  conclude-verdict :
      (o : Outcome) (es : List Effect) (k : Problem → Delivery)
      (s : Problem → Bool × Option Problem)
      → ((e : Problem) → verdict (k e) ≡ s e)
      → verdict (preceded es (conclude o k))
        ≡ elim o [ delivered ↦ (true, none) | fatal e ↦ (false, some e) | transient e ↦ s e ]
  conclude-verdict delivered es k s h = refl
  conclude-verdict (fatal e) es k s h = refl
  conclude-verdict (transient e) es k s h = h e

  deliver_from-settle :
      (base left a : ℕ) (last : Option Problem)
      → verdict (deliver_from net allow_private url base left a last) ≡ settle left a last
  unfolding deliver_from settle outcome
  deliver_from-settle base zero a last = refl
  deliver_from-settle base (suc left) a last =
      elim (Option-cases (validate_url net a allow_private url)) [
        | inr (e, p) ↦ rw (p, deliver_from, settle) refl
        | inl p ↦
            rw (p, deliver_from, settle)
              (conclude-verdict (judge (net.post a)) (backoff base a ++ posted a (net.hops a) ∷ [])
                (λ e. deliver_from net allow_private url base left (a + 1) (some e))
                (λ e. settle left (a + 1) (some e))
                (λ e. deliver_from-settle base left (a + 1) (some e)))
      ]

  -- Attempt `k`, one of the `left` from `a` on, delivers, and each one before it fails in passing.
  pub record Succeeds (a left : ℕ) : Type 0 where
    pub at : ℕ
    pub from : a ≤ at
    pub below : at < a + left
    pub delivers : outcome at ≡ delivered
    pub passing : (i : ℕ) → a ≤ i → i < at → is_transient (outcome i) ≡ true

  settle→Succeeds :
      (left a : ℕ) (last : Option Problem) → (settle left a last).0 ≡ true → Succeeds a left
  unfolding settle
  settle→Succeeds zero a last h = cc
  settle→Succeeds (suc left) a last h = elim (Outcome-cases (outcome a)) [
    | inl d ↦ record {
      at = a;
      from = omega arith;
      below = omega arith;
      delivers = d;
      passing = λ i l u. absurd (omega arith);
    }
    | inr (inl (e, d)) ↦ absurd (ground (arith, d))
    | inr (inr (e, d)) ↦
        let s = settle→Succeeds left (a + 1) (some e) (ground (arith, d)) in
        record {
          at = s.at;
          from = omega (arith, s.from);
          below = omega (arith, s.below);
          delivers = s.delivers;
          passing = λ i l u. elim (Bool-cases (i == a)) [
            | inl q ↦ let w : i ≡ a = (==_iff i a).0 q in rw (w, d) refl
            | inr q ↦ s.passing i (ground arith) u
          ];
        }
  ]

  Succeeds→settle :
      (left a : ℕ) (last : Option Problem) → Succeeds a left → (settle left a last).0 ≡ true
  unfolding settle
  Succeeds→settle zero a last s = absurd (omega (arith, s.from, s.below))
  Succeeds→settle (suc left) a last s = elim (Bool-cases (s.at == a)) [
    | inl q ↦
        let here : outcome a ≡ delivered = rw (ap outcome ((==_iff s.at a).0 q)) at s.delivers in
        ground (arith, here)
    | inr q ↦ elim (Outcome-cases (outcome a)) [
      | inl d ↦ ground (arith, d)
      | inr (inl (e, d)) ↦ absurd (ground (arith, d, s.passing a (omega arith) (ground arith)))
      | inr (inr (e, d)) ↦
          let rest = Succeeds→settle left (a + 1) (some e) (record {
            at = s.at;
            from = ground arith;
            below = omega (arith, s.below);
            delivers = s.delivers;
            passing = λ i l v. s.passing i (omega arith) v;
          }) in
          ground (arith, d, rest)
    ]
  ]

-- A delivery succeeds exactly when some allowed attempt delivers and every attempt before it fails in
-- a way that is retried; a refused target or an invalid request ends it at once. A response delivers
-- unless its status is in the 400s or 500s, so one in the 300s does too.
pub deliver-Succeeds_iff :
    (net : Network) (allow_private : Bool) (url : String) (base max_attempts : ℕ)
    → ((deliver net allow_private url base max_attempts).success ≡ true)
      ↔ Succeeds net allow_private url 0 max_attempts
unfolding deliver
deliver-Succeeds_iff net allow_private url base n =
    let same = ap (λ x. x.0) (deliver_from-settle net allow_private url base n 0 none) in
    (
      λ h. settle→Succeeds net allow_private url n 0 none (sym same ∙ h),
      λ s. same ∙ Succeeds→settle net allow_private url n 0 none s,
    )
