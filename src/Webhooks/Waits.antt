-- ===== src/Webhooks/Waits.antt =====
-- How often `deliver` calls `requests.post` and how long it waits.
use timberdoodle.Base.{
  ℕ, zero, suc, ◌+◌, ◌*◌, ◌^◌, ◌≤◌, ◌≡◌, refl, String, Bool, Option, none, some, List, [], ◌∷◌,
  ◌++◌, arith, Option-cases, inl, inr, ap,
}
use native.Mathlib.Numerals.{add-one}
use native.Mathlib.Nat.{pow-suc, add-zero, add-suc, zero-add}
use timberdoodle.Webhooks.{
  Network, Effect, slept, posted, Delivery, validate_url, deliver_from, deliver, backoff, judge,
  preceded, delivered, fatal, transient, conclude, Problem, Outcome,
}

abbrev pub waited : List Effect → ℕ
waited [] = 0
waited (slept n ∷ es) = n + waited es
waited (posted _ _ ∷ es) = waited es

abbrev pub requests : List Effect → ℕ
requests [] = 0
requests (slept _ ∷ es) = requests es
requests (posted _ _ ∷ es) = 1 + requests es

waited-preceded :
    (es : List Effect) (d : Delivery)
    → waited (preceded es d).effects ≡ waited es + waited d.effects
waited-preceded [] d = omega arith
waited-preceded (slept n ∷ es) d = omega (arith, waited-preceded es d)
waited-preceded (posted n hs ∷ es) d = waited-preceded es d

module _ (net : Network) (allow_private : Bool) (url : String) (base : ℕ) where
  unit : ℕ → ℕ
  unit b = base * 2 ^ b

  unit-suc : (b : ℕ) → unit (suc b) ≡ unit b + unit b
  unfolding unit
  unit-suc b = rw pow-suc (omega arith)

  unit_mono : (b n : ℕ) → unit b ≤ unit (b + n)
  unit_mono b zero = rw add-zero (omega arith)
  unit_mono b (suc n) = rw add-suc (omega (arith, unit-suc (b + n), unit_mono b n))

  unit_shift : (b left : ℕ) → unit (suc b + left) ≡ unit (b + suc left)
  unit_shift b left = ap unit (omega arith)

  unit_doubles : (b left : ℕ) → unit b + unit b ≤ unit (b + suc left)
  unit_doubles b left = omega (arith, unit-suc b, unit_mono (suc b) left, unit_shift b left)

  abbrev next : ℕ → ℕ → Problem → Delivery
  next left b e = deliver_from net allow_private url base left (suc (suc b)) (some e)

  conclude_waits :
      (o : Outcome) (k : Problem → Delivery) (x y : ℕ)
      → x ≤ y
      → ((e : Problem) → waited (k e).effects + x ≤ y)
      → waited (conclude o k).effects + x ≤ y
  conclude_waits delivered k x y h ih = omega arith
  conclude_waits (fatal e) k x y h ih = omega arith
  conclude_waits (transient e) k x y h ih = ih e

  -- From attempt `b + 1` on, with `left` attempts left.
  deliver_from_waits :
      (left b : ℕ) (last : Option Problem)
      → waited (deliver_from net allow_private url base left (suc b) last).effects + unit b
        ≤ unit (b + left)
  unfolding deliver_from unit
  deliver_from_waits zero b last = omega (arith, unit_mono b 0)
  deliver_from_waits (suc left) b last =
      elim (Option-cases (validate_url net (suc b) allow_private url)) [
        | inr (e, p) ↦ rw (p, deliver_from) (omega (arith, unit_doubles b left))
        | inl p ↦
            rw (p, deliver_from)
              (rw add-one (
                omega (
                  arith,
                  unit-suc b,
                  unit_shift b left,
                  conclude_waits (judge (net.post (suc b))) (next left b) (unit (suc b))
                      (unit (suc b + left)) (unit_mono (suc b) left)
                      (λ e. deliver_from_waits left (suc b) (some e)),
                )))
      ]

  requests-preceded :
      (a : ℕ) (d : Delivery)
      → requests (preceded (backoff base a ++ posted a (net.hops a) ∷ []) d).effects
        ≡ 1 + requests d.effects
  requests-preceded zero d = refl
  requests-preceded (suc a) d = refl

  requests-conclude :
      (o : Outcome) (k : Problem → Delivery) (n : ℕ)
      → ((e : Problem) → requests (k e).effects ≤ n)
      → requests (conclude o k).effects ≤ n
  requests-conclude delivered k n h = omega arith
  requests-conclude (fatal e) k n h = omega arith
  requests-conclude (transient e) k n h = h e

  requests-backoff : (a : ℕ) → requests (backoff base a) ≡ 0
  requests-backoff zero = refl
  requests-backoff (suc a) = refl

  requests-deliver_from :
      (left a : ℕ) (last : Option Problem)
      → requests (deliver_from net allow_private url base left a last).effects ≤ left
  unfolding deliver_from
  requests-deliver_from zero a last = omega arith
  requests-deliver_from (suc left) a last =
      elim (Option-cases (validate_url net a allow_private url)) [
        | inr (e, p) ↦ rw (p, deliver_from) (omega (arith, requests-backoff a))
        | inl p ↦
            rw (p, deliver_from)
              (rw (requests-preceded a _) (
                omega (
                  arith,
                  requests-conclude (judge (net.post a))
                      (λ e. deliver_from net allow_private url base left (a + 1) (some e)) left
                      (λ e. requests-deliver_from left (a + 1) (some e)),
                )))
      ]

  first_waits :
      (m : ℕ)
      → waited (deliver_from net allow_private url base (suc m) 0 none).effects + base
        ≤ base * 2 ^ m
  unfolding deliver_from unit
  first_waits m = elim (Option-cases (validate_url net 0 allow_private url)) [
    | inr (e, p) ↦ rw (p, deliver_from) (omega (arith, unit_mono 0 m, ap unit (zero-add m)))
    | inl p ↦
        rw (p, deliver_from)
          (omega (
            arith,
            conclude_waits (judge (net.post 0))
                (λ e. deliver_from net allow_private url base m 1 (some e)) (unit 0) (unit (0 + m))
                (unit_mono 0 m) (λ e. deliver_from_waits m 0 (some e)),
            ap unit (zero-add m),
          ))
  ]

-- With `m + 1` attempts allowed, a delivery calls `requests.post` at most once in each, and its waits
-- add up to at most `base * (2 ^ m - 1)`.
pub deliver_is_bounded :
    (net : Network) (allow_private : Bool) (url : String) (base m : ℕ)
    → let d = deliver net allow_private url base (suc m) in
      (requests d.effects ≤ suc m) × (waited d.effects + base ≤ base * 2 ^ m)
unfolding deliver
deliver_is_bounded net allow_private url base m = (
  requests-deliver_from net allow_private url base (suc m) 0 none,
  first_waits net allow_private url base m,
)
