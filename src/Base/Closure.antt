-- ===== src/Base/Closure.antt =====
-- The worklist loop that the vocabularies share: everything that can be reached from some texts.
use Prim.Native.Nat.{ℕ, zero, suc, ◌+◌, ◌≤◌}
use Prim.Native.String.{String}
use mathlib.Core.Path.{◌≡◌, refl, subst}
use mathlib.Core.Logic.{◌↔◌, inl, inr}
use mathlib.Core.Bool.{Bool, true, false, not, ◌||◌}
use mathlib.Core.Option.{Option, none, some}
use mathlib.Core.List.{List, [], ◌∷◌, ◌++◌}
use native.Mathlib.Omega.{arith}
use text.Mathlib.TextEquality.{eq_iff}
use text.Mathlib.Text.{◌==◌ as str_eq}
use timberdoodle.Base.Tests.{if◌then◌else◌, Bool-cases}
use timberdoodle.Base.Lists.{length, length-append}
use timberdoodle.Base.Members.{contains, contains-append}

module _ (allowed : String → Bool) (next : String → List String) where
  -- `while stack: n = stack.pop(); if n in out ...: continue; out.add(n); stack.extend(...)`. A set
  -- is a list, and `none` says that the fuel ran out.
  unfoldable pub closure : ℕ → List String → List String → Option (List String)
  closure fuel [] out = some out
  closure zero (n ∷ stack) out = none
  closure (suc fuel) (n ∷ stack) out =
      let skipped = closure fuel stack out in
      let added = closure fuel (next n ++ stack) (n ∷ out) in
      if contains out n || not (allowed n) then skipped else added

  -- A walk from `s` along `next` that stays among the allowed texts.
  pub data Walk (s : String) : String → Type 0 where
    here : allowed s ≡ true → Walk s s
    step :
        {x : String}
        → Walk s x
        → (y : String) → contains (next x) y ≡ true
        → allowed y ≡ true
        → Walk s y

  abbrev pub Found : List String → String → Type 0
  Found start x = (s : String) × (contains start s ≡ true) × Walk s x

  -- What a text that is still to be visited may push.
  unfoldable pub cost : List String → List String → ℕ
  cost [] out = 0
  cost (u ∷ us) out = (if contains out u then 0 else length (next u)) + cost us out

  cost-cons : (us out : List String) (n : String) → cost us (n ∷ out) ≤ cost us out
  unfolding cost
  cost-cons [] out n = omega arith
  cost-cons (u ∷ us) out n = ground (arith, cost-cons us out n, eq_iff n u)

  cost-visit :
      (us out : List String) (n : String)
      → contains us n ≡ true
      → contains out n ≡ false
      → cost us (n ∷ out) + length (next n) ≤ cost us out
  unfolding cost
  cost-visit [] out n h k = cc
  cost-visit (u ∷ us) out n h k = elim (Bool-cases (str_eq u n)) [
    | inl e ↦ rw ((eq_iff u n).0 e, k, (eq_iff n n).1 refl) (omega (arith, cost-cons us out n))
    | inr e ↦ ground (arith, cost-visit us out n, eq_iff u n, eq_iff n u)
  ]

  record Inv (start stack out : List String) : Type 0 where
    begun :
        (s : String)
        → contains start s ≡ true
        → allowed s ≡ true
        → (contains out s || contains stack s) ≡ true
    closed :
        (x y : String)
        → contains out x ≡ true
        → contains (next x) y ≡ true
        → allowed y ≡ true
        → (contains out y || contains stack y) ≡ true
    sound_out : (x : String) → contains out x ≡ true → Found start x
    sound_stack : (x : String) → contains stack x ≡ true → allowed x ≡ true → Found start x

  Inv-start : (start : List String) → Inv start start []
  Inv-start start = record {
    begun = λ s h a. h;
    closed = λ x y h. cc;
    sound_out = λ x h. cc;
    sound_stack = λ x h a. (x, h, here a);
  }

  Inv-skip :
      (start stack out : List String) (n : String)
      → Inv start (n ∷ stack) out
      → (contains out n || not (allowed n)) ≡ true
      → Inv start stack out
  Inv-skip start stack out n i h = record {
    begun = λ s b a. ground (arith, i.begun s b a, eq_iff n s);
    closed = λ x y o e a. ground (arith, i.closed x y o e a, eq_iff n y);
    sound_out = i.sound_out;
    sound_stack = λ x m a. i.sound_stack x (ground arith) a;
  }

  Inv-visit :
      (start stack out : List String) (n : String)
      → Inv start (n ∷ stack) out
      → (contains out n || not (allowed n)) ≡ false
      → Inv start (next n ++ stack) (n ∷ out)
  Inv-visit start stack out n i h = record {
    begun = λ s b a. ground (arith, i.begun s b a, eq_iff n s, contains-append (next n) stack s);
    closed = λ x y o e a. elim (Bool-cases (str_eq n x)) [
      | inl q ↦ ground (arith, e, contains-append (next n) stack y, (eq_iff n x).0 q)
      | inr q ↦
          ground (arith, i.closed x y, eq_iff n y, contains-append (next n) stack y, q, o, e, a)
    ];
    sound_out = λ x o. elim (Bool-cases (str_eq n x)) [
      | inl q ↦ subst (Found start) ((eq_iff n x).0 q) now
      | inr q ↦ i.sound_out x (ground arith)
    ];
    sound_stack = λ x m a. elim (Bool-cases (contains (next n) x)) [
      | inl q ↦ (now.0, now.1, step now.2 x q a)
      | inr q ↦ i.sound_stack x (ground (arith, contains-append (next n) stack x)) a
    ];
  }
    where
      now : Found start n
      now = i.sound_stack n (ground (arith, (eq_iff n n).1 refl)) (ground arith)

  module _ (universe : List String)
      (unlisted : (n : String) → allowed n ≡ true → contains universe n ≡ false → next n ≡ []) where
    closure_ends :
        (fuel : ℕ) (start stack out : List String)
        → Inv start stack out
        → length stack + cost universe out ≤ fuel
        → (r : List String) × (closure fuel stack out ≡ some r) × Inv start [] r
    unfolding closure
    closure_ends fuel start [] out i h = (out, refl, i)
    closure_ends zero start (n ∷ stack) out i h = absurd (omega arith)
    closure_ends (suc fuel) start (n ∷ stack) out i h =
        elim (Bool-cases (contains out n || not (allowed n))) [
          | inl e ↦
              rw e
                (closure_ends fuel start stack out (Inv-skip start stack out n i e) (omega arith))
          | inr e ↦ rw e (
              closure_ends fuel start (next n ++ stack) (n ∷ out) (Inv-visit start stack out n i e)
                (fits e))
        ]
      where
        fits :
            (contains out n || not (allowed n)) ≡ false
            → length (next n ++ stack) + cost universe (n ∷ out) ≤ fuel
        fits e = elim (Bool-cases (contains universe n)) [
          | inl u ↦
              omega
                (arith, length-append (next n) stack, cost-visit universe out n u (ground arith))
          | inr u ↦
              let none_pushed : length (next n) ≡ 0 = rw (unlisted n (ground arith) u) in
              omega (arith, length-append (next n) stack, cost-cons universe out n)
        ]

    complete :
        (start r : List String)
        → Inv start [] r
        → {s x : String} → contains start s ≡ true
        → Walk s x
        → (contains r x ≡ true) × (allowed x ≡ true)
    complete start r i b (here a) = (ground (arith, i.begun _ b a), a)
    complete start r i b (step {x} w y e a) =
        (ground (arith, i.closed x y (complete start r i b w).0 e a), a)

    -- With enough fuel the loop ends, and has found exactly what some walk reaches.
    pub closure_lem :
        (fuel : ℕ) (start : List String)
        → length start + cost universe [] ≤ fuel
        → (r : List String) × (closure fuel start [] ≡ some r)
          × ((x : String) → (contains r x ≡ true) ↔ Found start x)
    closure_lem fuel start h =
        let (r, e, i) = closure_ends fuel start start [] (Inv-start start) h in
        (r, e, λ x. (i.sound_out x, λ f. (complete start r i f.1 f.2).0))

  -- A walk's ends are allowed, and a walk can be begun one step earlier.
  pub Walk-allowed : {s x : String} → Walk s x → (allowed s ≡ true) × (allowed x ≡ true)
  Walk-allowed (here a) = (a, a)
  Walk-allowed (step w y e a) = ((Walk-allowed w).0, a)

  pub Walk-before :
      {s x : String} (r : String)
      → allowed r ≡ true
      → contains (next r) s ≡ true
      → Walk s x
      → Walk r x
  Walk-before r a e (here b) = step (here a) _ e b
  Walk-before r a e (step w y f b) = step (Walk-before r a e w) y f b
