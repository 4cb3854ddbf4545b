-- ===== src/BrickVocab/Collect.antt =====
-- The walk of `_compute_effective_tags` to the classes above a class.
use timberdoodle.Base.{
  ℕ, zero, suc, ◌+◌, ◌≤◌, ◌<◌, ◌≡◌, refl, sym, subst, ◌↔◌, ◌⊎◌, inl, inr, String, true, false, not,
  ◌||◌, List, [], ◌∷◌, ◌++◌, arith, eq_iff, contains, contains-append, Bool-cases, if◌then◌else◌,
  length,
}
use timberdoodle.Base.Dict.{lookup}
use timberdoodle.Base.Closure.{Walk, here, step, Walk-before}
use timberdoodle.BrickVocab.{
  Classes, is_class, equivalents_of, parents_of, own_tags_of, names, each, collect,
  compute_effective_tags,
}

-- How many of the texts have not been seen.
unseen : List String → List String → ℕ
unseen [] seen = 0
unseen (u ∷ us) seen = (if contains seen u then 0 else 1) + unseen us seen

unseen_mono :
    (us xs ys : List String)
    → ((x : String) → contains xs x ≡ true → contains ys x ≡ true)
    → unseen us ys ≤ unseen us xs
unfolding unseen
unseen_mono [] xs ys h = omega arith
unseen_mono (u ∷ us) xs ys h = ground (arith, unseen_mono us xs ys h, h u)

unseen-lt :
    (us seen : List String) (n : String)
    → contains us n ≡ true
    → contains seen n ≡ false
    → unseen us (n ∷ seen) < unseen us seen
unfolding unseen
unseen-lt [] seen n h k = cc
unseen-lt (u ∷ us) seen n h k = ground (
  arith,
  unseen-lt us seen n,
  eq_iff u n,
  eq_iff n u,
  unseen_mono us seen (n ∷ seen) (λ x m. ground (arith, m)),
)

unseen-length : (us : List String) → unseen us [] ≤ length us
unfolding unseen
unseen-length [] = omega arith
unseen-length (u ∷ us) = omega (arith, unseen-length us)

pub names-is_class :
    (cs : Classes) (n : String) → is_class cs n ≡ true → contains (names cs) n ≡ true
unfolding lookup
names-is_class [] n h = cc
names-is_class ((m, c) ∷ cs) n h = ground (arith, names-is_class cs n, eq_iff m n)

length-names : (cs : Classes) → length (names cs) ≡ length cs
length-names [] = refl
length-names (c ∷ cs) = omega (arith, length-names cs)

module _ (cs : Classes) where
  abbrev pub above : String → List String
  above n = equivalents_of cs n ++ parents_of cs n

  abbrev pub Up : String → String → Type 0
  Up = Walk (is_class cs) above

  abbrev State : Type 0
  State = List String × List String

  abbrev IsNew : State → State → String → Type 0
  IsNew s s' x = (contains s'.0 x ≡ true) × (contains s.0 x ≡ false)

  -- What the visit of some classes has done.
  record IsVisit (ns : List String) (s s' : State) : Type 0 where
    grows : (x : String) → contains s.0 x ≡ true → contains s'.0 x ≡ true
    begun : (x : String) → contains ns x ≡ true → is_class cs x ≡ true → contains s'.0 x ≡ true
    closed :
        (x y : String)
        → IsNew s s' x
        → contains (above x) y ≡ true
        → is_class cs y ≡ true
        → contains s'.0 y ≡ true
    sound : (x : String) → IsNew s s' x → (z : String) × (contains ns z ≡ true) × Up z x
    kept : (t : String) → contains s.1 t ≡ true → contains s'.1 t ≡ true
    owned :
        (x t : String)
        → IsNew s s' x
        → contains (own_tags_of cs x) t ≡ true
        → contains s'.1 t ≡ true
    from_new :
        (t : String)
        → contains s'.1 t ≡ true
        → (contains s.1 t ≡ true)
          ⊎ ((x : String) × IsNew s s' x × (contains (own_tags_of cs x) t ≡ true))

  IsVisit-none : (s : State) → IsVisit [] s s
  IsVisit-none s = record {
    grows = λ x h. h;
    begun = λ x h c. cc;
    closed = λ x y h e c. absurd (ground (arith, h.0, h.1));
    sound = λ x h. absurd (ground (arith, h.0, h.1));
    kept = λ t h. h;
    owned = λ x t h o. absurd (ground (arith, h.0, h.1));
    from_new = λ t h. inl h;
  }

  IsVisit-then :
      (n : String) (ns : List String) (s t u : State)
      → IsVisit (n ∷ []) s t
      → IsVisit ns t u
      → IsVisit (n ∷ ns) s u
  IsVisit-then n ns s t u v w = record {
    grows = λ x h. w.grows x (v.grows x h);
    begun = λ x h c. elim (Bool-cases (contains (n ∷ []) x)) [
      | inl e ↦ w.grows x (v.begun x e c)
      | inr e ↦ w.begun x (ground arith) c
    ];
    closed = λ x y h e c. elim (Bool-cases (contains t.0 x)) [
      | inl o ↦ w.grows y (v.closed x y (o, h.1) e c)
      | inr o ↦ w.closed x y (h.0, o) e c
    ];
    sound = λ x h. elim (Bool-cases (contains t.0 x)) [
      | inl o ↦ let (z, m, p) = v.sound x (o, h.1) in (z, ground arith, p)
      | inr o ↦ let (z, m, p) = w.sound x (h.0, o) in (z, ground arith, p)
    ];
    kept = λ a h. w.kept a (v.kept a h);
    owned = λ x a h o. elim (Bool-cases (contains t.0 x)) [
      | inl k ↦ w.kept a (v.owned x a (k, h.1) o)
      | inr k ↦ w.owned x a (h.0, k) o
    ];
    from_new = λ a h. elim (w.from_new a h) [
      | inl k ↦ elim (v.from_new a k) [
        | inl j ↦ inl j
        | inr (x, p, o) ↦ inr (x, (w.grows x p.0, p.1), o)
      ]
      | inr (x, p, o) ↦ inr (x, (p.0, old x p.1), o)
    ];
  }
    where
      old : (x : String) → contains t.0 x ≡ false → contains s.0 x ≡ false
      old x p = elim (Bool-cases (contains s.0 x)) [
        | inl e ↦ ground (arith, v.grows x e, p)
        | inr e ↦ e
      ]

  -- The calls of a loop, each of which is a visit while fuel is left.
  each-IsVisit :
      (f : String → State → State) (fuel : ℕ)
      → ((n : String) (s : State) → unseen (names cs) s.0 < fuel → IsVisit (n ∷ []) s (f n s))
      → (ns : List String) (s : State) → unseen (names cs) s.0 < fuel
      → IsVisit ns s (each f ns s)
  each-IsVisit f fuel one [] s h = IsVisit-none s
  each-IsVisit f fuel one (n ∷ ns) s h =
      let first = one n s h in
      IsVisit-then n ns s (f n s) (each f ns (f n s)) first (
        each-IsVisit f fuel one ns (f n s)
          (omega (arith, unseen_mono (names cs) s.0 (f n s).0 first.grows)))

  -- A class that is seen for the first time, once its neighbours have been visited.
  IsVisit-enter :
      (n : String) (s u : State)
      → contains s.0 n ≡ false
      → is_class cs n ≡ true
      → IsVisit (above n) (n ∷ s.0, own_tags_of cs n ++ s.1) u
      → IsVisit (n ∷ []) s u
  IsVisit-enter n s u fresh c w = record {
    grows = λ x h. w.grows x (ground (arith, h));
    begun = λ x h k. w.grows x (ground (arith, h));
    closed = λ x y h e k. elim (Bool-cases (contains (n ∷ []) x)) [
      | inl o ↦ w.begun y (subst (λ z. contains (above z) y ≡ true) (sym (is n x o)) e) k
      | inr o ↦ w.closed x y (h.0, ground (arith, h.1)) e k
    ];
    sound = λ x h. elim (Bool-cases (contains (n ∷ []) x)) [
      | inl o ↦ (n, same n, subst (Up n) (is n x o) (here c))
      | inr o ↦
          let (z, m, p) = w.sound x (h.0, ground (arith, h.1)) in
          (n, same n, Walk-before (is_class cs) above n c m p)
    ];
    kept = λ t h. w.kept t (ground (arith, contains-append (own_tags_of cs n) s.1 t, h));
    owned = λ x t h o. elim (Bool-cases (contains (n ∷ []) x)) [
      | inl k ↦ w.kept t (
          ground (
            arith,
            contains-append (own_tags_of cs n) s.1 t,
            subst (λ z. contains (own_tags_of cs z) t ≡ true) (sym (is n x k)) o,
          ))
      | inr k ↦ w.owned x t (h.0, ground (arith, h.1)) o
    ];
    from_new = λ t h. elim (w.from_new t h) [
      | inl k ↦ elim (Bool-cases (contains s.1 t)) [
        | inl j ↦ inl j
        | inr j ↦ inr (
          n,
          (w.grows n (ground (arith, same n)), fresh),
          ground (arith, contains-append (own_tags_of cs n) s.1 t, k),
        )
      ]
      | inr (x, p, o) ↦ inr (x, (p.0, ground (arith, p.1)), o)
    ];
  }
    where
      same : (x : String) → contains (x ∷ []) x ≡ true
      same x = ground (arith, eq_iff x x)

      is : (a x : String) → contains (a ∷ []) x ≡ true → a ≡ x
      is a x h = (eq_iff a x).0 (ground arith)

  IsVisit-skip :
      (n : String) (s : State)
      → (contains s.0 n || not (is_class cs n)) ≡ true
      → IsVisit (n ∷ []) s s
  IsVisit-skip n s h = record {
    grows = λ x k. k;
    begun = λ x k c.
        subst (λ z. contains s.0 z ≡ true) (e x k)
          (ground (arith, subst (λ z. is_class cs z ≡ true) (sym (e x k)) c));
    closed = (IsVisit-none s).closed;
    sound = λ x k. absurd (ground (arith, k.0, k.1));
    kept = λ t k. k;
    owned = (IsVisit-none s).owned;
    from_new = λ t k. inl k;
  }
    where
      e : (x : String) → contains (n ∷ []) x ≡ true → n ≡ x
      e x k = (eq_iff n x).0 (ground arith)

  collect-IsVisit :
      (fuel : ℕ) (n : String) (s : State)
      → unseen (names cs) s.0 < fuel
      → IsVisit (n ∷ []) s (collect cs fuel n s)
  unfolding collect
  collect-IsVisit zero n s h = elim h [ ]
  collect-IsVisit (suc fuel) n (seen, tags) h =
      elim (Bool-cases (contains seen n || not (is_class cs n))) [
        | inl e ↦ rw e (IsVisit-skip n (seen, tags) e)
        | inr e ↦
            let fresh : contains seen n ≡ false = ground arith in
            let c : is_class cs n ≡ true = ground arith in
            rw e (
              IsVisit-enter n (seen, tags) _ fresh c
                (each-IsVisit (collect cs fuel) fuel (collect-IsVisit fuel) (above n)
                  (n ∷ seen, own_tags_of cs n ++ tags)
                  (omega (arith, unseen-lt (names cs) seen n (names-is_class cs n c) fresh))))
      ]

  visit : (n : String) → IsVisit (n ∷ []) ([], []) (collect cs (suc (length cs)) n ([], []))
  visit n =
      collect-IsVisit (suc (length cs)) n ([], [])
        (omega (arith, unseen-length (names cs), length-names cs))

  reached :
      (n : String) (s : State)
      → IsVisit (n ∷ []) ([], []) s
      → {m : String} → Up n m
      → contains s.0 m ≡ true
  reached n s v (here a) = v.begun n (ground (arith, eq_iff n n)) a
  reached n s v (step {x} w y e a) = v.closed x y (reached n s v w, refl) e a

  -- The effective tags of a class are the own tags of the classes that some walk along aliases and
  -- parents leads to.
  pub compute_effective_tags_lem :
      (n t : String)
      → (contains (compute_effective_tags cs n) t ≡ true)
        ↔ ((m : String) × Up n m × (contains (own_tags_of cs m) t ≡ true))
  unfolding compute_effective_tags
  compute_effective_tags_lem n t = (to, from)
    where
      v : IsVisit (n ∷ []) ([], []) (collect cs (suc (length cs)) n ([], []))
      v = visit n

      to :
          contains (collect cs (suc (length cs)) n ([], [])).1 t ≡ true
          → (m : String) × Up n m × (contains (own_tags_of cs m) t ≡ true)
      to h = elim (v.from_new t h) [
        | inl k ↦ absurd (ground (arith, k))
        | inr (x, p, o) ↦
            let (z, m, w) = v.sound x p in
            let e : n ≡ z = (eq_iff n z).0 (ground (arith, m)) in
            (x, subst (λ a. Up a x) (sym e) w, o)
      ]

      from :
          (m : String) × Up n m × (contains (own_tags_of cs m) t ≡ true)
          → contains (collect cs (suc (length cs)) n ([], [])).1 t ≡ true
      from (m, w, o) = v.owned m t (reached n _ v w, refl) o
