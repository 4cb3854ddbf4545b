-- ===== src/Mapping/Chosen.antt =====
-- Which rule an entity gets.
use timberdoodle.Base.{
  ℕ, ◌≤◌, ◌<◌, String, Bool, true, false, none, some, List, [], ◌∷◌, ◌++◌, ◌≡◌, refl, sym, ap, ◌∙◌,
  subst, inl, inr, Bool-cases, Option-cases, arith, All, All-append, keep, ltb, append_assoc,
  append-nil,
}
use timberdoodle.Mapping.{
  MappingRule, is_direct, overlap, best_by, max_by, size_of, Choice, full, partial, nothing, choose,
}

-- `r` passes the test and has the largest key of those that do, and it is the first that has it.
pub record IsFirstBest (ok : MappingRule → Bool) (key : MappingRule → ℕ) (rules : List MappingRule)
    (r : MappingRule) : Type 0 where
  pub pre : List MappingRule
  pub post : List MappingRule
  pub split : rules ≡ pre ++ r ∷ post
  pub passes : ok r ≡ true
  pub earlier : All (λ s. ok s ≡ true → key s < key r) pre
  pub later : All (λ s. ok s ≡ true → key s ≤ key r) post

All-map :
    {P Q : MappingRule → Type 0} (xs : List MappingRule)
    → ((s : MappingRule) → P s → Q s)
    → All P xs
    → All Q xs
All-map [] h k = tt
All-map (x ∷ xs) h k = (h x k.0, All-map xs h k.1)

module _ (ok : MappingRule → Bool) (key : MappingRule → ℕ) where
  smaller :
      (seen : List MappingRule) (r s : MappingRule)
      → IsFirstBest ok key seen r
      → key r < key s
      → All (λ t. ok t ≡ true → key t < key s) seen
  smaller seen r s k h = subst (All (λ t. ok t ≡ true → key t < key s)) (sym k.split) (
      All-append _ k.pre (r ∷ k.post) (All-map k.pre (λ t f p. omega (arith, f p, h)) k.earlier)
        ((λ p. h), All-map k.post (λ t f p. omega (arith, f p, h)) k.later))

  newer :
      (seen : List MappingRule) (r s : MappingRule)
      → IsFirstBest ok key seen r
      → (ok s ≡ true → key s ≤ key r)
      → IsFirstBest ok key (seen ++ s ∷ []) r
  newer seen r s k h = record {
    pre = k.pre;
    post = k.post ++ s ∷ [];
    split = ap (λ xs. xs ++ s ∷ []) k.split ∙ append_assoc k.pre (r ∷ k.post) (s ∷ []);
    passes = k.passes;
    earlier = k.earlier;
    later = All-append _ k.post (s ∷ []) k.later (h, tt);
  }

  best_by-IsFirstBest :
      (rest seen : List MappingRule) (r : MappingRule)
      → IsFirstBest ok key seen r
      → IsFirstBest ok key (seen ++ rest) (best_by key r (keep ok rest))
  unfolding best_by
  best_by-IsFirstBest [] seen r k = rw (append-nil seen) k
  best_by-IsFirstBest (s ∷ rest) seen r k =
      rw (sym (append_assoc seen (s ∷ []) rest)) (elim (Bool-cases (ok s)) [
        | inr e ↦ rw e (
            best_by-IsFirstBest rest (seen ++ s ∷ []) r
              (newer seen r s k (λ p. absurd (ground (arith, e, p)))))
        | inl e ↦ elim (Bool-cases (ltb (key r) (key s))) [
          | inl f ↦
              rw (e, f, best_by)
                (best_by-IsFirstBest rest (seen ++ s ∷ []) s (record {
                  pre = seen;
                  post = [];
                  split = refl;
                  passes = e;
                  earlier = smaller seen r s k (ground (arith, f));
                  later = tt;
                }))
          | inr f ↦
              rw (e, f, best_by)
                (best_by-IsFirstBest rest (seen ++ s ∷ []) r
                  (newer seen r s k (λ p. ground (arith, f))))
        ]
      ])

  max_by-IsFirstBest :
      (rules seen : List MappingRule) (r : MappingRule)
      → All (λ s. ok s ≡ false) seen
      → max_by key (keep ok rules) ≡ some r
      → IsFirstBest ok key (seen ++ rules) r
  unfolding max_by
  max_by-IsFirstBest [] seen r h e = cc
  max_by-IsFirstBest (s ∷ rules) seen r h e = elim (Bool-cases (ok s)) [
    | inr f ↦ rw (sym (append_assoc seen (s ∷ []) rules)) (
        max_by-IsFirstBest rules (seen ++ s ∷ []) r (All-append _ seen (s ∷ []) h (f, tt))
          (rw (f, max_by) at e))
    | inl f ↦
        let found : best_by key s (keep ok rules) ≡ r = ground (arith, f, e) in
        rw (sym (append_assoc seen (s ∷ []) rules), sym found)
          (best_by-IsFirstBest rules (seen ++ s ∷ []) s (record {
            pre = seen;
            post = [];
            split = refl;
            passes = f;
            earlier = All-map seen (λ t g p. absurd (ground (arith, g, p))) h;
            later = tt;
          }))
  ]

  max_by-none :
      (rules : List MappingRule) → max_by key (keep ok rules) ≡ none → All (λ s. ok s ≡ false) rules
  unfolding max_by
  max_by-none [] h = tt
  max_by-none (s ∷ rules) h = (ground (arith, h), max_by-none rules (ground (arith, h)))

-- The rule by which a choice is right.
abbrev pub Explains : List MappingRule → List String → Choice → Type 0
Explains rules tags (full r) = IsFirstBest (is_direct tags) size_of rules r
Explains rules tags (partial r) =
    All (λ s. is_direct tags s ≡ false) rules
    × IsFirstBest (λ s. ltb 0 (overlap tags s)) (overlap tags) rules r
Explains rules tags nothing =
    All (λ s. is_direct tags s ≡ false) rules × All (λ s. overlap tags s ≡ 0) rules

-- The rule that is taken: the first of the most tags among those whose tags the entity has all of;
-- if there is none, the first of the largest overlap, which is positive; and no rule only
-- where no rule's tags are all the entity's and no rule has a tag of it.
pub choose-Explains :
    (rules : List MappingRule) (tags : List String) → Explains rules tags (choose rules tags)
unfolding choose
choose-Explains rules tags = elim (Option-cases (max_by size_of (keep (is_direct tags) rules))) [
  | inr (r, e) ↦ rw (e, choose) (max_by-IsFirstBest (is_direct tags) size_of rules [] r tt e)
  | inl e ↦
      let no_direct = max_by-none (is_direct tags) size_of rules e in
      let shares : MappingRule → Bool = λ s. ltb 0 (overlap tags s) in
      elim (Option-cases (max_by (overlap tags) (keep shares rules))) [
        | inr (r, f) ↦
            rw (e, f, choose) (no_direct, max_by-IsFirstBest shares (overlap tags) rules [] r tt f)
        | inl f ↦
            rw (e, f, choose)
              (
                no_direct,
                All-map rules (λ s g. ground (arith, g))
                    (max_by-none shares (overlap tags) rules f),
              )
      ]
]
