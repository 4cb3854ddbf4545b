-- ===== src/BrickVocab/Descend.antt =====
-- `descendants` and `classes_with_tag` over the indexes.
use timberdoodle.Base.{
  suc, ◌≡◌, sym, subst, ◌∙◌, ◌↔◌, inl, inr, String, true, false, ◌&&◌, some, List, [], ◌∷◌, arith,
  eq_iff, contains, contains-append, Bool-cases, Option-cases, distinct,
}
use timberdoodle.Base.Dict.{text_key, lookup}
use timberdoodle.Base.Closure.{cost, Walk, here, step, Walk-before, Walk-allowed, closure_lem}
use timberdoodle.BrickVocab.{
  Classes, Vocab, get, is_class, equivalents_of, parents_of, own_tags_of, names, close_equivalents,
  children_index, compute_effective_tags, new_vocab, below, descendants, classes_with_tag,
}
use timberdoodle.BrickVocab.Collect.{above, Up, names-is_class, compute_effective_tags_lem}
use timberdoodle.BrickVocab.Indexes.{children_index_lem, get-tag_index}
use timberdoodle.BrickVocab.Aliases.{
  IsNamedBack, close_equivalents-is_class, close_equivalents-parents, close_equivalents-IsNamedBack,
}

names_lem : (cs : Classes) (n : String) → contains (names cs) n ≡ true → is_class cs n ≡ true
unfolding lookup
names_lem [] n h = cc
names_lem ((m, c) ∷ cs) n h = ground (arith, names_lem cs n, eq_iff m n)

equivalents-none : (cs : Classes) (n : String) → is_class cs n ≡ false → equivalents_of cs n ≡ []
unfolding is_class equivalents_of
equivalents-none cs n h = elim (Option-cases (lookup n cs)) [
  | inl e ↦ rw e
  | inr (c, e) ↦ ground (arith, e, h)
]

module _ (v : Vocab) where
  abbrev pub Down : String → String → Type 0
  Down = Walk (is_class v.classes) (below v)

-- The loop ends, with the classes that a walk along aliases and children leads to.
pub descendants_lem :
    (v : Vocab) (n : String)
    → (ds : List String) × (descendants v n ≡ some ds)
      × ((m : String) → (contains ds m ≡ true) ↔ Down v n m)
unfolding descendants
descendants_lem v n =
    let (ds, e, found) =
      closure_lem (is_class v.classes) (below v) (names v.classes) unlisted
        (suc (cost (is_class v.classes) (below v) (names v.classes) [])) (n ∷ []) (omega arith) in
    (
      ds,
      e,
      λ m. (
        λ h. let (s, i, w) = (found m).0 h in subst (λ z. Down v z m) (is s i) w,
        λ w. (found m).1 (n, ground (arith, eq_iff n n), w),
      ),
    )
  where
    unlisted :
        (m : String)
        → is_class v.classes m ≡ true
        → contains (names v.classes) m ≡ false
        → below v m ≡ []
    unlisted m a h = absurd (ground (arith, names-is_class v.classes m a, h))

    is : (s : String) → contains (n ∷ []) s ≡ true → s ≡ n
    is s h = sym ((eq_iff n s).0 (ground (arith, h)))

module _ (cs : Classes) (tags : List String) (dict : distinct (names cs) ≡ true) where
  abbrev closed : Classes
  closed = close_equivalents (names cs) cs

  pub all-IsNamedBack : (n : String) → IsNamedBack closed n
  all-IsNamedBack n = elim (Bool-cases (contains (names cs) n)) [
    | inl e ↦ close_equivalents-IsNamedBack (names cs) n cs (inr e)
    | inr e ↦
        close_equivalents-IsNamedBack (names cs) n cs
          (inl (λ a k c. absurd (ground (arith, k, equivalents-none cs n (no_class e)))))
  ]
    where
      no_class : contains (names cs) n ≡ false → is_class cs n ≡ false
      no_class e = elim (Bool-cases (is_class cs n)) [
        | inl k ↦ ground (arith, names-is_class cs n k, e)
        | inr k ↦ k
      ]

  -- One step down is one step up, seen from below.
  reversed :
      (x y : String)
      → contains (below (new_vocab cs tags) x) y ≡ true
      → is_class closed y ≡ true
      → contains (above closed y) x ≡ true
  unfolding new_vocab
  reversed x y h c = ground (
    arith,
    contains-append (equivalents_of closed x) (get x (children_index cs [])) y,
    contains-append (equivalents_of closed y) (parents_of closed y) x,
    all-IsNamedBack x y,
    children_index_lem cs x y dict,
    close_equivalents-parents (names cs) y cs,
    h,
    c,
  )

  Down-Up : {s x : String} → Down (new_vocab cs tags) s x → Up closed x s
  unfolding new_vocab
  Down-Up (here a) = here a
  Down-Up (step {x} w y e a) =
      Walk-before (is_class closed) (above closed) y a (reversed x y e a) (Down-Up w)

  Up-trans : {a b c : String} → Up closed a b → Up closed b c → Up closed a c
  Up-trans p (here a) = p
  Up-trans p (step q y e a) = step (Up-trans p q) y e a

  classes_with_tag-effective :
      (t n : String)
      → contains (classes_with_tag (new_vocab cs tags) t) n
        ≡ (contains (names cs) n && contains (compute_effective_tags closed n) t)
  unfolding new_vocab classes_with_tag lookup
  classes_with_tag-effective t n = ground (arith, get-tag_index closed (names cs) t n [])

  -- A class is found by a tag word exactly when a walk along aliases and parents leads from it to a
  -- class that carries the word.
  pub classes_with_tag_lem :
      (t n : String)
      → (contains (classes_with_tag (new_vocab cs tags) t) n ≡ true)
        ↔ ((m : String) × Up closed n m × (contains (own_tags_of closed m) t ≡ true))
  classes_with_tag_lem t n = (
    λ h.
        (compute_effective_tags_lem closed n t).0
          (ground (arith, classes_with_tag-effective t n, h)),
    λ h. ground (
      arith,
      classes_with_tag-effective t n,
      (compute_effective_tags_lem closed n t).1 h,
      names-is_class cs n (known h.1),
    ),
  )
    where
      known : {m : String} → Up closed n m → is_class cs n ≡ true
      known w =
          sym (close_equivalents-is_class (names cs) n cs)
          ∙ (Walk-allowed (is_class closed) (above closed) w).0

  -- For classes whose names are distinct: each class that `descendants` of a class returns is found
  -- by every tag word by which the class itself is found.
  pub classes_with_tag-descendants :
      (t a d : String) (ds : List String)
      → descendants (new_vocab cs tags) a ≡ some ds
      → contains ds d ≡ true
      → contains (classes_with_tag (new_vocab cs tags) t) a ≡ true
      → contains (classes_with_tag (new_vocab cs tags) t) d ≡ true
  classes_with_tag-descendants t a d ds e k h =
      let (r, e', found) = descendants_lem (new_vocab cs tags) a in
      let same : r ≡ ds = cc in
      let (m, up, o) = (classes_with_tag_lem t a).0 h in
      (classes_with_tag_lem t d).1
        (m, Up-trans (Down-Up ((found d).0 (subst (λ z. contains z d ≡ true) (sym same) k))) up, o)
