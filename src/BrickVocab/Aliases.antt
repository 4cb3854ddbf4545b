-- ===== src/BrickVocab/Aliases.antt =====
-- The loop of `__post_init__` that names each alias back.
use timberdoodle.Base.{
  ◌≡◌, refl, subst, ◌∙◌, ◌⊎◌, inl, inr, String, Bool, true, false, ◌&&◌, ◌||◌, Option, none, some,
  List, [], ◌∷◌, arith, eq_iff, str_eq, contains, Bool-cases, Option-cases, if◌then◌else◌, is_some,
}
use timberdoodle.Base.Dict.{text_key, lookup, lookup-insert}
use timberdoodle.BrickVocab.{
  BrickClass, Classes, add, is_class, equivalents_in, parents_in, equivalents_of, parents_of,
  with_equivalent, add_equivalent, name_back, close_equivalents,
}
use timberdoodle.BrickVocab.Indexes.{contains-add}

abbrev named_back : String → Option BrickClass → Option BrickClass
named_back n none = none
named_back n (some c) = some (record c { equivalents = add n c.equivalents })

-- Naming a class back changes nothing but the aliases of one class.
lookup-add_equivalent :
    (e n m : String) (cs : Classes)
    → lookup m (add_equivalent e n cs)
      ≡ (if str_eq e m then named_back n (lookup m cs) else lookup m cs)
unfolding add_equivalent
lookup-add_equivalent e n m cs = elim (Option-cases (lookup e cs)) [
  | inl k ↦ elim (Bool-cases (str_eq e m)) [
    | inl q ↦ rw (k, with_equivalent, q, found q k)
    | inr q ↦ rw (k, with_equivalent, q)
  ]
  | inr (c, k) ↦ elim (Bool-cases (str_eq e m)) [
    | inl q ↦ rw (
      k,
      with_equivalent,
      lookup-insert e m (record c { equivalents = add n c.equivalents }) cs,
      q,
      found q k,
    )
    | inr q ↦ rw (
      k,
      with_equivalent,
      lookup-insert e m (record c { equivalents = add n c.equivalents }) cs,
      q,
    )
  ]
]
  where
    found : {o : Option BrickClass} → str_eq e m ≡ true → lookup e cs ≡ o → lookup m cs ≡ o
    found {o} q k = subst (λ z. lookup z cs ≡ o) ((eq_iff e m).0 q) k

module _ (e n m : String) (cs : Classes) where
  add_equivalent-parents : parents_of (add_equivalent e n cs) m ≡ parents_of cs m
  unfolding parents_of
  add_equivalent-parents = rw (lookup-add_equivalent e n m cs) (go (str_eq e m) (lookup m cs))
    where
      go :
          (b : Bool) (o : Option BrickClass)
          → parents_in (if b then named_back n o else o) ≡ parents_in o
      go true none = refl
      go true (some c) = refl
      go false o = refl

  add_equivalent-is_class : is_class (add_equivalent e n cs) m ≡ is_class cs m
  unfolding is_class
  add_equivalent-is_class = rw (lookup-add_equivalent e n m cs) (go (str_eq e m) (lookup m cs))
    where
      go :
          (b : Bool) (o : Option BrickClass) → is_some (if b then named_back n o else o) ≡ is_some o
      go true none = refl
      go true (some c) = refl
      go false o = refl

  -- The alias goes to the class that is named, if there is one.
  add_equivalent-equivalents :
      (y : String)
      → contains (equivalents_of (add_equivalent e n cs) m) y
        ≡ ((is_class cs m && (str_eq e m && str_eq n y)) || contains (equivalents_of cs m) y)
  unfolding equivalents_of is_class
  add_equivalent-equivalents y = rw (lookup-add_equivalent e n m cs) (go (str_eq e m) (lookup m cs))
    where
      go :
          (b : Bool) (o : Option BrickClass)
          → contains (equivalents_in (if b then named_back n o else o)) y
            ≡ ((is_some o && (b && str_eq n y)) || contains (equivalents_in o) y)
      go true none = refl
      go true (some c) = contains-add n y c.equivalents
      go false none = refl
      go false (some c) = refl

-- The classes from which `n` is named, and those that it names.
abbrev pub IsNamedBack : Classes → String → Type 0
IsNamedBack cs n =
    (e : String)
    → contains (equivalents_of cs n) e ≡ true
    → is_class cs e ≡ true
    → contains (equivalents_of cs e) n ≡ true

pub name_back-is_class :
    (es : List String) (n m : String) (cs : Classes)
    → is_class (name_back es n cs) m ≡ is_class cs m
unfolding name_back
name_back-is_class [] n m cs = refl
name_back-is_class (e ∷ es) n m cs =
    name_back-is_class es n m (add_equivalent e n cs) ∙ add_equivalent-is_class e n m cs

name_back-parents :
    (es : List String) (n m : String) (cs : Classes)
    → parents_of (name_back es n cs) m ≡ parents_of cs m
unfolding name_back
name_back-parents [] n m cs = refl
name_back-parents (e ∷ es) n m cs =
    name_back-parents es n m (add_equivalent e n cs) ∙ add_equivalent-parents e n m cs

pub name_back-equivalents :
    (es : List String) (n m y : String) (cs : Classes)
    → contains (equivalents_of (name_back es n cs) m) y
      ≡ ((is_class cs m && (contains es m && str_eq n y)) || contains (equivalents_of cs m) y)
unfolding name_back
name_back-equivalents [] n m y cs = elim (Bool-cases (is_class cs m)) [
  | inl e ↦ rw e refl
  | inr e ↦ rw e refl
]
name_back-equivalents (e ∷ es) n m y cs = ground (
  arith,
  name_back-equivalents es n m y (add_equivalent e n cs),
  add_equivalent-is_class e n m cs,
  add_equivalent-equivalents e n m cs y,
)

-- A round makes its class named back by all that it names, and keeps that of every other class.
name_back-IsNamedBack :
    (n m : String) (cs : Classes)
    → IsNamedBack cs m ⊎ (n ≡ m)
    → IsNamedBack (name_back (equivalents_of cs n) n cs) m
name_back-IsNamedBack n m cs h e k c = elim h [
  | inl old ↦ ground (
    arith,
    facts e m,
    facts m e,
    old e,
    name_back-is_class (equivalents_of cs n) n e cs,
    eq_iff n e,
    eq_iff n m,
    k,
    c,
    eq_iff e n,
  )
  | inr q ↦ ground (
    arith,
    facts e m,
    facts m e,
    name_back-is_class (equivalents_of cs n) n e cs,
    eq_iff n e,
    eq_iff n m,
    k,
    c,
    q,
  )
]
  where
    facts :
        (a y : String)
        → contains (equivalents_of (name_back (equivalents_of cs n) n cs) a) y ≡ (
            (is_class cs a && (contains (equivalents_of cs n) a && str_eq n y))
            || contains (equivalents_of cs a) y)
    facts a y = name_back-equivalents (equivalents_of cs n) n a y cs

pub close_equivalents-is_class :
    (ns : List String) (m : String) (cs : Classes)
    → is_class (close_equivalents ns cs) m ≡ is_class cs m
unfolding close_equivalents
close_equivalents-is_class [] m cs = refl
close_equivalents-is_class (n ∷ ns) m cs =
    close_equivalents-is_class ns m _ ∙ name_back-is_class (equivalents_of cs n) n m cs

pub close_equivalents-parents :
    (ns : List String) (m : String) (cs : Classes)
    → parents_of (close_equivalents ns cs) m ≡ parents_of cs m
unfolding close_equivalents
close_equivalents-parents [] m cs = refl
close_equivalents-parents (n ∷ ns) m cs =
    close_equivalents-parents ns m _ ∙ name_back-parents (equivalents_of cs n) n m cs

-- When the loop ends, each class that it went through is named back by all that it names.
pub close_equivalents-IsNamedBack :
    (ns : List String) (m : String) (cs : Classes)
    → IsNamedBack cs m ⊎ (contains ns m ≡ true)
    → IsNamedBack (close_equivalents ns cs) m
unfolding close_equivalents
close_equivalents-IsNamedBack [] m cs (inl h) = h
close_equivalents-IsNamedBack [] m cs (inr h) = cc
close_equivalents-IsNamedBack (n ∷ ns) m cs h =
    close_equivalents-IsNamedBack ns m (name_back (equivalents_of cs n) n cs) (elim h [
      | inl k ↦ inl (name_back-IsNamedBack n m cs (inl k))
      | inr k ↦ elim (Bool-cases (str_eq n m)) [
        | inl q ↦ inl (name_back-IsNamedBack n m cs (inr ((eq_iff n m).0 q)))
        | inr q ↦ inr (ground (arith, k, q))
      ]
    ])
