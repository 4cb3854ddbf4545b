-- ===== src/BrickVocab/Below.antt =====
-- `descendants` against what the ontology file says: the classes as they were read, before the indexes.
use timberdoodle.Base.{
  ◌≡◌, refl, sym, ◌∙◌, ◌↔◌, inl, inr, String, Bool, true, ◌||◌, some, List, [], ◌∷◌, arith, eq_iff,
  contains, contains-append, Bool-cases, distinct,
}
use timberdoodle.Base.Dict.{text_key}
use timberdoodle.Base.Closure.{here, step}
use timberdoodle.BrickVocab.{
  Classes, get, is_class, equivalents_of, parents_of, names, name_back, close_equivalents,
  children_index, new_vocab, below, descendants,
}
use timberdoodle.BrickVocab.Indexes.{children_index_lem}
use timberdoodle.BrickVocab.Aliases.{
  name_back-is_class, name_back-equivalents, close_equivalents-is_class,
}
use timberdoodle.BrickVocab.Descend.{Down, descendants_lem, all-IsNamedBack}

-- One of the two names the other as its alias.
abbrev pub are_aliases : Classes → String → String → Bool
are_aliases cs x y = contains (equivalents_of cs x) y || contains (equivalents_of cs y) x

-- Below a class: itself, and from a class that is below it, its aliases and the classes that name it
-- as a parent.
pub data IsBelow (cs : Classes) (a : String) : String → Type 0 where
  itself : is_class cs a ≡ true → IsBelow cs a a
  alias :
      {x : String}
      → IsBelow cs a x
      → (y : String) → is_class cs y ≡ true
      → are_aliases cs x y ≡ true
      → IsBelow cs a y
  child :
      {x : String}
      → IsBelow cs a x
      → (y : String) → is_class cs y ≡ true
      → contains (parents_of cs y) x ≡ true
      → IsBelow cs a y

IsBelow-is_class : {cs : Classes} {a x : String} → IsBelow cs a x → is_class cs x ≡ true
IsBelow-is_class (itself c) = c
IsBelow-is_class (alias b y c e) = c
IsBelow-is_class (child b y c e) = c

are_aliases-name_back :
    (n x y : String) (cs : Classes)
    → is_class cs x ≡ true
    → is_class cs y ≡ true
    → are_aliases (name_back (equivalents_of cs n) n cs) x y ≡ are_aliases cs x y
are_aliases-name_back n x y cs c d = ground (
  arith,
  name_back-equivalents (equivalents_of cs n) n x y cs,
  name_back-equivalents (equivalents_of cs n) n y x cs,
  eq_iff n x,
  eq_iff n y,
  c,
  d,
)

-- Closing the aliases makes no classes aliases that were not.
are_aliases-close_equivalents :
    (ns : List String) (x y : String) (cs : Classes)
    → is_class cs x ≡ true
    → is_class cs y ≡ true
    → are_aliases (close_equivalents ns cs) x y ≡ are_aliases cs x y
unfolding close_equivalents
are_aliases-close_equivalents [] x y cs c d = refl
are_aliases-close_equivalents (n ∷ ns) x y cs c d =
    are_aliases-close_equivalents ns x y (name_back (equivalents_of cs n) n cs)
      (name_back-is_class (equivalents_of cs n) n x cs ∙ c)
      (name_back-is_class (equivalents_of cs n) n y cs ∙ d)
    ∙ are_aliases-name_back n x y cs c d

module _ (cs : Classes) (tags : List String) (dict : distinct (names cs) ≡ true) where
  abbrev closed : Classes
  closed = close_equivalents (names cs) cs

  -- Where the loop steps to.
  below_lem :
      (x y : String)
      → is_class cs x ≡ true
      → is_class cs y ≡ true
      → contains (below (new_vocab cs tags) x) y
        ≡ (are_aliases cs x y || contains (parents_of cs y) x)
  unfolding new_vocab
  below_lem x y c d = ground (
    arith,
    contains-append (equivalents_of closed x) (get x (children_index cs [])) y,
    all-IsNamedBack cs tags dict x y,
    all-IsNamedBack cs tags dict y x,
    close_equivalents-is_class (names cs) x cs,
    close_equivalents-is_class (names cs) y cs,
    are_aliases-close_equivalents (names cs) x y cs c d,
    children_index_lem cs x y dict,
    c,
    d,
  )

  same_class : (x : String) → is_class closed x ≡ is_class cs x
  same_class x = close_equivalents-is_class (names cs) x cs

  Down-IsBelow : {a x : String} → Down (new_vocab cs tags) a x → IsBelow cs a x
  unfolding new_vocab
  Down-IsBelow {a} (here c) = itself (sym (same_class a) ∙ c)
  Down-IsBelow (step {x} w y e c) =
      let b = Down-IsBelow w in
      let d : is_class cs y ≡ true = sym (same_class y) ∙ c in
      let how = below_lem x y (IsBelow-is_class b) d in
      elim (Bool-cases (are_aliases cs x y)) [
        | inl k ↦ alias b y d k
        | inr k ↦ child b y d (ground (arith, how, k, e))
      ]

  IsBelow-Down : {a x : String} → IsBelow cs a x → Down (new_vocab cs tags) a x
  unfolding new_vocab
  IsBelow-Down {a} (itself c) = here (same_class a ∙ c)
  IsBelow-Down (alias {x} b y c k) =
      step (IsBelow-Down b) y (ground (arith, below_lem x y (IsBelow-is_class b) c, k))
        (same_class y ∙ c)
  IsBelow-Down (child {x} b y c k) =
      step (IsBelow-Down b) y (ground (arith, below_lem x y (IsBelow-is_class b) c, k))
        (same_class y ∙ c)

  -- For classes whose names are distinct, over which `new_vocab` makes its indexes: the loop of
  -- `descendants` ends, and returns just the classes that are below the class by the aliases and
  -- parents that were read.
  pub descendants-IsBelow :
      (a : String)
      → (ds : List String) × (descendants (new_vocab cs tags) a ≡ some ds)
        × ((m : String) → (contains ds m ≡ true) ↔ IsBelow cs a m)
  descendants-IsBelow a =
      let (ds, e, found) = descendants_lem (new_vocab cs tags) a in
      (ds, e, λ m. (λ h. Down-IsBelow ((found m).0 h), λ b. (found m).1 (IsBelow-Down b)))
