-- ===== src/BrickVocab/Indexes.antt =====
-- The indexes of `__post_init__` by membership: children and tags.
use timberdoodle.Base.{
  ◌≡◌, refl, subst, inl, inr, String, Bool, true, false, ◌&&◌, ◌||◌, List, [], ◌∷◌, arith, eq_iff,
  str_eq, contains, Bool-cases, distinct,
}
use timberdoodle.Base.Dict.{text_key, lookup, lookup-insert}
use timberdoodle.BrickVocab.{
  Classes, Index, add, get, put, put_all, put_tags, parents_of, names, children_index, tag_index,
  compute_effective_tags,
}

pub contains-add :
    (x y : String) (s : List String) → contains (add x s) y ≡ (str_eq x y || contains s y)
contains-add x y s = ground (arith, eq_iff x y)

pub get-put :
    (k j x y : String) (d : Index)
    → contains (get j (put k x d)) y ≡ ((str_eq k j && str_eq x y) || contains (get j d) y)
unfolding put
get-put k j x y d = elim (Bool-cases (str_eq k j)) [
  | inl e ↦
      rw (lookup-insert k j (add x (get k d)) d, e)
        (subst (λ z. contains (add x (get k d)) y ≡ (str_eq x y || contains (get z d) y))
          ((eq_iff k j).0 e) (contains-add x y (get k d)))
  | inr e ↦ rw (lookup-insert k j (add x (get k d)) d, e)
]

-- Some entry of the name lists the parent.
has_parent : Classes → String → String → Bool
has_parent [] p n = false
has_parent ((m, c) ∷ cs) p n = (str_eq m n && contains c.parents p) || has_parent cs p n

get-put_all :
    (ps : List String) (m p n : String) (d : Index)
    → contains (get p (put_all ps m d)) n ≡ ((str_eq m n && contains ps p) || contains (get p d) n)
unfolding put_all
get-put_all [] m p n d = elim (Bool-cases (str_eq m n)) [ inl e ↦ rw e refl | inr e ↦ rw e refl ]
get-put_all (q ∷ ps) m p n d = ground (arith, get-put_all ps m p n (put q m d), get-put q p m n d)

get-children_index :
    (cs : Classes) (p n : String) (d : Index)
    → contains (get p (children_index cs d)) n ≡ (has_parent cs p n || contains (get p d) n)
unfolding children_index has_parent
get-children_index [] p n d = refl
get-children_index ((m, c) ∷ cs) p n d =
    ground (arith, get-children_index cs p n (put_all c.parents m d), get-put_all c.parents m p n d)

has_parent-names :
    (cs : Classes) (p n : String) → contains (names cs) n ≡ false → has_parent cs p n ≡ false
unfolding has_parent
has_parent-names [] p n h = refl
has_parent-names ((m, c) ∷ cs) p n h = ground (arith, has_parent-names cs p n)

parents_of-has_parent :
    (cs : Classes) (p n : String)
    → distinct (names cs) ≡ true
    → has_parent cs p n ≡ contains (parents_of cs n) p
unfolding has_parent lookup
parents_of-has_parent [] p n h = refl
parents_of-has_parent ((m, c) ∷ cs) p n h = elim (Bool-cases (str_eq m n)) [
  | inl e ↦ rw e (
      ground (
        arith,
        subst (λ z. has_parent cs p z ≡ false) ((eq_iff m n).0 e)
            (has_parent-names cs p m (ground (arith, h))),
      ))
  | inr e ↦ rw e (parents_of-has_parent cs p n (ground (arith, h)))
]

-- The children of a class are the classes that name it among their parents.
pub children_index_lem :
    (cs : Classes) (p n : String)
    → distinct (names cs) ≡ true
    → contains (get p (children_index cs [])) n ≡ contains (parents_of cs n) p
unfolding lookup
children_index_lem cs p n h =
    ground (arith, get-children_index cs p n [], parents_of-has_parent cs p n h)

get-put_tags :
    (ts : List String) (n t m : String) (d : Index)
    → contains (get t (put_tags ts n d)) m ≡ ((str_eq n m && contains ts t) || contains (get t d) m)
unfolding put_tags
get-put_tags [] n t m d = elim (Bool-cases (str_eq n m)) [ inl e ↦ rw e refl | inr e ↦ rw e refl ]
get-put_tags (u ∷ ts) n t m d = ground (arith, get-put_tags ts n t m (put u n d), get-put u t n m d)

-- The classes under a tag are the classes that have it among their effective tags.
pub get-tag_index :
    (cs : Classes) (ns : List String) (t m : String) (d : Index)
    → contains (get t (tag_index cs ns d)) m
      ≡ ((contains ns m && contains (compute_effective_tags cs m) t) || contains (get t d) m)
unfolding tag_index
get-tag_index cs [] t m d = refl
get-tag_index cs (n ∷ ns) t m d = ground (
  arith,
  get-tag_index cs ns t m (put_tags (compute_effective_tags cs n) n d),
  get-put_tags (compute_effective_tags cs n) n t m d,
  eq_iff n m,
)
