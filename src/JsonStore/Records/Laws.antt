-- ===== src/JsonStore/Records/Laws.antt =====
-- What a merge has under a key, and what a deletion by id leaves.
use timberdoodle.Base.{
  suc, ◌≤◌, ◌≡◌, refl, sym, ap, ◌∙◌, ◌⊎◌, inl, inr, String, Bool, true, false, Option, none, some,
  List, [], ◌∷◌, ◌++◌, length, length-append, str_eq, contains, distinct, if◌then◌else◌, arith,
  eq_iff, Bool-cases, Option-cases,
}
use timberdoodle.Base.Dict.{text_key, lookup, insert, lookup-insert}
use timberdoodle.Values.{Value}
use timberdoodle.JsonStore.{File, load}
use timberdoodle.JsonStore.Records.{
  Object, save, merge, without, id_is, keep_unless, others, has_record, status, object, loaded,
  removed, delete_record, append_record,
}

abbrev pub keys : Object → List String
keys [] = []
keys ((k, v) ∷ o) = k ∷ keys o

abbrev pub or_value : Option Value → Option Value → Option Value
or_value none b = b
or_value (some v) b = some v

lookup-keys : (k : String) (o : Object) → contains (keys o) k ≡ false → lookup k o ≡ none
unfolding lookup
lookup-keys k [] h = refl
lookup-keys k ((j, v) ∷ o) h = ground (arith, lookup-keys k o)

-- The later dict wins.
pub lookup-merge :
    (k : String) (a b : Object)
    → distinct (keys b) ≡ true
    → lookup k (merge a b) ≡ or_value (lookup k b) (lookup k a)
unfolding merge lookup
lookup-merge k a [] h = refl
lookup-merge k a ((j, v) ∷ b) h = elim (Bool-cases (str_eq j k)) [
  | inl e ↦
      rw
        (
          e,
          lookup-merge k (insert j v a) b (ground (arith, h)),
          lookup-keys k b (ground (arith, h, (eq_iff j k).0 e)),
          lookup-insert j k v a,
          e,
        )
        refl
  | inr e ↦
      rw (e, lookup-merge k (insert j v a) b (ground (arith, h)), lookup-insert j k v a, e) refl
]

pub lookup-without :
    (k : String) (names : List String) (o : Object)
    → contains names k ≡ false
    → lookup k (without names o) ≡ lookup k o
unfolding without lookup
lookup-without k names [] h = refl
lookup-without k names ((j, v) ∷ o) h = elim (Bool-cases (str_eq j k)) [
  | inl e ↦ ground (arith, e, (eq_iff j k).0 e, h)
  | inr e ↦ ground (arith, e, lookup-without k names o h)
]

-- What the ids of a list say of the list without an id.
record IsWithout (i : String) (rs rest : List Object) : Type 0 where
  found : Bool
  has : has_record i rs ≡ some found
  gone : has_record i rest ≡ some false
  shorter : (if found then suc (length rest) else length rest) ≤ length rs
  same : found ≡ false → rest ≡ rs

keep_unless-some :
    (o : Option Bool) (r : Object) (p : Option (List Object)) (rest : List Object)
    → keep_unless o r p ≡ some rest
    → (o ≡ some true) × (p ≡ some rest)
      ⊎ (rest' : List Object) × (o ≡ some false) × (p ≡ some rest') × (rest ≡ r ∷ rest')
keep_unless-some none r p rest h = cc
keep_unless-some (some true) r p rest h = inl (refl, h)
keep_unless-some (some false) r none rest h = cc
keep_unless-some (some false) r (some rs) rest h = inr (rs, refl, refl, ground (arith, h))

others-IsWithout :
    (i : String) (rs rest : List Object) → others i rs ≡ some rest → IsWithout i rs rest
unfolding others has_record
others-IsWithout i [] rest h =
    let e : [] ≡ rest = ground (arith, h) in
    rw (sym e)
      (record { found = false; has = refl; gone = refl; shorter = omega arith; same = λ _. refl })
others-IsWithout i (r ∷ rs) rest h = elim (keep_unless-some (id_is i r) r (others i rs) rest h) [
  | inl (e, p) ↦
      let w = others-IsWithout i rs rest p in
      record {
        found = true;
        has = rw e refl;
        gone = w.gone;
        shorter = elim (Bool-cases w.found) [
          | inl f ↦ ground (arith, w.shorter, f)
          | inr f ↦ ground (arith, w.shorter, f)
        ];
        same = λ f. cc;
      }
  | inr (rest', e, p, q) ↦
      let w = others-IsWithout i rs rest' p in
      rw q (record {
        found = w.found;
        has = rw (e, w.has) refl;
        gone = rw (e, w.gone) refl;
        shorter = elim (Bool-cases w.found) [
          | inl f ↦ ground (arith, w.shorter, f)
          | inr f ↦ ground (arith, w.shorter, f)
        ];
        same = λ f. ap (λ xs. r ∷ xs) (w.same f);
      })
]

delete_record-removed :
    (i : String) (f : File Object) (rs : List Object)
    → load f ≡ some rs
    → delete_record i f ≡ removed f rs (others i rs)
unfolding delete_record
delete_record-removed i f rs l = rw (l, loaded) refl

removed-found :
    (f : File Object) (rs rest : List Object) (found : Bool)
    → (if found then suc (length rest) else length rest) ≤ length rs
    → (found ≡ false → rest ≡ rs)
    → removed f rs (some rest) ≡ (if found then (save rest, status 204) else (f, status 404))
unfolding removed
removed-found f rs rest true h same = ground (arith, h)
removed-found f rs rest false h same = ground (arith, ap length (same refl))

-- For a list whose records all have ids: a deletion answers 204 and leaves the list without the id if
-- a record has it, and else answers 404 and leaves the file as it was. No record has the id then.
pub delete_record-has_record :
    (i : String) (f : File Object) (rs rest : List Object)
    → load f ≡ some rs
    → others i rs ≡ some rest
    → (found : Bool) × (has_record i rs ≡ some found)
      × (has_record i rest ≡ some false)
      × (delete_record i f ≡ (if found then (save rest, status 204) else (f, status 404)))
unfolding delete_record
delete_record-has_record i f rs rest l o =
    let w = others-IsWithout i rs rest o in
    (
      w.found,
      w.has,
      w.gone,
      delete_record-removed i f rs l ∙ rw o (removed-found f rs rest w.found w.shorter w.same),
    )

others-absent :
    (i : String) (rs : List Object) → has_record i rs ≡ some false → others i rs ≡ some rs
unfolding others has_record
others-absent i [] h = refl
others-absent i (r ∷ rs) h = elim (Option-cases (id_is i r)) [
  | inl e ↦ ground (arith, e, h)
  | inr (b, e) ↦ elim (Bool-cases b) [
    | inl t ↦ ground (arith, e, t, h)
    | inr t ↦ rw (e, t, others-absent i rs (ground (arith, e, t, h))) refl
  ]
]

others-append :
    (i : String) (rs : List Object) (r : Object)
    → has_record i rs ≡ some false
    → id_is i r ≡ some true
    → others i (rs ++ r ∷ []) ≡ some rs
unfolding others has_record
others-append i [] r h k = rw k refl
others-append i (q ∷ rs) r h k = elim (Option-cases (id_is i q)) [
  | inl e ↦ ground (arith, e, h)
  | inr (b, e) ↦ elim (Bool-cases b) [
    | inl t ↦ ground (arith, e, t, h)
    | inr t ↦ rw (e, t, others-append i rs r (ground (arith, e, t, h)) k) refl
  ]
]

pub append_record-loaded :
    (r : Object) (f : File Object) (rs : List Object)
    → load f ≡ some rs
    → append_record r f ≡ (save (rs ++ r ∷ []), object 201 r)
unfolding append_record
append_record-loaded r f rs l = rw (l, loaded) refl

-- A record that is added under an id of its own and then deleted by it leaves the list that was there.
pub delete_record-append_record :
    (i : String) (f : File Object) (rs : List Object) (r : Object)
    → load f ≡ some rs
    → has_record i rs ≡ some false
    → id_is i r ≡ some true
    → delete_record i (append_record r f).0 ≡ (save rs, status 204)
delete_record-append_record i f rs r l h k = rw (append_record-loaded r f rs l) (
    delete_record-removed i (save (rs ++ r ∷ [])) (rs ++ r ∷ []) (unfold load save in refl)
    ∙ rw (others-append i rs r h k) (
        removed-found (save (rs ++ r ∷ [])) (rs ++ r ∷ []) rs true
          (omega (arith, length-append rs (r ∷ []))) (λ e. cc)))
