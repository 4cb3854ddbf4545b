-- ===== src/FaultDetector/Roster.antt =====
-- The Brick roster of the cur-mode rules, and the cache that holds it.
use timberdoodle.Base.{
  ℕ, ◌≡◌, refl, String, Bool, true, false, ◌&&◌, ◌||◌, Option, none, some, List, [], ◌∷◌, ◌++◌, any,
  arith, str_eq, eq_iff, if◌then◌else◌, contains, contains-append, Option-cases, inl, inr, ap, sym,
  ◌∙◌, ==_iff,
}
use mathlib.Core.Option.{some-injective}
use timberdoodle.Base.Dict.{text_key, lookup, insert, lookup-insert}
use timberdoodle.JsonStore.{File, holds, load, same_mtime}
use timberdoodle.FaultDetector.{
  Rule, Roster, RuleCache, both, ids_at, add_ids, cur_class, build_roster, build_brick_roster,
  renew, get, rule_ids_for_point,
}

add_one :
    (ids : List String) (id j : String)
    → contains (if contains ids id then ids else ids ++ id ∷ []) j ≡ (contains ids j || str_eq id j)
add_one ids id j = ground (arith, contains-append ids (id ∷ []) j, eq_iff id j)

ids_at-insert :
    (roster : Roster) (q p : String) (ids : List String)
    → ids_at (insert q ids roster) p ≡ (if str_eq q p then ids else ids_at roster p)
unfolding ids_at
ids_at-insert roster q p ids = rw (lookup-insert q p ids roster, ids_at) (ground arith)

ids_at-add_ids :
    (id : String) (points : List String) (roster : Roster) (p j : String)
    → contains (ids_at (add_ids id points roster) p) j
      ≡ (contains (ids_at roster p) j || (str_eq id j && contains points p))
unfolding add_ids
ids_at-add_ids id [] roster p j = ground arith
ids_at-add_ids id (q ∷ qs) roster p j =
    let ids = ids_at roster q in
    let ids' = if contains ids id then ids else ids ++ id ∷ [] in
    ground (
      arith,
      ids_at-add_ids id qs (insert q ids' roster) p j,
      ids_at-insert roster q p ids',
      add_one ids id j,
      eq_iff q p,
    )

-- The rule asks for a Brick class that has the point.
abbrev pub covers : (String → Option (List String)) → String → Rule → Bool
covers query p rule = elim (both (cur_class rule) query) [
  | none ↦ false
  | some points ↦ contains points p
]

build_roster_lem :
    (query : String → Option (List String)) (rules : List Rule) (start built : Roster)
    (p id : String)
    → build_roster query rules start ≡ some built
    → contains (ids_at built p) id
      ≡ (contains (ids_at start p) id || any (λ r. str_eq r.id id && covers query p r) rules)
unfolding build_roster
build_roster_lem query [] start built p id h = ground arith
build_roster_lem query (rule ∷ rules) start built p id h = elim (Option-cases (cur_class rule)) [
  | inl e ↦ ground (arith, e, build_roster_lem query rules start built p id)
  | inr (c, e) ↦ elim (Option-cases (query c)) [
    | inl e' ↦ absurd (ground (arith, e, e'))
    | inr (points, e') ↦ ground (
      arith,
      e,
      e',
      build_roster_lem query rules (add_ids rule.id points start) built p id,
      ids_at-add_ids rule.id points start p id,
    )
  ]
]

get_same :
    (query : String → Option (List String)) (c : RuleCache) (m : ℕ) (file : File Rule)
    → same_mtime c.mtime m ≡ true
    → get (some query) c (some m) file ≡ (c, some c.rules)
unfolding get
get_same query c m file e = rw e refl

module _ (query : String → Option (List String)) (c : RuleCache) (m : ℕ) (file : File Rule)
    (changed : same_mtime c.mtime m ≡ false) where
  get_unread : load file ≡ none → get (some query) c (some m) file ≡ (c, none)
  unfolding get
  get_unread e = rw (changed, e, renew) refl

  module _ (rules : List Rule) (read : load file ≡ some rules) where
    get_failed :
        build_roster query rules [] ≡ none
        → get (some query) c (some m) file ≡ (record c { mtime = some m; rules = rules }, none)
    unfolding get
    get_failed e = rw (changed, read, renew) (rw (e, build_brick_roster) refl)

    get_built :
        (roster : Roster)
        → build_roster query rules [] ≡ some roster
        → get (some query) c (some m) file
          ≡ (record { mtime = some m; rules = rules; brick_roster = roster }, some rules)
    unfolding get
    get_built roster e = rw (changed, read, renew) (rw (e, build_brick_roster) refl)

-- A call of `get` that rereads the rules and returns them leaves the roster that they ask for: a
-- point's rule ids are those of the cur-mode rules whose Brick class has the point.
pub get_builds_roster :
    (query : String → Option (List String)) (c : RuleCache) (m : ℕ) (file : File Rule)
    (rules : List Rule) (p id : String)
    → same_mtime c.mtime m ≡ false
    → (get (some query) c (some m) file).1 ≡ some rules
    → contains (rule_ids_for_point (get (some query) c (some m) file).0 p) id
      ≡ any (λ r. str_eq r.id id && covers query p r) rules
unfolding rule_ids_for_point ids_at lookup
get_builds_roster query c m file rules p id changed got = elim (Option-cases (load file)) [
  | inl e ↦ absurd (ground (arith, got, get_unread query c m file changed e))
  | inr (rs, e) ↦ elim (Option-cases (build_roster query rs [])) [
    | inl f ↦ absurd (ground (arith, got, get_failed query c m file changed rs e f))
    | inr (roster, f) ↦
        let done = get_built query c m file changed rs e roster f in
        let same : rs ≡ rules = some-injective rs rules (sym (ap (λ x. x.1) done) ∙ got) in
        rw (done, ← same) (build_roster_lem query rs [] roster p id f)
  ]
]

-- A call that rereads the rules and then fails on the roster raises, and keeps the new rules beside
-- the roster of the old ones; the next call at the same mtime returns those rules with no error and
-- still the old roster.
pub get_keeps_stale_roster :
    (query : String → Option (List String)) (c : RuleCache) (m : ℕ) (rules : List Rule)
    (later : File Rule) (p : String)
    → same_mtime c.mtime m ≡ false
    → build_roster query rules [] ≡ none
    → let c' = (get (some query) c (some m) (holds rules)).0 in
      ((get (some query) c (some m) (holds rules)).1 ≡ none)
      × ((get (some query) c' (some m) later).1 ≡ some rules)
      × (rule_ids_for_point (get (some query) c' (some m) later).0 p ≡ rule_ids_for_point c p)
unfolding load
get_keeps_stale_roster query c m rules later p changed fails =
    let failed = get_failed query c m (holds rules) changed rules refl fails in
    let kept =
      get_same query (record c { mtime = some m; rules = rules }) m later ((==_iff m m).1 refl) in
    (
      ap (λ x. x.1) failed,
      rw failed (ap (λ x. x.1) kept),
      rw failed (unfold rule_ids_for_point in ap (λ x. ids_at x.0.brick_roster p) kept),
    )
