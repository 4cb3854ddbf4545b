-- ===== src/Auth/Valid.antt =====
-- What holds of the identity tables over any sequence of statements.
use timberdoodle.Base.{
  ℕ, String, Bool, true, false, not, ◌&&◌, ◌||◌, Option, some, List, [], ◌∷◌, ◌++◌, ◌≡◌, refl, ◌∙◌,
  arith, any, all, any-append, all-append, map, str_eq, eq_iff, contains, contains-append, distinct,
  is_none, inl, inr, Bool-cases,
}
use timberdoodle.Values.{Instant}
use timberdoodle.Auth.{
  Org, User, ApiKey, Identity, has_org, email_taken, insert_org, insert_user, create_api_key,
  find_jti, revoke_row, is_denied, deny,
}

abbrev pub emails : List User → List String
emails [] = []
emails (u ∷ us) = u.email ∷ emails us

abbrev pub key_ids : List ApiKey → List String
key_ids [] = []
key_ids (k ∷ ks) = k.id ∷ key_ids ks

-- A key that is revoked is on the denylist.
abbrev pub is_enforced : List (String × Instant) → ApiKey → Bool
is_enforced ds k = is_none k.revoked_at || is_denied k.jti ds

-- No two users share an email, each user's organisation exists, no two keys share an id, and each
-- revoked key is on the denylist.
pub record IsValid (s : Identity) : Type 0 where
  pub unique_emails : distinct (emails s.users) ≡ true
  pub known_orgs : all (λ u. has_org u.org_id s.orgs) s.users ≡ true
  pub unique_keys : distinct (key_ids s.api_keys) ≡ true
  pub enforced : all (is_enforced s.revoked) s.api_keys ≡ true

distinct-snoc :
    (xs : List String) (x : String) → distinct (xs ++ x ∷ []) ≡ (distinct xs && not (contains xs x))
distinct-snoc [] x = ground arith
distinct-snoc (y ∷ xs) x =
    ground (arith, distinct-snoc xs x, contains-append xs (x ∷ []) y, eq_iff x y, eq_iff y x)

emails-append : (us vs : List User) → emails (us ++ vs) ≡ emails us ++ emails vs
emails-append [] vs = refl
emails-append (u ∷ us) vs = cc (emails-append us vs)

key_ids-append : (ks ls : List ApiKey) → key_ids (ks ++ ls) ≡ key_ids ks ++ key_ids ls
key_ids-append [] ls = refl
key_ids-append (k ∷ ks) ls = cc (key_ids-append ks ls)

contains-emails : (us : List User) (e : String) → contains (emails us) e ≡ email_taken e us
contains-emails [] e = refl
contains-emails (u ∷ us) e = ground (arith, contains-emails us e)

contains-key_ids :
    (ks : List ApiKey) (id jti : String)
    → contains (key_ids ks) id ≡ true
    → any (λ (k : ApiKey). str_eq k.id id || str_eq k.jti jti) ks ≡ true
contains-key_ids [] id jti h = cc
contains-key_ids (k ∷ ks) id jti h = ground (arith, contains-key_ids ks id jti)

all-weaken :
    {A : Type 0} (p q : A → Bool) (xs : List A)
    → ((x : A) → p x ≡ true → q x ≡ true)
    → all p xs ≡ true
    → all q xs ≡ true
all-weaken p q [] h k = refl
all-weaken p q (x ∷ xs) h k = ground (arith, h x, all-weaken p q xs h)

pub insert_org-IsValid : (o : Org) (s : Identity) → IsValid s → IsValid (insert_org o s).0
unfolding insert_org
insert_org-IsValid o s h = elim (Bool-cases (has_org o.id s.orgs)) [
  | inl e ↦ rw (e, insert_org) h
  | inr e ↦
      rw (e, insert_org)
        (record {
          unique_emails = h.unique_emails;
          known_orgs =
              all-weaken _ _ s.users
                (λ u k.
                  any-append (λ (x : Org). str_eq x.id u.org_id) s.orgs (o ∷ [])
                  ∙ ground (arith, k))
                h.known_orgs;
          unique_keys = h.unique_keys;
          enforced = h.enforced;
        })
]

pub insert_user-IsValid : (u : User) (s : Identity) → IsValid s → IsValid (insert_user u s).0
unfolding insert_user
insert_user-IsValid u s h =
    elim (Bool-cases (
      email_taken u.email s.users
      || (any (λ (v : User). str_eq v.id u.id) s.users || not (has_org u.org_id s.orgs)))) [
        | inl e ↦ rw (e, insert_user) h
        | inr e ↦
            rw (e, insert_user)
              (record {
                unique_emails = rw (emails-append s.users (u ∷ [])) (
                    distinct-snoc (emails s.users) u.email
                    ∙ ground (arith, h.unique_emails, contains-emails s.users u.email, e));
                known_orgs =
                    all-append (λ (v : User). has_org v.org_id s.orgs) s.users (u ∷ [])
                    ∙ ground (arith, h.known_orgs, e);
                unique_keys = h.unique_keys;
                enforced = h.enforced;
              })
      ]

pub create_api_key-IsValid :
    (id jti org role : String) (site_ids : List String) (ttl : Option ℕ) (now : Instant)
    (s : Identity)
    → IsValid s
    → IsValid (create_api_key id jti org role site_ids ttl now s).0
unfolding create_api_key
create_api_key-IsValid id jti org role site_ids ttl now s h =
    elim (Bool-cases (
      any (λ (k : ApiKey). str_eq k.id id || str_eq k.jti jti) s.api_keys
      || not (has_org org s.orgs))) [
        | inl e ↦ rw (e, create_api_key) h
        | inr e ↦
            rw (e, create_api_key)
              (record {
                unique_emails = h.unique_emails;
                known_orgs = h.known_orgs;
                unique_keys = rw (key_ids-append s.api_keys) (
                    distinct-snoc (key_ids s.api_keys) id
                    ∙ ground (arith, h.unique_keys, contains-key_ids s.api_keys id jti, e));
                enforced =
                    all-append (is_enforced s.revoked) s.api_keys _ ∙ ground (arith, h.enforced);
              })
      ]

pub is_denied-deny :
    (jti : String) (now : Instant) (ds : List (String × Instant)) (j : String)
    → is_denied j (deny jti now ds) ≡ (is_denied j ds || str_eq jti j)
unfolding deny
is_denied-deny jti now ds j = elim (Bool-cases (is_denied jti ds)) [
  | inl e ↦ rw (e, deny) (ground (arith, e, eq_iff jti j))
  | inr e ↦
      rw (e, deny)
        (any-append (λ (d : String × Instant). str_eq d.0 j) ds ((jti, now) ∷ []) ∙ ground arith)
]

pub deny-IsValid :
    (jti : String) (now : Instant) (s : Identity)
    → IsValid s
    → IsValid (record s { revoked = deny jti now s.revoked })
deny-IsValid jti now s h = record {
  unique_emails = h.unique_emails;
  known_orgs = h.known_orgs;
  unique_keys = h.unique_keys;
  enforced =
      all-weaken _ _ s.api_keys (λ k e. ground (arith, e, is_denied-deny jti now s.revoked k.jti))
        h.enforced;
}

pub key_ids-revoke :
    (id : String) (now : Instant) (ks : List ApiKey)
    → key_ids (map (revoke_row id now) ks) ≡ key_ids ks
unfolding revoke_row
key_ids-revoke id now [] = refl
key_ids-revoke id now (k ∷ ks) = ground (arith, key_ids-revoke id now ks)

none_revoked :
    (id : String) (now : Instant) (ks : List ApiKey) (p : ApiKey → Bool)
    → contains (key_ids ks) id ≡ false
    → all p (map (revoke_row id now) ks) ≡ all p ks
unfolding revoke_row
none_revoked id now [] p h = refl
none_revoked id now (k ∷ ks) p h = ground (arith, h, none_revoked id now ks p)

pub enforced-revoke :
    (id : String) (now : Instant) (ks : List ApiKey) (jti : String) (ds : List (String × Instant))
    → find_jti id ks ≡ some jti
    → distinct (key_ids ks) ≡ true
    → all (is_enforced ds) ks ≡ true
    → is_denied jti ds ≡ true
    → all (is_enforced ds) (map (revoke_row id now) ks) ≡ true
unfolding find_jti revoke_row
enforced-revoke id now [] jti ds f d h k = refl
enforced-revoke id now (x ∷ ks) jti ds f d h k = elim (Bool-cases (str_eq x.id id)) [
  | inl e ↦
      rw e (ground (arith, e, f, d, h, k, eq_iff x.id id, none_revoked id now ks (is_enforced ds)))
  | inr e ↦ rw e (ground (arith, e, f, d, h, k, enforced-revoke id now ks jti ds))
]
