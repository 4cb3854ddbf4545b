-- ===== src/Auth/Denylist.antt =====
-- Sequences of statements on the identity tables, revocation, and an organisation without an admin.
use timberdoodle.Base.{
  ℕ, String, Bool, true, false, not, ◌||◌, Option, none, some, List, [], ◌∷◌, ◌≡◌, refl, ◌∙◌, arith,
  any, any-append, map, str_eq, eq_iff, contains, if◌then◌else◌, inl, inr, Bool-cases, Option-cases,
  is_some,
}
use timberdoodle.Values.{Instant}
use timberdoodle.Auth.{
  Org, Site, ApiKey, Identity, Crypto, has_org, email_taken, insert_org, insert_user, create_user,
  create_org, create_site, create_api_key, find_jti, is_denied, deny, revoke_api_key,
  list_revoked_jtis,
}
use timberdoodle.Auth.Api.{Jwt, Header, status, delete_api_key, logout, decode_own_token}
use timberdoodle.Auth.Valid.{
  IsValid, insert_org-IsValid, insert_user-IsValid, create_api_key-IsValid, is_denied-deny,
  deny-IsValid, key_ids-revoke, enforced-revoke,
}

pub data Statement : Type 0 where
  add_org : String → String → List ℕ → String → String → String → Statement
  add_user : String → List ℕ → String → String → String → String → Statement
  add_site : String → String → String → Statement
  add_key : String → String → String → String → List String → Option ℕ → Statement
  revoke : String → Statement
  log_out : Header → Statement

module _ (c : Crypto) (jwt : Jwt) where
  unfoldable pub execute : Instant → Statement → Identity → Identity
  execute now (add_org org user salt name email password) s =
      (create_org c org user salt name email password now s).0
  execute now (add_user id salt org email password role) s =
      (create_user c id salt org email password role now s).0
  execute now (add_site id org name) s = (create_site id org name now s).0
  execute now (add_key id jti org role sites ttl) s =
      (create_api_key id jti org role sites ttl now s).0
  execute now (revoke id) s = (revoke_api_key id now s).0
  execute now (log_out h) s = (logout jwt now h s).0

  abbrev pub run : List (Instant × Statement) → Identity → Identity
  run [] s = s
  run ((now, x) ∷ xs) s = run xs (execute now x s)

  revoke_api_key-IsValid :
      (id : String) (now : Instant) (s : Identity) → IsValid s → IsValid (revoke_api_key id now s).0
  unfolding revoke_api_key
  revoke_api_key-IsValid id now s h = elim (Option-cases (find_jti id s.api_keys)) [
    | inl e ↦ rw (e, revoke_api_key) h
    | inr (jti, e) ↦
        let denied = deny-IsValid jti now s h in
        rw (e, revoke_api_key)
          (record {
            unique_emails = h.unique_emails;
            known_orgs = h.known_orgs;
            unique_keys = rw (key_ids-revoke id now s.api_keys) h.unique_keys;
            enforced =
                enforced-revoke id now s.api_keys jti (deny jti now s.revoked) e h.unique_keys
                  denied.enforced
                  (is_denied-deny jti now s.revoked jti ∙ ground (arith, eq_iff jti jti));
          })
  ]

  create_org-IsValid :
      (org user : String) (salt : List ℕ) (name email password : String) (now : Instant)
      (s : Identity)
      → IsValid s
      → IsValid (create_org c org user salt name email password now s).0
  unfolding create_org create_user
  create_org-IsValid org user salt name email password now s h =
      let o : Org = record { id = org; name = name; created_at = now } in
      let h' = insert_org-IsValid o s h in
      elim (Bool-cases (insert_org o s).1) [
        | inl e ↦ rw (e, create_org) (insert_user-IsValid _ (insert_org o s).0 h')
        | inr e ↦ rw (e, create_org) h'
      ]

  create_site-IsValid :
      (id org name : String) (now : Instant) (s : Identity)
      → IsValid s
      → IsValid (create_site id org name now s).0
  unfolding create_site
  create_site-IsValid id org name now s h =
      elim (Bool-cases (any (λ (x : Site). str_eq x.id id) s.sites || not (has_org org s.orgs))) [
        | inl e ↦ rw (e, create_site) h
        | inr e ↦
            rw (e, create_site)
              (record {
                unique_emails = h.unique_emails;
                known_orgs = h.known_orgs;
                unique_keys = h.unique_keys;
                enforced = h.enforced;
              })
      ]

  logout-IsValid :
      (now : Instant) (x : Header) (s : Identity) → IsValid s → IsValid (logout jwt now x s).0
  unfolding logout
  logout-IsValid now x s h = elim (Option-cases (decode_own_token jwt now x)) [
    | inl e ↦ rw (e, logout) h
    | inr (k, e) ↦ elim (Bool-cases (str_eq k.kind "api_key")) [
      | inl f ↦ rw (e, f, logout) (deny-IsValid k.jti now s h)
      | inr f ↦ rw (e, f, logout) h
    ]
  ]

  execute-IsValid :
      (now : Instant) (x : Statement) (s : Identity) → IsValid s → IsValid (execute now x s)
  unfolding execute create_user
  execute-IsValid now (add_org org user salt name email password) s h =
      create_org-IsValid org user salt name email password now s h
  execute-IsValid now (add_user id salt org email password role) s h = insert_user-IsValid _ s h
  execute-IsValid now (add_site id org name) s h = create_site-IsValid id org name now s h
  execute-IsValid now (add_key id jti org role sites ttl) s h =
      create_api_key-IsValid id jti org role sites ttl now s h
  execute-IsValid now (revoke id) s h = revoke_api_key-IsValid id now s h
  execute-IsValid now (log_out x) s h = logout-IsValid now x s h

  -- Over any sequence of statements and logouts, whatever they raise: no two users share an email,
  -- each user's organisation exists, no two keys share an id, and each revoked key is on the denylist.
  pub identity_run-IsValid :
      (xs : List (Instant × Statement)) (s : Identity) → IsValid s → IsValid (run xs s)
  identity_run-IsValid [] s h = h
  identity_run-IsValid ((now, x) ∷ xs) s h =
      identity_run-IsValid xs (execute now x s) (execute-IsValid now x s h)

contains-list_revoked :
    (ds : List (String × Instant)) (j : String)
    → contains (map (λ (d : String × Instant). d.0) ds) j ≡ is_denied j ds
contains-list_revoked [] j = refl
contains-list_revoked (d ∷ ds) j = ground (arith, contains-list_revoked ds j)

-- The `jti` of the key with this id, if there is one.
abbrev pub is_jti_of : String → List ApiKey → String → Bool
is_jti_of id ks j = elim (find_jti id ks) [ none ↦ false | some jti ↦ str_eq jti j ]

-- Deleting an API key, whoever asks: the answer is 404 if no key has the id and 204 if one has, and the
-- list that the gateway polls has gained exactly that key's `jti`. The caller, and so the caller's
-- organisation, plays no part.
pub delete_api_key_denies :
    (jwt : Jwt) (now : Instant) (caller : Header) (id j : String) (s : Identity)
    → let answer = delete_api_key jwt now caller id s in
      (answer.1 ≡ status (if is_some (find_jti id s.api_keys) then 204 else 404))
      × (contains (list_revoked_jtis answer.0) j
          ≡ (contains (list_revoked_jtis s) j || is_jti_of id s.api_keys j))
unfolding delete_api_key revoke_api_key list_revoked_jtis
delete_api_key_denies jwt now caller id j s = elim (Option-cases (find_jti id s.api_keys)) [
  | inl e ↦ rw (e, delete_api_key, revoke_api_key, contains, is_some) (refl, ground arith)
  | inr (jti, e) ↦
      rw (e, delete_api_key, revoke_api_key)
        (
          refl,
          contains-list_revoked (deny jti now s.revoked) j
              ∙ (is_denied-deny jti now s.revoked j
                  ∙ ground (arith, contains-list_revoked s.revoked j)),
        )
]

-- `create_org` with an email that is taken raises, and leaves the new organisation there without its
-- admin: the users are those of before.
pub create_org_without_admin :
    (c : Crypto) (org user : String) (salt : List ℕ) (name email password : String) (now : Instant)
    (s : Identity)
    → has_org org s.orgs ≡ false
    → email_taken email s.users ≡ true
    → let made = create_org c org user salt name email password now s in
      (made.1 ≡ false) × (has_org org made.0.orgs ≡ true) × (made.0.users ≡ s.users)
unfolding create_org insert_org create_user insert_user
create_org_without_admin c org user salt name email password now s fresh taken =
    rw (fresh, taken)
      (
        refl,
        any-append (λ (o : Org). str_eq o.id org) s.orgs
              (record { id = org; name = name; created_at = now } ∷ [])
            ∙ ground (arith, eq_iff org org),
        refl,
      )
