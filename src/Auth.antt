-- ===== src/Auth.antt =====
-- src/timberdoodle/auth.py: organisations, users, API keys and the denylist. The connection commits
-- each statement by itself (timeseries.connect_pool), so what a function wrote before it raised stays.
use timberdoodle.Base.{
  ℕ, ◌+◌, ◌*◌, String, Bool, true, false, not, ◌&&◌, ◌||◌, Option, none, some, List, [], ◌∷◌, ◌++◌,
  ◌==◌, any, keep, map, ltb, str_eq, contains, if◌then◌else◌, is_none, str_append,
}
use timberdoodle.Values.{Instant}
use Prim.Native.Char.{Char, code}
pub mod Api
pub mod Valid
pub mod Denylist
pub mod Passwords
mod Examples

pub record Org : Type 0 where
  pub id : String
  pub name : String
  pub created_at : Instant

pub record Site : Type 0 where
  pub id : String
  pub org_id : String
  pub name : String
  pub created_at : Instant

pub record User : Type 0 where
  pub id : String
  pub org_id : String
  pub email : String
  pub password_hash : String
  pub role : String
  pub created_at : Instant

-- No `site_ids` means the whole organisation. `last_used_at` is left out: nothing writes it.
pub record ApiKey : Type 0 where
  pub id : String
  pub org_id : String
  pub site_ids : List String
  pub role : String
  pub jti : String
  pub expires_at : Option Instant
  pub revoked_at : Option Instant
  pub created_at : Instant

pub record Identity : Type 0 where
  pub orgs : List Org
  pub sites : List Site
  pub users : List User
  pub user_sites : List (String × String)
  pub api_keys : List ApiKey
  pub revoked : List (String × Instant)

abbrev pub has_org : String → List Org → Bool
has_org id os = any (λ o. str_eq o.id id) os

-- An INSERT raises (`false`) on a duplicate key and on a reference to no organisation.
unfoldable pub insert_org : Org → Identity → Identity × Bool
insert_org o s =
    if has_org o.id s.orgs then (s, false) else (record s { orgs = s.orgs ++ o ∷ [] }, true)

abbrev pub email_taken : String → List User → Bool
email_taken email us = any (λ u. str_eq u.email email) us

abbrev pub user_id_taken : String → List User → Bool
user_id_taken id us = any (λ u. str_eq u.id id) us

unfoldable pub insert_user : User → Identity → Identity × Bool
insert_user u s =
    if email_taken u.email s.users || (user_id_taken u.id s.users || not (has_org u.org_id s.orgs))
    then (s, false)
    else (record s { users = s.users ++ u ∷ [] }, true)

-- The functions of the standard library that passwords go through.
pub record Crypto : Type 0 where
  pub hex : List ℕ → String
  pub fromhex : String → Option (List ℕ)
  pub pbkdf2_hmac : String → List ℕ → List ℕ

-- `stored_hash.split("$")`
abbrev pub onto_first : Char → List String → List String
onto_first c [] = String.◌∷◌ c String.[] ∷ []
onto_first c (p ∷ ps) = String.◌∷◌ c p ∷ ps

abbrev pub split_dollar : String → List String
split_dollar String.[] = "" ∷ []
split_dollar (String.◌∷◌ c s) =
    let rest = split_dollar s in if code c == b'$' then "" ∷ rest else onto_first c rest

abbrev pub same_bytes : List ℕ → List ℕ → Bool
same_bytes [] [] = true
same_bytes (x ∷ xs) (y ∷ ys) = (x == y) && same_bytes xs ys
same_bytes _ _ = false

module _ (c : Crypto) where
  unfoldable pub hash_password : List ℕ → String → String
  hash_password salt password =
      str_append (c.hex salt) (str_append "$" (c.hex (c.pbkdf2_hmac password salt)))

  -- `none` is the ValueError of `bytes.fromhex`, which is not caught.
  unfoldable pub verify_parts : String → List String → Option Bool
  verify_parts password (salt ∷ dk ∷ []) = elim (c.fromhex salt) [
    | none ↦ none
    | some s ↦ elim (c.fromhex dk) [
      | none ↦ none
      | some expected ↦ some (same_bytes (c.pbkdf2_hmac password s) expected)
    ]
  ]
  verify_parts password _ = some false

  unfoldable pub verify_password : String → String → Option Bool
  unfolding verify_parts
  verify_password password stored = verify_parts password (split_dollar stored)

  -- A random id and salt are arguments.
  unfoldable pub create_user :
      String → List ℕ → String → String → String → String → Instant → Identity → Identity × Bool
  unfolding insert_user hash_password
  create_user id salt org email password role now s =
      insert_user
        (record {
          id = id;
          org_id = org;
          email = email;
          password_hash = hash_password salt password;
          role = role;
          created_at = now;
        })
        s

  unfoldable pub create_org :
      String → String → List ℕ → String → String → String → Instant → Identity → Identity × Bool
  unfolding insert_org create_user
  create_org org_id user_id salt name email password now s =
      let (s', ok) = insert_org (record { id = org_id; name = name; created_at = now }) s in
      if ok then create_user user_id salt org_id email password "admin" now s' else (s', false)

unfoldable pub create_site : String → String → String → Instant → Identity → Identity × Bool
create_site id org name now s =
    if any (λ (x : Site). str_eq x.id id) s.sites || not (has_org org s.orgs) then (s, false) else (
      record s {
        sites = s.sites ++ record { id = id; org_id = org; name = name; created_at = now } ∷ [];
      },
      true,
    )

unfoldable pub get_user_by_email : String → List User → Option User
get_user_by_email email [] = none
get_user_by_email email (u ∷ us) =
    if str_eq u.email email then some u else get_user_by_email email us

unfoldable pub user_site_ids : String → Identity → List String
user_site_ids user s = map (λ e. e.1) (keep (λ e. str_eq e.0 user) s.user_sites)

-- No time to live, or one of 0, means no expiry; it is in microseconds here, as instants are.
abbrev pub expiry : Instant → Option ℕ → Option Instant
expiry now none = none
expiry now (some ttl) = if ttl == 0 then none else some (now + ttl)

unfoldable pub create_api_key :
    String
    → String
    → String
    → String
    → List String
    → Option ℕ
    → Instant
    → Identity
    → Identity × Option ApiKey
create_api_key id jti org role site_ids ttl now s =
    let key : ApiKey = record {
      id = id;
      org_id = org;
      site_ids = site_ids;
      role = role;
      jti = jti;
      expires_at = expiry now ttl;
      revoked_at = none;
      created_at = now;
    } in
    if any (λ (k : ApiKey). str_eq k.id id || str_eq k.jti jti) s.api_keys
      || not (has_org org s.orgs)
    then (s, none)
    else (record s { api_keys = s.api_keys ++ key ∷ [] }, some key)

-- ORDER BY created_at DESC
unfoldable pub place_key : ApiKey → List ApiKey → List ApiKey
place_key k [] = k ∷ []
place_key k (l ∷ ls) =
    let rest = place_key k ls in if ltb k.created_at l.created_at then l ∷ rest else k ∷ l ∷ ls

unfoldable pub list_api_keys : String → List ApiKey → List ApiKey
unfolding place_key
list_api_keys org [] = []
list_api_keys org (k ∷ ks) =
    let rest = list_api_keys org ks in if str_eq k.org_id org then place_key k rest else rest

unfoldable pub find_jti : String → List ApiKey → Option String
find_jti id [] = none
find_jti id (k ∷ ks) = if str_eq k.id id then some k.jti else find_jti id ks

unfoldable pub revoke_row : String → Instant → ApiKey → ApiKey
revoke_row id now k = if str_eq k.id id then record k { revoked_at = some now } else k

abbrev pub is_denied : String → List (String × Instant) → Bool
is_denied jti ds = any (λ (d : String × Instant). str_eq d.0 jti) ds

-- ON CONFLICT (jti) DO NOTHING
unfoldable pub deny : String → Instant → List (String × Instant) → List (String × Instant)
deny jti now ds = if is_denied jti ds then ds else ds ++ (jti, now) ∷ []

unfoldable pub revoke_api_key : String → Instant → Identity → Identity × Bool
unfolding find_jti revoke_row deny
revoke_api_key id now s = elim (find_jti id s.api_keys) [
  | none ↦ (s, false)
  | some jti ↦ (
    record s { api_keys = map (revoke_row id now) s.api_keys; revoked = deny jti now s.revoked },
    true,
  )
]

unfoldable pub list_revoked_jtis : Identity → List String
list_revoked_jtis s = map (λ d. d.0) s.revoked
