-- ===== src/Auth/Api.antt =====
-- The tokens of auth.py, and the handlers of src/timberdoodle/auth_api.py that use them.
use timberdoodle.Base.{
  ℕ, ◌+◌, ◌*◌, ◌/◌, String, true, false, Option, none, some, List, str_eq, if◌then◌else◌,
}
use timberdoodle.Values.{Instant}
use timberdoodle.Auth.{
  Identity, User, ApiKey, Crypto, get_user_by_email, verify_password, user_site_ids, create_api_key,
  list_api_keys, revoke_api_key, create_site, create_user, deny,
}

pub record Claims : Type 0 where
  pub sub : String
  pub org_id : String
  pub role : String
  pub site_ids : List String
  pub kind : String
  pub jti : String
  pub exp : Option ℕ

-- PyJWT with the service's secret; `decode` is `none` where it raises a PyJWTError, as on an expired
-- token.
pub record Jwt : Type 0 where
  pub encode : Claims → String
  pub decode : Instant → String → Option Claims

-- Times of claims are whole seconds.
abbrev pub seconds : Instant → ℕ
seconds t = t / 1000000

abbrev pub session_ttl_seconds : ℕ
session_ttl_seconds = 12 * 3600

unfoldable pub session_claims : User → List String → String → Instant → Claims
session_claims u site_ids jti now = record {
  sub = u.id;
  org_id = u.org_id;
  role = u.role;
  site_ids = site_ids;
  kind = "session";
  jti = jti;
  exp = some (seconds now + session_ttl_seconds);
}

unfoldable pub api_key_claims : ApiKey → Claims
api_key_claims k = record {
  sub = k.id;
  org_id = k.org_id;
  role = k.role;
  site_ids = k.site_ids;
  kind = "api_key";
  jti = k.jti;
  exp = elim k.expires_at [ none ↦ none | some t ↦ some (seconds t) ];
}

-- What follows "Bearer " in the header, if it starts so.
pub data Header : Type 0 where
  bearer : String → Header
  other missing : Header

unfoldable pub decode_own_token : Jwt → Instant → Header → Option Claims
decode_own_token jwt now (bearer token) = jwt.decode now token
decode_own_token jwt now _ = none

-- A ValueError is answered with 400; a database error ends the request without an answer.
pub data Response : Type 0 where
  status : ℕ → Response
  token : String → Response
  key_token : String → String → Response
  keys : List ApiKey → Response
  claims_of : Claims → Response
  server_error : Response

module _ (jwt : Jwt) (now : Instant) where
  unfoldable pub login_as : User → String → Identity → Identity × Response
  unfolding session_claims
  login_as u jti s = (s, token (jwt.encode (session_claims u (user_site_ids u.id s) jti now)))

  -- A fresh `jti` is an argument.
  unfoldable pub login : Crypto → String → String → String → Identity → Identity × Response
  unfolding login_as
  login c jti email password s = elim (get_user_by_email email s.users) [
    | none ↦ (s, status 401)
    | some u ↦ elim (verify_password c password u.password_hash) [
      | none ↦ (s, status 400)
      | some false ↦ (s, status 401)
      | some true ↦ login_as u jti s
    ]
  ]

  -- Only an API key is denied; a session runs out by itself.
  unfoldable pub logout : Header → Identity → Identity × Response
  unfolding deny decode_own_token
  logout h s = elim (decode_own_token jwt now h) [
    | none ↦ (s, status 204)
    | some c ↦
        if str_eq c.kind "api_key"
        then (record s { revoked = deny c.jti now s.revoked }, status 204)
        else (s, status 204)
  ]

  -- `_require_caller`
  abbrev pub with_caller : Header → Identity → (Claims → Identity × Response) → Identity × Response
  with_caller h s next = elim (decode_own_token jwt now h) [
    | none ↦ (s, status 401)
    | some c ↦ next c
  ]

  unfoldable pub post_api_key :
      Header → String → String → String → List String → Option ℕ → Identity → Identity × Response
  unfolding decode_own_token
  post_api_key h id jti role site_ids ttl s = with_caller h s (λ c.
      let (s', made) = create_api_key id jti c.org_id role site_ids ttl now s in
      elim made [
        | none ↦ (s', server_error)
        | some k ↦ (s', key_token k.id (jwt.encode (api_key_claims k)))
      ])

  unfoldable pub get_api_keys : Header → Identity → Identity × Response
  unfolding decode_own_token
  get_api_keys h s = with_caller h s (λ c. (s, keys (list_api_keys c.org_id s.api_keys)))

  -- The handler does not look at the caller.
  unfoldable pub delete_api_key : Header → String → Identity → Identity × Response
  delete_api_key h id s =
      let (s', found) = revoke_api_key id now s in (s', status (if found then 204 else 404))

  unfoldable pub get_me : Header → Identity → Identity × Response
  unfolding decode_own_token
  get_me h s = with_caller h s (λ c. (s, claims_of c))

  unfoldable pub post_site : Header → String → String → Identity → Identity × Response
  unfolding decode_own_token
  post_site h id name s = with_caller h s (λ c.
      let (s', ok) = create_site id c.org_id name now s in
      (s', if ok then status 201 else server_error))

  unfoldable pub post_user :
      Crypto → Header → String → List ℕ → String → String → String → Identity → Identity × Response
  unfolding decode_own_token
  post_user crypto h id salt email password role s = with_caller h s (λ c.
      let (s', ok) = create_user crypto id salt c.org_id email password role now s in
      (s', if ok then status 201 else server_error))
