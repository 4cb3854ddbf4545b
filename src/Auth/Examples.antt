-- ===== src/Auth/Examples.antt =====
-- Two organisations, one user, one key, and the theorems on them.
use Prim.Native.Char.{Char, code}
use timberdoodle.Auth.Passwords.{IsBytes, IsHex, has_dollar, verify_password-hash_password}
use timberdoodle.Auth.{verify_password, hash_password, same_bytes}
use timberdoodle.Base.{
  ℕ, Option, String, zero, suc, ◌==◌, true, false, none, some, List, [], ◌∷◌, ◌≡◌, refl, contains,
  ◌||◌, is_some, if◌then◌else◌,
}
use timberdoodle.Base.{arith, ap, subst, not, length}
use timberdoodle.Base.{◌*◌, ◌+◌, ◌-◌, ◌/◌, ◌%◌, ◌<◌, leb, ◌&&◌, Bool}
use timberdoodle.Values.{Instant}
use timberdoodle.Auth.{
  Identity, Crypto, ApiKey, User, has_org, create_org, find_jti, list_revoked_jtis,
}
use timberdoodle.Auth.Api.{Jwt, missing, status, delete_api_key}
use timberdoodle.Auth.Valid.{IsValid}
use timberdoodle.Auth.Denylist.{
  Statement, add_org, add_key, revoke, run, identity_run-IsValid, delete_api_key_denies, is_jti_of,
  create_org_without_admin,
}

-- Toy functions in place of those of the libraries.
abbrev crypto : Crypto
crypto = record { hex = λ b. "00"; fromhex = λ s. some []; pbkdf2_hmac = λ p s. [] }

abbrev jwt : Jwt
jwt = record { encode = λ c. c.jti; decode = λ now t. none }

abbrev empty : Identity
empty = record { orgs = []; sites = []; users = []; user_sites = []; api_keys = []; revoked = [] }

empty-IsValid : IsValid empty
empty-IsValid = record {
  unique_emails = refl;
  known_orgs = refl;
  unique_keys = refl;
  enforced = refl;
}

abbrev script : List (Instant × Statement)
script =
    (1, add_org "o1" "u1" [] "Acme" "ann@acme.example" "secret")
    ∷ (2, add_org "o2" "u2" [] "Other" "ann@acme.example" "secret")
    ∷ (3, add_key "k1" "j1" "o1" "operator" [] none)
    ∷ (4, revoke "k1")
    ∷ []

identity_run-IsValid_example : IsValid (run crypto jwt script empty)
identity_run-IsValid_example = identity_run-IsValid crypto jwt script empty empty-IsValid

abbrev key : ApiKey
key = record {
  id = "k1";
  org_id = "o1";
  site_ids = [];
  role = "operator";
  jti = "j1";
  expires_at = none;
  revoked_at = none;
  created_at = 3;
}

abbrev user : User
user = record {
  id = "u1";
  org_id = "o1";
  email = "ann@acme.example";
  password_hash = "00$00";
  role = "admin";
  created_at = 1;
}

abbrev acme : Identity
acme = record empty {
  orgs = record { id = "o1"; name = "Acme"; created_at = 1 } ∷ [];
  users = user ∷ [];
  api_keys = key ∷ [];
}

delete_api_key_denies_example :
    let answer = delete_api_key jwt 9 missing "k1" acme in
    (answer.1 ≡ status (if is_some (find_jti "k1" acme.api_keys) then 204 else 404))
    × (contains (list_revoked_jtis answer.0) "j1"
        ≡ (contains (list_revoked_jtis acme) "j1" || is_jti_of "k1" acme.api_keys "j1"))
delete_api_key_denies_example = delete_api_key_denies jwt 9 missing "k1" "j1" acme

create_org_without_admin_example :
    let made = create_org crypto "o2" "u2" [] "Other" "ann@acme.example" "pw" 5 acme in
    (made.1 ≡ false) × (has_org "o2" made.0.orgs ≡ true) × (made.0.users ≡ acme.users)
create_org_without_admin_example =
    create_org_without_admin crypto "o2" "u2" [] "Other" "ann@acme.example" "pw" 5 acme refl refl

-- The number of a lower-case digit.
abbrev digit_value : Char → ℕ
digit_value c = if leb (code c) b'9' then code c - b'0' else code c - b'a' + 10

abbrev is_digit : Char → Bool
is_digit c = (leb b'0' (code c) && leb (code c) b'9') || (leb b'a' (code c) && leb (code c) b'f')

abbrev digits : List Char
digits =
    "0" ∷ "1" ∷ "2" ∷ "3" ∷ "4" ∷ "5" ∷ "6" ∷ "7" ∷ "8" ∷ "9" ∷ "a" ∷ "b" ∷ "c" ∷ "d" ∷ "e" ∷ "f"
    ∷ []

abbrev nth : ℕ → List Char → Char
nth n [] = "0"
nth zero (c ∷ cs) = c
nth (suc n) (c ∷ cs) = nth n cs

abbrev digit : ℕ → Char
digit n = nth n digits

abbrev hex : List ℕ → String
hex [] = ""
hex (n ∷ ns) = String.◌∷◌ (digit (n / 16)) (String.◌∷◌ (digit (n % 16)) (hex ns))

abbrev onto : ℕ → Option (List ℕ) → Option (List ℕ)
onto n none = none
onto n (some ns) = some (n ∷ ns)

abbrev fromhex : String → Option (List ℕ)
fromhex String.[] = some []
fromhex (String.◌∷◌ c String.[]) = none
fromhex (String.◌∷◌ c (String.◌∷◌ d s)) =
    let rest = onto (digit_value c * 16 + digit_value d) (fromhex s) in
    if is_digit c && is_digit d then rest else none

abbrev stands_for : ℕ → Char → Bool
stands_for n c = (digit_value c == n) && (is_digit c && not (code c == b'$'))

abbrev all_stand_for : ℕ → List Char → Bool
all_stand_for i [] = true
all_stand_for i (c ∷ cs) = stands_for i c && all_stand_for (suc i) cs

nth-stands_for :
    (i n : ℕ) (cs : List Char)
    → n < length cs
    → all_stand_for i cs ≡ true
    → stands_for (i + n) (nth n cs) ≡ true
nth-stands_for i n [] h k = absurd (omega (arith, h))
nth-stands_for i zero (c ∷ cs) h k = let e : i + 0 ≡ i = omega arith in rw e (ground (arith, k))
nth-stands_for i (suc n) (c ∷ cs) h k =
    let e : i + suc n ≡ suc i + n = omega arith in
    rw e (nth-stands_for (suc i) n cs (omega (arith, h)) (ground (arith, k)))

digit-value :
    (n : ℕ)
    → n < 16
    → (digit_value (digit n) ≡ n) × (is_digit (digit n) ≡ true) × ((code (digit n) == b'$') ≡ false)
digit-value n h =
    let e : 0 + n ≡ n = omega arith in
    let ok : stands_for n (digit n) ≡ true =
      subst (λ m. stands_for m (digit n) ≡ true) e (nth-stands_for 0 n digits h refl) in
    read (digit n) ok
  where
    read :
        (c : Char)
        → stands_for n c ≡ true
        → (digit_value c ≡ n) × (is_digit c ≡ true) × ((code c == b'$') ≡ false)
    read c k = ground (arith, k)

fromhex-hex : (b : List ℕ) → IsBytes b → fromhex (hex b) ≡ some b
fromhex-hex [] h = refl
fromhex-hex (n ∷ ns) h =
    let (u, p, a) = digit-value (n / 16) (omega (arith, h.0)) in
    let (w, q, b) = digit-value (n % 16) (omega arith) in
    rw (p, q, fromhex-hex ns h.1, u, w) (ap (λ m. some (m ∷ ns)) (omega arith))

hex-plain : (b : List ℕ) → IsBytes b → has_dollar (hex b) ≡ false
hex-plain [] h = refl
hex-plain (n ∷ ns) h =
    let (u, p, a) = digit-value (n / 16) (omega (arith, h.0)) in
    let (w, q, b) = digit-value (n % 16) (omega arith) in rw (a, b, hex-plain ns h.1) refl

-- Hexadecimal, with a derived key that is the salt behind a byte.
abbrev hexadecimal : Crypto
hexadecimal = record { hex = hex; fromhex = fromhex; pbkdf2_hmac = λ password salt. 7 ∷ salt }

hexadecimal-IsHex : IsHex hexadecimal
hexadecimal-IsHex = record {
  reads_back = fromhex-hex;
  digits_only = hex-plain;
  derives_bytes = λ p salt h. (omega arith, h);
}

verify_password-hash_password_example :
    (verify_password hexadecimal "guess" (hash_password hexadecimal (1 ∷ 254 ∷ []) "secret")
      ≡ some (
          same_bytes
            (hexadecimal.pbkdf2_hmac "guess" (1 ∷ 254 ∷ []))
            (hexadecimal.pbkdf2_hmac "secret" (1 ∷ 254 ∷ []))))
    × (verify_password hexadecimal "secret" (hash_password hexadecimal (1 ∷ 254 ∷ []) "secret")
        ≡ some true)
verify_password-hash_password_example =
    verify_password-hash_password hexadecimal (1 ∷ 254 ∷ []) "secret" "guess" hexadecimal-IsHex
      (omega arith, (omega arith, tt))
