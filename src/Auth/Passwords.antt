-- ===== src/Auth/Passwords.antt =====
-- A password against the hash that is stored of one.
use timberdoodle.Base.{
  ℕ, ◌<◌, All, String, Bool, true, false, ◌||◌, some, List, [], ◌∷◌, ◌≡◌, refl, ap, ◌∙◌, arith,
  ◌==◌, str_append,
}
use Prim.Native.Char.{code}
use timberdoodle.Auth.{
  Crypto, split_dollar, hash_password, verify_parts, verify_password, same_bytes,
}
use text.Mathlib.TextLemmas.{nil-append, cons-append}

abbrev pub has_dollar : String → Bool
has_dollar String.[] = false
has_dollar (String.◌∷◌ c s) = (code c == b'$') || has_dollar s

abbrev pub IsBytes : List ℕ → Type 0
IsBytes = All (λ n. n < 256)

-- What Python documents of bytes.hex and bytes.fromhex, and that a derived key is bytes.
pub record IsHex (c : Crypto) : Type 0 where
  pub reads_back : (b : List ℕ) → IsBytes b → c.fromhex (c.hex b) ≡ some b
  pub digits_only : (b : List ℕ) → IsBytes b → has_dollar (c.hex b) ≡ false
  pub derives_bytes : (p : String) (salt : List ℕ) → IsBytes salt → IsBytes (c.pbkdf2_hmac p salt)

split_dollar-whole : (s : String) → has_dollar s ≡ false → split_dollar s ≡ s ∷ []
split_dollar-whole String.[] h = refl
split_dollar-whole (String.◌∷◌ c s) h =
    rw (split_dollar-whole s (ground (arith, h))) (ground (arith, h))

split_dollar-join :
    (s t : String)
    → has_dollar s ≡ false
    → has_dollar t ≡ false
    → split_dollar (str_append s (str_append "$" t)) ≡ s ∷ t ∷ []
split_dollar-join String.[] t h k =
    rw (nil-append (str_append "$" t), cons-append "$" "" t, nil-append t, split_dollar-whole t k)
      refl
split_dollar-join (String.◌∷◌ c s) t h k =
    rw (cons-append c s (str_append "$" t), split_dollar-join s t (ground (arith, h)) k)
      (ground (arith, h))

same_bytes_refl : (xs : List ℕ) → same_bytes xs xs ≡ true
same_bytes_refl [] = refl
same_bytes_refl (x ∷ xs) = ground (arith, same_bytes_refl xs)

verify_stored :
    (c : Crypto) (salt : List ℕ) (stored given : String)
    → IsHex c
    → IsBytes salt
    → verify_password c given (hash_password c salt stored)
      ≡ some (same_bytes (c.pbkdf2_hmac given salt) (c.pbkdf2_hmac stored salt))
unfolding verify_password hash_password verify_parts
verify_stored c salt stored given k b =
    let key = k.derives_bytes stored salt b in
    rw
      (
        split_dollar-join (c.hex salt) (c.hex (c.pbkdf2_hmac stored salt)) (k.digits_only salt b)
            (k.digits_only (c.pbkdf2_hmac stored salt) key),
        verify_parts,
        k.reads_back salt b,
        k.reads_back (c.pbkdf2_hmac stored salt) key,
      )
      refl

-- For a salt of bytes: a password is accepted against the stored hash of another exactly if both give the same derived key
-- under the salt of the hash, and the right password is accepted; no exception is raised.
pub verify_password-hash_password :
    (c : Crypto) (salt : List ℕ) (stored given : String)
    → IsHex c
    → IsBytes salt
    → (verify_password c given (hash_password c salt stored)
        ≡ some (same_bytes (c.pbkdf2_hmac given salt) (c.pbkdf2_hmac stored salt)))
      × (verify_password c stored (hash_password c salt stored) ≡ some true)
verify_password-hash_password c salt stored given k b =
    (checks given, checks stored ∙ ap some (same_bytes_refl (c.pbkdf2_hmac stored salt)))
  where
    checks :
        (password : String)
        → verify_password c password (hash_password c salt stored)
          ≡ some (same_bytes (c.pbkdf2_hmac password salt) (c.pbkdf2_hmac stored salt))
    checks password = verify_stored c salt stored password k b
