-- ===== src/Base/Text.antt =====
-- Python's `lower` and `isupper` on the letters A to Z, `rfind` of some characters, and `replace`.
use Prim.Native.Nat.{ℕ, zero, suc}
use text.Mathlib.Text.{◌==◌ as str_eq}
use Prim.Native.Char.{Char, code}
use Prim.Native.String.{String, ◌++◌ as str_append}
use mathlib.Core.Bool.{Bool, true, false, ◌&&◌, ◌||◌}
use timberdoodle.Base.Tests.{◌==◌, leb, if◌then◌else◌}

-- The character of the second text at the place where the first has `c`.
unfoldable pub translated : String → String → Char → Char
translated String.[] ys c = c
translated (String.◌∷◌ x xs) String.[] c = c
translated (String.◌∷◌ x xs) (String.◌∷◌ y ys) c =
    let rest = translated xs ys c in if code x == code c then y else rest

unfoldable pub lower : String → String
unfolding translated
lower String.[] = String.[]
lower (String.◌∷◌ c s) =
    String.◌∷◌ (translated "ABCDEFGHIJKLMNOPQRSTUVWXYZ" "abcdefghijklmnopqrstuvwxyz" c) (lower s)

abbrev pub is_upper : Char → Bool
is_upper c = leb b'A' (code c) && leb (code c) b'Z'

-- `any(p(ch) for ch in s)`
abbrev pub any_char : (Char → Bool) → String → Bool
any_char p String.[] = false
any_char p (String.◌∷◌ c s) = p c || any_char p s

-- What follows the last character that passes the test, or the whole text.
abbrev pub after_last : (Char → Bool) → String → String
after_last p String.[] = String.[]
after_last p (String.◌∷◌ c s) =
    let whole = String.◌∷◌ c s in
    let rest = after_last p s in if any_char p s then rest else if p c then s else whole

-- Each character that the function names is replaced by a text.
unfoldable pub replaced : (Char → String) → String → String
replaced f String.[] = String.[]
replaced f (String.◌∷◌ c s) = str_append (f c) (replaced f s)

abbrev pub is_blank : Char → Bool
is_blank c = (leb 9 (code c) && leb (code c) 13) || (leb 28 (code c) && leb (code c) 32)

abbrev pub all_chars : (Char → Bool) → String → Bool
all_chars p String.[] = true
all_chars p (String.◌∷◌ c s) = p c && all_chars p s

-- `lstrip`, `rstrip` and `strip`, of ASCII blanks
unfoldable pub strip_left : String → String
strip_left String.[] = String.[]
strip_left (String.◌∷◌ c s) = let rest = strip_left s in if is_blank c then rest else String.◌∷◌ c s

unfoldable pub strip_right : String → String
strip_right String.[] = String.[]
strip_right (String.◌∷◌ c s) =
    let rest = String.◌∷◌ c (strip_right s) in
    if is_blank c && all_chars is_blank s then String.[] else rest

unfoldable pub strip : String → String
unfolding strip_left strip_right
strip s = strip_right (strip_left s)

-- The text before a suffix that it has, or the text.
unfoldable pub before_suffix : String → String → String
before_suffix p String.[] = String.[]
before_suffix p (String.◌∷◌ c s) =
    let rest = String.◌∷◌ c (before_suffix p s) in
    if str_eq (String.◌∷◌ c s) p then String.[] else rest

-- `s.endswith(p)`, for a `p` that is not empty
unfoldable pub ends_with : String → String → Bool
ends_with String.[] p = false
ends_with (String.◌∷◌ c s) p = str_eq (String.◌∷◌ c s) p || ends_with s p

-- `s[n:]`
abbrev pub drop_chars : ℕ → String → String
drop_chars zero s = s
drop_chars (suc n) String.[] = String.[]
drop_chars (suc n) (String.◌∷◌ c s) = drop_chars n s
