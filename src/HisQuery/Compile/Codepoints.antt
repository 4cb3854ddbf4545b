-- ===== src/HisQuery/Compile/Codepoints.antt =====
-- `_sparql_string` in a query, whose codepoint escapes are replaced before it is read.
use timberdoodle.Base.{String, Bool, false, ◌&&◌, ◌||◌, ◌==◌}
use Prim.Native.Char.{Char, code}

abbrev pub starts_u : String → Bool
starts_u String.[] = false
starts_u (String.◌∷◌ c s) = code c == b'u' || code c == b'U'

-- Somewhere a backslash stands before `u` or `U`.
abbrev pub has_codepoint : String → Bool
has_codepoint String.[] = false
has_codepoint (String.◌∷◌ c s) = ((code c == 92) && starts_u s) || has_codepoint s

abbrev first_is_u : String → String → Bool
first_is_u String.[] t = starts_u t
first_is_u (String.◌∷◌ c s) t = code c == b'u' || code c == b'U'
