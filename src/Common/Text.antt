-- ===== src/Common/Text.antt =====
-- Texts as byte strings.
use Prim.Native.Char.{code}
use Prim.Native.String.{String}
use drand_rs.Common.{Bytes, [], ◌∷◌}

-- The ASCII codes of a text.
abbrev pub text : String → Bytes
text String.[] = []
text (String.◌∷◌ c s) = code c ∷ text s
