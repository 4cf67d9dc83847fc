-- ===== src/Common/Codes.antt =====
-- The code points of a text literal, for the examples: its UTF-16 code units where it has no unit
-- above 0xffff.
use Prim.Native.Char.{code}
use Prim.Native.String.{String}
use elepha.Common.{ℕ, List, [], ◌∷◌}

abbrev pub codes : String → List ℕ
codes String.[] = []
codes (String.◌∷◌ c s) = code c ∷ codes s
