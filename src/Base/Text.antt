-- ===== src/Base/Text.antt =====
-- The string literals of the code.
use Prim.Native.Char.{code}
use Prim.Native.String.{String}
use mathlib.Core.List.{[], ◌∷◌}
use esp_mqtt.Base.Words.{Bytes}

-- The characters of a literal, which are all ASCII.
abbrev pub codes : String → Bytes
codes String.[] = []
codes (String.◌∷◌ c s) = code c ∷ codes s
