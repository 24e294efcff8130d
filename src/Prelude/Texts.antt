-- ===== src/Prelude/Texts.antt =====
-- Comparison of texts.
use text.Mathlib.Text
use text.Mathlib.TextEquality
use text.Mathlib.TextPositions
use Prim.Native.String.{String, ◌++◌}
use mathlib.Core.Path.{◌≡◌}
use mathlib.Core.Logic.{◌↔◌}
use mathlib.Core.Bool.{Bool, true}

abbrev pub str_eq : String → String → Bool
str_eq a b = Text.◌==◌ a b

pub str_eq_iff : (a b : String) → (str_eq a b ≡ true) ↔ (a ≡ b)
str_eq_iff a b = TextEquality.eq_iff a b

pub str_eq_refl : (a : String) → str_eq a a ≡ true
str_eq_refl a = TextPositions.eq_refl a

-- a + b on texts
abbrev pub concat : String → String → String
concat a b = a ++ b
