-- ===== src/Base/Texts.antt =====
-- Texts as the source reads them: their length in UTF-16 units, and the comparison of two texts in
-- lower case. The lower case is that of ASCII, as for the colours that the schemas let through.
use Prim.Native.Char.{code}
use Prim.Native.Nat.{ℕ, ◌+◌}
use Prim.Native.String.{String}
use mathlib.Core.Path.{◌≡◌, refl}
use mathlib.Core.Bool.{Bool, true, false, ◌&&◌}
use personalisation_kings.Base.Tests.{ltb, leb, ◌==◌, ==_refl, if◌then◌else◌}

-- The length of a text in UTF-16 units, `text.length`.
unfoldable pub utf16_length : String → ℕ
utf16_length String.[] = 0
utf16_length (String.◌∷◌ c s) = (if ltb (code c) 0x10000 then 1 else 2) + utf16_length s

abbrev pub lower_case : ℕ → ℕ
lower_case c = if leb b'A' c && leb c b'Z' then c + 32 else c

-- `a.toLowerCase() === b.toLowerCase()`
unfoldable pub eq_ignoring_case : String → String → Bool
eq_ignoring_case String.[] String.[] = true
eq_ignoring_case (String.◌∷◌ c s) (String.◌∷◌ d t) =
    lower_case (code c) == lower_case (code d) && eq_ignoring_case s t
eq_ignoring_case _ _ = false

pub eq_ignoring_case_refl : (s : String) → eq_ignoring_case s s ≡ true
unfolding eq_ignoring_case
eq_ignoring_case_refl String.[] = refl
eq_ignoring_case_refl (String.◌∷◌ c s) =
    rw (==_refl (lower_case (code c))) (eq_ignoring_case_refl s)
