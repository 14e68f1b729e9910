-- ===== src/Common/Texts.antt =====
-- `toLowerCase` and `toUpperCase` on texts of ASCII letters; every other character is left as it is.
use Prim.Native.Nat.{ℕ, zero, suc, ◌-◌}
use Prim.Native.Char.{Char, code}
use Prim.Native.String.{String, [], ◌∷◌}
use mathlib.Core.Bool.{◌&&◌}
use enterprise_platform.Common.Tests.{leb, if◌then◌else◌}

-- The character at a place of a text, and `c` behind its end.
nth : ℕ → String → Char → Char
nth i [] c = c
nth zero (x ∷ s) c = x
nth (suc i) (x ∷ s) c = nth i s c

lower_char : Char → Char
unfolding nth
lower_char c =
    if leb b'A' (code c) && leb (code c) b'Z'
    then nth (code c - b'A') "abcdefghijklmnopqrstuvwxyz" c
    else c

unfoldable pub lower : String → String
unfolding lower_char
lower [] = []
lower (c ∷ s) = lower_char c ∷ lower s

upper_char : Char → Char
unfolding nth
upper_char c =
    if leb b'a' (code c) && leb (code c) b'z'
    then nth (code c - b'a') "ABCDEFGHIJKLMNOPQRSTUVWXYZ" c
    else c

unfoldable pub upper : String → String
unfolding upper_char
upper [] = []
upper (c ∷ s) = upper_char c ∷ upper s

-- `s.charAt(0).toUpperCase() + s.slice(1)`
unfoldable pub title_case : String → String
unfolding upper_char
title_case [] = []
title_case (c ∷ s) = upper_char c ∷ s
