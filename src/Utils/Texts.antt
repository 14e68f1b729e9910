-- ===== src/Utils/Texts.antt =====
-- app/shared/utils/string.utils.ts: `truncate` and `maskString`. A text is a list of characters; the
-- source counts UTF-16 code units, which is the same below U+10000.
pub mod Bounds
use Prim.Native.Char.{Char}
use Prim.Native.String
use enterprise_platform.Common.{
  ℕ, zero, suc, ◌+◌, ◌-◌, ◌≤◌, String, Bool, true, false, if◌then◌else◌, leb, nat_eq, ◌⊕◌, ◌≡◌,
  refl,
}

-- `s.length`
unfoldable pub text_length : String → ℕ
text_length String.[] = 0
text_length (String.◌∷◌ c s) = suc (text_length s)

-- `s.slice(0, n)`
unfoldable pub first_part : ℕ → String → String
first_part zero s = ""
first_part (suc n) String.[] = ""
first_part (suc n) (String.◌∷◌ c s) = String.◌∷◌ c (first_part n s)

-- `s.slice(n)`
unfoldable pub last_part : ℕ → String → String
last_part zero s = s
last_part (suc n) String.[] = ""
last_part (suc n) (String.◌∷◌ c s) = last_part n s

unfoldable pub truncate : String → ℕ → String → String
unfolding text_length first_part
truncate s max_length ellipsis =
    if leb (text_length s) max_length
    then s
    else if leb max_length (text_length ellipsis)
    then first_part max_length ellipsis
    else first_part (max_length - text_length ellipsis) s ⊕ ellipsis

-- `maskChar.repeat(n)`
unfoldable pub repeat : ℕ → String → String
repeat zero mask = ""
repeat (suc n) mask = mask ⊕ repeat n mask

-- `str.slice(-n)`: the last n characters, and the whole text for -0.
unfoldable pub slice_from_end : ℕ → String → String
unfolding text_length last_part
slice_from_end n s = if nat_eq n 0 then s else last_part (text_length s - n) s

unfoldable pub mask_string : String → ℕ → String → String
unfolding text_length repeat slice_from_end
mask_string s visible_end mask =
    if leb (text_length s) visible_end
    then s
    else repeat (text_length s - visible_end) mask ⊕ slice_from_end visible_end s

shortened : truncate "hello" 4 "…" ≡ "hel…"
unfolding truncate
shortened = refl

nothing_hidden : mask_string "4242" 0 "*" ≡ "****4242"
unfolding mask_string
nothing_hidden = refl
