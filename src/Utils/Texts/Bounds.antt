-- ===== src/Utils/Texts/Bounds.antt =====
-- The lengths of the texts that `truncate` and `maskString` give.
use text.Mathlib.TextLemmas.{nil-append, cons-append}
use enterprise_platform.Common.{
  ℕ, zero, suc, ◌+◌, ◌-◌, ◌≤◌, ◌<◌, String, ◌⊕◌, ◌≡◌, refl, ap, ◌∙◌, arith,
}
use enterprise_platform.Utils.Texts.{
  text_length, first_part, last_part, truncate, repeat, slice_from_end, mask_string,
}

text_length-append : (s t : String) → text_length (s ⊕ t) ≡ text_length s + text_length t
unfolding text_length
text_length-append String.[] t =
    let plus : text_length t ≡ 0 + text_length t = omega arith in
    ap text_length (nil-append t) ∙ plus
text_length-append (String.◌∷◌ c s) t =
    let ih : text_length (s ⊕ t) ≡ text_length s + text_length t = text_length-append s t in
    let plus : suc (text_length (s ⊕ t)) ≡ suc (text_length s) + text_length t =
      omega (arith, ih) in
    ap text_length (cons-append c s t) ∙ plus

text_length-first_part-le : (n : ℕ) (s : String) → text_length (first_part n s) ≤ n
unfolding text_length first_part
text_length-first_part-le zero s = omega arith
text_length-first_part-le (suc n) String.[] = omega arith
text_length-first_part-le (suc n) (String.◌∷◌ c s) = omega (arith, text_length-first_part-le n s)

text_length-last_part : (n : ℕ) (s : String) → text_length (last_part n s) ≡ text_length s - n
unfolding text_length last_part
text_length-last_part zero s = omega arith
text_length-last_part (suc n) String.[] = omega arith
text_length-last_part (suc n) (String.◌∷◌ c s) = omega (arith, text_length-last_part n s)

-- A truncated text, with its ellipsis, is never longer than the limit, however long the ellipsis
-- is, and a text that fits is left as it is.
pub truncate_fits :
    (s : String) (max_length : ℕ) (ellipsis : String)
    → (text_length (truncate s max_length ellipsis) ≤ max_length)
      × (text_length s ≤ max_length → truncate s max_length ellipsis ≡ s)
unfolding truncate
truncate_fits s max_length ellipsis = (
  ground (
    arith,
    text_length-first_part-le max_length ellipsis,
    text_length-first_part-le (max_length - text_length ellipsis) s,
    text_length-append (first_part (max_length - text_length ellipsis) s) ellipsis,
  ),
  λ h. ground (arith, h),
)

text_length-repeat :
    (n : ℕ) (mask : String) → text_length mask ≡ 1 → text_length (repeat n mask) ≡ n
unfolding text_length repeat
text_length-repeat zero mask h = refl
text_length-repeat (suc n) mask h =
    let ih : text_length (repeat n mask) ≡ n = text_length-repeat n mask h in
    let total : text_length mask + text_length (repeat n mask) ≡ suc n = omega (arith, h, ih) in
    text_length-append mask (repeat n mask) ∙ total

-- With a mask of one character and at least one character to show, a masked text is as long as the
-- text. With none to show the whole text stands behind the mask, since `slice(-0)` is all of it, so
-- that nothing is hidden.
pub mask_string_lem :
    (s mask : String) (visible_end : ℕ)
    → text_length mask ≡ 1
    → (0 < visible_end → text_length (mask_string s visible_end mask) ≡ text_length s)
      × (0 < text_length s → mask_string s 0 mask ≡ repeat (text_length s - 0) mask ⊕ s)
unfolding mask_string slice_from_end
mask_string_lem s mask visible_end h = (
  λ shown. ground (
    arith,
    shown,
    text_length-repeat (text_length s - visible_end) mask h,
    text_length-last_part (text_length s - visible_end) s,
    text_length-append (repeat (text_length s - visible_end) mask)
        (last_part (text_length s - visible_end) s),
  ),
  λ some_text. ground (arith, some_text),
)
