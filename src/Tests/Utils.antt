-- ===== src/Tests/Utils.antt =====
-- Texts shortened and masked.
use enterprise_platform.Common.{◌⊕◌, ◌-◌, ◌<◌, ◌≡◌, refl}
use enterprise_platform.Utils.Texts.{text_length, repeat, mask_string}
use enterprise_platform.Utils.Texts.Bounds.{mask_string_lem}

mask_string_lem_example :
    (0 < 4 → text_length (mask_string "42424242" 4 "*") ≡ text_length "42424242")
    × (0 < text_length "42424242"
        → mask_string "42424242" 0 "*" ≡ repeat (text_length "42424242" - 0) "*" ⊕ "42424242")
unfolding text_length
mask_string_lem_example = mask_string_lem "42424242" "*" 4 refl
