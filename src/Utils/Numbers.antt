-- ===== src/Utils/Numbers.antt =====
-- app/shared/utils/number.utils.ts and date.utils.ts: `clamp` and `formatCountdown`.
use enterprise_platform.Common.{
  ℕ, ◌+◌, ◌-◌, ◌*◌, ◌/◌, ◌%◌, ◌<◌, String, true, if◌then◌else◌, ltb, ℤ, lt_int, le_int, text_of_nat,
  ◌⊕◌, ◌≡◌, arith,
}

abbrev max_int : ℤ → ℤ → ℤ
max_int a b = if lt_int a b then b else a

abbrev min_int : ℤ → ℤ → ℤ
min_int a b = if lt_int b a then b else a

abbrev pub clamp : ℤ → ℤ → ℤ → ℤ
clamp value min max = if lt_int max min then min else min_int (max_int value min) max

-- The hours, minutes and seconds that are left at the time `now`.
abbrev pub hours_left : ℕ → ℕ → ℕ
hours_left target now = (target - now) / 3600000

abbrev pub minutes_left : ℕ → ℕ → ℕ
minutes_left target now = (target - now) % 3600000 / 60000

abbrev pub seconds_left : ℕ → ℕ → ℕ
seconds_left target now = (target - now) % 60000 / 1000

unfoldable pub format_countdown : ℕ → ℕ → String
unfolding text_of_nat
format_countdown target now =
    let hours = text_of_nat (hours_left target now) in
    let minutes = text_of_nat (minutes_left target now) in
    let seconds = text_of_nat (seconds_left target now) in
    if ltb 0 (hours_left target now)
    then hours ⊕ "h " ⊕ minutes ⊕ "m"
    else if ltb 0 (minutes_left target now)
    then minutes ⊕ "m " ⊕ seconds ⊕ "s"
    else seconds ⊕ "s"

-- The value that `clamp` gives lies between the bounds when these are in order.
pub clamp-bounds :
    (value min max : ℤ)
    → le_int min max ≡ true
    → (le_int min (clamp value min max) ≡ true) × (le_int (clamp value min max) max ≡ true)
clamp-bounds value min max h = (ground (arith, h), ground (arith, h))

-- The parts of a countdown are the whole seconds that are left, with fewer than 60 minutes and
-- fewer than 60 seconds.
pub countdown_parts :
    (target now : ℕ)
    → (hours_left target now * 3600 + minutes_left target now * 60 + seconds_left target now
        ≡ (target - now) / 1000)
      × ((minutes_left target now < 60) × (seconds_left target now < 60))
countdown_parts target now = (omega arith, (omega arith, omega arith))
