-- ===== src/Tests/ServerErrors.antt =====
-- A form of one group with an array in it.
use enterprise_platform.Common.{
  if◌then◌else◌, Dict, lookup, ℕ, zero, suc, String, ◌≡◌, refl, Option, none, some, List, [], ◌∷◌,
  ◌==◌,
}
use enterprise_platform.Forms.ServerErrors.{ErrorEntry, apply}
use enterprise_platform.Forms.ServerErrors.Applied.{or_later, last_for, hitting, missing, apply_lem}

abbrev child : ℕ → String → Option ℕ
child zero name = if name == "email" then some 1 else if name == "roles" then some 2 else none
child (suc zero) name = none
child (suc (suc n)) name = if name == "0" then some 3 else none

abbrev no_errors : ℕ → Dict ErrorEntry
no_errors j = []

abbrev answer : Dict (List String)
answer = ("roles[0]", "Unknown" ∷ "Old" ∷ []) ∷ ("phone", "Bad" ∷ []) ∷ []

apply_lem_example :
    ((apply child 0 (some answer) no_errors []).result
      ≡ record { matched = hitting child 0 answer; unmatched = missing child 0 answer })
    × ((lookup "server" ((apply child 0 (some answer) no_errors []).errors_at 3)
          ≡ or_later (last_for child 0 3 answer) (lookup "server" (no_errors 3)))
        × (lookup "required" ((apply child 0 (some answer) no_errors []).errors_at 3)
            ≡ lookup "required" (no_errors 3)))
apply_lem_example = apply_lem child 0 answer no_errors [] 3 "required" refl
