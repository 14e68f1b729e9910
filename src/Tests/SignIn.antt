-- ===== src/Tests/SignIn.antt =====
-- A concrete sign-in.
use enterprise_platform.Common.{String, ◌≡◌, ◌⊎◌, some, ◌∷◌}
use enterprise_platform.Common.{◌⊕◌}
use enterprise_platform.Auth.ReturnUrl.{
  select_account, prompt_param, with_params, build_auth_url, IsLocal, build_auth_url-IsLocal,
}

abbrev as_is : String → String
as_is s = s

build_auth_url-IsLocal_example :
    (target : String) × (build_auth_url as_is "/api/auth/login"
        (some "//evil.example")
        (some select_account)
      ≡ with_params "/api/auth/login"
          (("returnUrl=" ⊕ as_is target) ∷ prompt_param as_is (some select_account)))
    × IsLocal target
    × ((target ≡ "//evil.example") ⊎ ((target ≡ "/") × (¬ IsLocal "//evil.example")))
build_auth_url-IsLocal_example =
    build_auth_url-IsLocal as_is "/api/auth/login" "//evil.example" (some select_account) (λ e. cc)
