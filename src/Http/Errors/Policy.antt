-- ===== src/Http/Errors/Policy.antt =====
-- The table of toasts and redirects by status code.
use enterprise_platform.Common.{
  ◌+◌, ℕ, ◌≤◌, ◌<◌, String, Bool, true, false, some, List, [], ◌∷◌, ◌≡◌, ◌≢◌, ◌⊎◌, arith,
}
use enterprise_platform.Models.{ApiError}
use enterprise_platform.Http.Errors.{
  HttpErrorResponse, Effect, toast, navigate, normalize, side_effects, catch_error,
}

abbrev pub toasts : List Effect → ℕ
toasts [] = 0
toasts (toast _ _ _ ∷ es) = 1 + toasts es
toasts (navigate _ _ ∷ es) = toasts es

abbrev pub navigations : List Effect → ℕ
navigations [] = 0
navigations (toast _ _ _ ∷ es) = navigations es
navigations (navigate _ _ ∷ es) = 1 + navigations es

-- The statuses that show a toast.
abbrev pub IsLoud : ℕ → Type 0
IsLoud status =
    (status ≡ 0)
    ⊎ (status ≡ 500)
    ⊎ (status ≡ 502)
    ⊎ (status ≡ 503)
    ⊎ (status ≡ 504)
    ⊎ ((400 ≤ status) × (status < 500) × (status ≢ 404) × (status ≢ 422))

module _ (title : ℕ → String) (url : String) where
  -- A failure shows one toast if its status is 0, 500, 502, 503, 504 or a 4xx other than 404 and
  -- 422, and none otherwise; it navigates once if the status is 401 or 403, and else not at all.
  pub side_effects_counts :
      (err : ApiError)
      → (IsLoud err.status_code → toasts (side_effects title url err) ≡ 1)
        × (¬ IsLoud err.status_code → side_effects title url err ≡ [])
        × ((err.status_code ≡ 401) ⊎ (err.status_code ≡ 403)
            → navigations (side_effects title url err) ≡ 1)
        × ((err.status_code ≢ 401) × (err.status_code ≢ 403)
            → navigations (side_effects title url err) ≡ 0)
  unfolding side_effects
  side_effects_counts err = ground arith

  -- Every failure is thrown on as an `ApiError` with the response's status, also when the request
  -- asked to skip the handling, which takes away the toasts and redirects only; its code is
  -- `EP.Network` when no response came.
  pub catch_error_lem :
      (now : String) (skip : Bool) (err : HttpErrorResponse)
      → ((catch_error title url now skip err).0 ≡ normalize now err)
        × ((catch_error title url now skip err).0.status_code ≡ err.status)
        × (err.status ≡ 0 → (catch_error title url now skip err).0.code ≡ some "EP.Network")
        × (skip ≡ true → (catch_error title url now skip err).1 ≡ [])
        × (skip ≡ false
            → (catch_error title url now skip err).1 ≡ side_effects title url (normalize now err))
  unfolding catch_error
  catch_error_lem now skip err = ground arith
