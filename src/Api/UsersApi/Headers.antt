-- ===== src/Api/UsersApi/Headers.antt =====
-- The headers of the requests that change a user.
use enterprise_platform.Common.{
  String, Bool, true, false, Option, none, some, List, [], ◌∷◌, ◌≡◌, ◌≢◌, refl, ap, arith,
  if◌then◌else◌, ◌==◌, Bool-cases, inl, inr, is_some, eq_iff, trim, trim_idem,
}
use enterprise_platform.Api.Params.{HttpParams}
use enterprise_platform.Api.UsersApi.{
  MutationOptions, Mutation, create, rename, change_email, activate, deactivate, send,
  mutation_headers, idempotency_key_of, skip_if,
}

abbrev pub header_of : String → List (String × String) → Option String
header_of name [] = none
header_of name ((n, v) ∷ headers) = if n == name then some v else header_of name headers

send-headers :
    (http : HttpParams) (encode : String → String) (url : String) (m : Mutation)
    (options : MutationOptions) (generated : String)
    → (send http encode url m options generated).headers ≡ mutation_headers options generated
unfolding send
send-headers http encode url (create request) options generated = refl
send-headers http encode url (rename id request) options generated = refl
send-headers http encode url (change_email id request) options generated = refl
send-headers http encode url (activate id) options generated = refl
send-headers http encode url (deactivate id request) options generated = refl

key_chosen :
    (given : Option String) (generated : String)
    → generated ≢ ""
    → trim generated ≡ generated
    → (key : String) × (((elim given [
      | none ↦ generated
      | some k ↦ if trim k == "" then generated else trim k
    ])
          ≡ key)
        × ((key ≢ "") × (trim key ≡ key)))
key_chosen none generated n t = (generated, (refl, (n, t)))
key_chosen (some k) generated n t = elim (Bool-cases (trim k == "")) [
  | inl e ↦ (generated, (rw e refl, (n, t)))
  | inr e ↦ (trim k, (rw e refl, (λ q. ground (arith, e, q, eq_iff (trim k) ""), trim_idem k)))
]

skipped :
    (suppress : Bool) → is_some (header_of "X-Skip-Error-Handling" (skip_if suppress)) ≡ suppress
skipped true = refl
skipped false = refl

-- Every request that changes a user carries an idempotency key that is not empty and has no white
-- space at its ends, whether the caller gives none, a blank one or a good one, when the generated
-- key is such; it carries the header that keeps the global error handling quiet exactly when the
-- caller asks for it.
pub send-keyed :
    (http : HttpParams) (encode : String → String) (url : String) (m : Mutation)
    (options : MutationOptions) (generated : String)
    → generated ≢ ""
    → trim generated ≡ generated
    → ((key : String) × ((header_of "X-Idempotency-Key"
              (send http encode url m options generated).headers
            ≡ some key)
          × ((key ≢ "") × (trim key ≡ key))))
      × (is_some
            (header_of "X-Skip-Error-Handling" (send http encode url m options generated).headers)
          ≡ options.suppress_global_error)
unfolding mutation_headers idempotency_key_of
send-keyed http encode url m options generated n t =
    let chosen = key_chosen options.idempotency_key generated n t in
    rw (send-headers http encode url m options generated)
      ((chosen.0, (ap some chosen.1.0, chosen.1.1)), skipped options.suppress_global_error)
