-- ===== src/Auth/ReturnUrl.antt =====
-- core/auth/auth.service.ts: the URLs to which `login` and `logout` navigate, and the check of the
-- return URL in them.
use Prim.Native.Char.{code}
use enterprise_platform.Common.{
  ℕ, String, Bool, true, false, not, ◌&&◌, ◌||◌, Option, none, some, List, [], ◌∷◌, ◌++◌,
  if◌then◌else◌, nat_eq, ◌==◌, ◌≡◌, ap, ◌∙◌, eq_iff, ◌≢◌, ◌↔◌, ◌⊎◌, inl, inr, refl, arith,
  Bool-cases,
}
use enterprise_platform.Common.{◌⊕◌}
use enterprise_platform.Http.Keys.{join_amp}

-- `url.startsWith('/')`
unfoldable pub starts_with_slash : String → Bool
starts_with_slash String.[] = false
starts_with_slash (String.◌∷◌ c s) = nat_eq (code c) b'/'

-- `url.startsWith('//')`
unfoldable pub starts_with_slashes : String → Bool
unfolding starts_with_slash
starts_with_slashes String.[] = false
starts_with_slashes (String.◌∷◌ c s) = nat_eq (code c) b'/' && starts_with_slash s

-- `url.includes('\\')`
unfoldable pub has_backslash : String → Bool
has_backslash String.[] = false
has_backslash (String.◌∷◌ c s) = nat_eq (code c) 92 || has_backslash s

-- The condition on the return URL.
unfoldable pub url_passes : String → Bool
unfolding starts_with_slash starts_with_slashes has_backslash
url_passes url = starts_with_slash url && (not (starts_with_slashes url) && not (has_backslash url))

unfoldable pub safe_return_url : String → String
unfolding url_passes
safe_return_url url = if url_passes url then url else "/"

pub data Prompt : Type 0 where
  select_account login : Prompt

abbrev prompt_text : Prompt → String
prompt_text select_account = "select_account"
prompt_text Prompt.login = "login"

-- `if (returnUrl) { ... }`: the empty text is falsy. `encode` stands for `encodeURIComponent`.
unfoldable pub return_param : (String → String) → Option String → List String
unfolding safe_return_url
return_param encode none = []
return_param encode (some url) =
    if url == "" then [] else ("returnUrl=" ⊕ encode (safe_return_url url)) ∷ []

unfoldable pub prompt_param : (String → String) → Option Prompt → List String
prompt_param encode none = []
prompt_param encode (some p) = ("prompt=" ⊕ encode (prompt_text p)) ∷ []

-- `params.length === 0 ? path : path + '?' + params.join('&')`
abbrev pub with_params : String → List String → String
with_params path [] = path
with_params path (p ∷ ps) = path ⊕ "?" ⊕ join_amp (p ∷ ps)

unfoldable pub build_auth_url : (String → String) → String → Option String → Option Prompt → String
unfolding return_param prompt_param join_amp
build_auth_url encode path return_url prompt =
    with_params path (return_param encode return_url ++ prompt_param encode prompt)

-- The text holds the character code.
abbrev pub Holds : ℕ → String → Type 0
Holds n String.[] = ⊥
Holds n (String.◌∷◌ c s) = (code c ≡ n) ⊎ Holds n s

-- A path of this site: a slash, not followed by another one, and no backslash.
abbrev pub IsLocal : String → Type 0
IsLocal String.[] = ⊥
IsLocal (String.◌∷◌ c String.[]) = code c ≡ b'/'
IsLocal (String.◌∷◌ c (String.◌∷◌ d s)) =
    (code c ≡ b'/') × (code d ≢ b'/') × ((code d ≢ 92) × (¬ Holds 92 s))

has_backslash-Holds : (s : String) → (has_backslash s ≡ true) ↔ Holds 92 s
unfolding has_backslash
has_backslash-Holds String.[] = ground arith
has_backslash-Holds (String.◌∷◌ c s) = ground (arith, has_backslash-Holds s)

url_passes-IsLocal : (url : String) → (url_passes url ≡ true) ↔ IsLocal url
unfolding url_passes starts_with_slash starts_with_slashes has_backslash
url_passes-IsLocal String.[] = ground arith
url_passes-IsLocal (String.◌∷◌ c String.[]) = ground arith
url_passes-IsLocal (String.◌∷◌ c (String.◌∷◌ d s)) = ground (arith, has_backslash-Holds s)

safe_passed : (url : String) → url_passes url ≡ true → safe_return_url url ≡ url
unfolding safe_return_url
safe_passed url good = rw good refl

safe_refused : (url : String) → url_passes url ≡ false → safe_return_url url ≡ "/"
unfolding safe_return_url
safe_refused url bad = rw bad refl

return_param_given :
    (encode : String → String) (url : String)
    → url ≢ ""
    → return_param encode (some url) ≡ ("returnUrl=" ⊕ encode (safe_return_url url)) ∷ []
unfolding return_param
return_param_given encode url given = ground (arith, eq_iff url "")

build_auth_url_given :
    (encode : String → String) (path url : String) (prompt : Option Prompt)
    → url ≢ ""
    → build_auth_url encode path (some url) prompt
      ≡ with_params path
          (("returnUrl=" ⊕ encode (safe_return_url url)) ∷ prompt_param encode prompt)
unfolding build_auth_url
build_auth_url_given encode path url prompt given =
    ap (λ ps. with_params path (ps ++ prompt_param encode prompt))
      (return_param_given encode url given)

-- The URL of a sign-in or sign-out with a return URL carries, encoded and in front of the prompt, a
-- path of this site, whatever text was given: the given text exactly if it is such a path, and `/`
-- otherwise.
pub build_auth_url-IsLocal :
    (encode : String → String) (path url : String) (prompt : Option Prompt)
    → url ≢ ""
    → (target : String) × (build_auth_url encode path (some url) prompt
        ≡ with_params path (("returnUrl=" ⊕ encode target) ∷ prompt_param encode prompt))
      × IsLocal target
      × ((target ≡ url) ⊎ ((target ≡ "/") × (¬ IsLocal url)))
build_auth_url-IsLocal encode path url prompt given =
    let built = build_auth_url_given encode path url prompt given in
    let carries =
      λ (t : String). with_params path (("returnUrl=" ⊕ encode t) ∷ prompt_param encode prompt) in
    elim (Bool-cases (url_passes url)) [
      | inl good ↦ (
        url,
        built ∙ ap carries (safe_passed url good),
        (url_passes-IsLocal url).0 good,
        inl refl,
      )
      | inr bad ↦ (
        "/",
        built ∙ ap carries (safe_refused url bad),
        refl,
        inr (refl, λ local. ground (arith, (url_passes-IsLocal url).1 local)),
      )
    ]
