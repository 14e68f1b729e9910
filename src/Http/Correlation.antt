-- ===== src/Http/Correlation.antt =====
-- core/services/correlation-context.service.ts, as core/interceptors/correlation.interceptor.ts uses
-- it: a request pushes its id, and its end runs the disposer. The stack has its top at the head.
use enterprise_platform.Common.{
  ◌==◌, String, Bool, true, Option, none, some, List, [], ◌∷◌, ◌≡◌, ap, ◌∙◌, refl, arith,
}

pub record Context : Type 0 where
  pub current : Option String
  pub stack : List String

unfoldable pub active : Context → Option String
active c = c.current

unfoldable pub set_active : Option String → Context → Context
set_active id c = record c { current = id }

unfoldable pub push_active : String → Context → Context
push_active id c = elim c.current [
  | none ↦ record c { current = some id }
  | some old ↦ record { current = some id; stack = old ∷ c.stack }
]

-- The disposer that `pushActive` returns: `this.current = this.stack.pop() ?? null`.
unfoldable pub restore : Context → Context
restore c = elim c.stack [
  | [] ↦ record c { current = none }
  | id ∷ rest ↦ record { current = some id; stack = rest }
]

unfoldable pub clear_active : Context → Context
clear_active c = record { current = none; stack = [] }

-- The request's own `X-Correlation-ID`, or a new id; and whether the header is set, as it is where
-- the own one is missing or empty.
unfoldable pub stamp : Option String → String → String × Bool
stamp none fresh = (fresh, true)
stamp (some id) fresh = (id, id == "")

-- Requests that nest: each ends after the ones that it encloses, and before its successors start.
pub data Nesting : Type 0 where
  idle : Nesting
  enclose : String → Nesting → Nesting → Nesting

unfoldable pub run : Nesting → Context → Context
run idle c = c
run (enclose id inside rest) c = run rest (restore (run inside (push_active id c)))

-- With no id active nothing is stacked.
abbrev pub IsSound : Context → Type 0
IsSound c = c.current ≡ none → c.stack ≡ []

restore-push_fields :
    (id : String) (now : Option String) (st : List String)
    → (now ≡ none → st ≡ [])
    → restore (push_active id (record { current = now; stack = st }))
      ≡ record { current = now; stack = st }
unfolding push_active restore
restore-push_fields id none [] h = refl
restore-push_fields id none (x ∷ st) h = ground (arith, h refl)
restore-push_fields id (some old) st h = refl

restore-push_active : (id : String) (c : Context) → IsSound c → restore (push_active id c) ≡ c
restore-push_active id c h = restore-push_fields id c.current c.stack h

current-push_active : (id : String) (c : Context) → (push_active id c).current ≡ some id
unfolding push_active
current-push_active id c = ground arith

push_active-IsSound : (id : String) (c : Context) → IsSound (push_active id c)
push_active-IsSound id c e = ground (arith, current-push_active id c)

-- Requests that nest leave the active id and the stack as they found them, at any depth.
pub run-nested : (n : Nesting) (c : Context) → IsSound c → run n c ≡ c
unfolding run
run-nested idle c h = refl
run-nested (enclose id inside rest) c h =
    let within = run-nested inside (push_active id c) (push_active-IsSound id c) in
    let back = ap restore within ∙ restore-push_active id c h in
    ap (run rest) back ∙ run-nested rest c h

-- Requests that overlap without nesting do not: from a context with no active id, when the first of
-- two has ended and the second is still open, the active id is that of the request that has ended.
-- After both have ended none is active.
pub overlapping_restores :
    (a b : String) (c : Context)
    → c.current ≡ none
    → c.stack ≡ []
    → let both = push_active b (push_active a c) in
      (active both ≡ some b) × (active (restore both) ≡ some a) × (restore (restore both) ≡ c)
unfolding active push_active restore
overlapping_restores a b c h e = ground arith
