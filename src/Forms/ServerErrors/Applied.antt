-- ===== src/Forms/ServerErrors/Applied.antt =====
-- What the controls and the caller have after the errors are applied.
use enterprise_platform.Common.{
  ℕ, String, Bool, true, false, not, Option, none, some, List, [], ◌∷◌, ◌++◌, ◌≡◌, refl, ap, sym,
  ◌∙◌, append-nil, append_assoc, if◌then◌else◌, ◌==◌, Bool-cases, inl, inr, nat_eq, Dict, lookup,
  lookup-insert,
}
use enterprise_platform.Forms.ServerErrors.{
  ErrorEntry, server, MapResult, Mapped, resolve, apply_entry, apply_all, apply,
}

-- An entry counts for a control that its path leads to, when it has a message.
abbrev pub hit : Option ℕ → List String → Option (ℕ × (String × List String))
hit none messages = none
hit (some control) [] = none
hit (some control) (first ∷ rest) = some (control, (first, rest))

abbrev pub or_later : Option ErrorEntry → Option ErrorEntry → Option ErrorEntry
or_later none earlier = earlier
or_later (some e) earlier = some e

abbrev entry_for : ℕ → Option (ℕ × (String × List String)) → Option ErrorEntry
entry_for control none = none
entry_for control (some (c, (first, rest))) =
    if nat_eq c control then some (server first (first ∷ rest)) else none

abbrev listed_if : Bool → String → List String
listed_if true path = path ∷ []
listed_if false path = []

abbrev is_hit : Option (ℕ × (String × List String)) → Bool
is_hit none = false
is_hit (some h) = true

module _ (get : ℕ → String → Option ℕ) (root : ℕ) where
  -- The last entry that counts for the control.
  abbrev pub last_for : ℕ → Dict (List String) → Option ErrorEntry
  last_for control [] = none
  last_for control ((path, messages) ∷ errors) =
      or_later (last_for control errors) (entry_for control (hit (resolve get root path) messages))

  -- The paths that count for a control, in order, and the others.
  abbrev pub hitting : Dict (List String) → List String
  hitting [] = []
  hitting ((path, messages) ∷ errors) =
      listed_if (is_hit (hit (resolve get root path) messages)) path ++ hitting errors

  abbrev pub missing : Dict (List String) → List String
  missing [] = []
  missing ((path, messages) ∷ errors) =
      listed_if (not (is_hit (hit (resolve get root path) messages))) path ++ missing errors

  entry_errors :
      (o : Option ℕ) (path : String) (messages : List String) (s : Mapped) (control : ℕ)
      → (lookup "server" ((apply_entry get o path messages s).errors_at control)
          ≡ or_later (entry_for control (hit o messages)) (lookup "server" (s.errors_at control)))
        × ((key : String)
            → ("server" == key) ≡ false
            → lookup key ((apply_entry get o path messages s).errors_at control)
              ≡ lookup key (s.errors_at control))
  unfolding apply_entry
  entry_errors none path messages s control = (refl, λ key h. refl)
  entry_errors (some c) path [] s control = (refl, λ key h. refl)
  entry_errors (some c) path (first ∷ rest) s control = elim (Bool-cases (nat_eq c control)) [
    | inl e ↦ rw e (
      lookup-insert "server" "server" (server first (first ∷ rest)) (s.errors_at control),
      λ key h.
          lookup-insert "server" key (server first (first ∷ rest)) (s.errors_at control)
          ∙ rw h refl,
    )
    | inr e ↦ rw e (refl, λ key h. refl)
  ]

  entry_result :
      (o : Option ℕ) (path : String) (messages : List String) (s : Mapped)
      → ((apply_entry get o path messages s).result.matched
          ≡ s.result.matched ++ listed_if (is_hit (hit o messages)) path)
        × ((apply_entry get o path messages s).result.unmatched
            ≡ s.result.unmatched ++ listed_if (not (is_hit (hit o messages))) path)
  unfolding apply_entry
  entry_result none path messages s = (sym (append-nil s.result.matched), refl)
  entry_result (some c) path [] s = (sym (append-nil s.result.matched), refl)
  entry_result (some c) path (first ∷ rest) s = (refl, sym (append-nil s.result.unmatched))

  or_later_assoc :
      (a b c : Option ErrorEntry) → or_later a (or_later b c) ≡ or_later (or_later a b) c
  or_later_assoc none b c = refl
  or_later_assoc (some e) b c = refl

  all_errors :
      (errors : Dict (List String)) (s : Mapped) (control : ℕ)
      → (lookup "server" ((apply_all get root errors s).errors_at control)
          ≡ or_later (last_for control errors) (lookup "server" (s.errors_at control)))
        × ((key : String)
            → ("server" == key) ≡ false
            → lookup key ((apply_all get root errors s).errors_at control)
              ≡ lookup key (s.errors_at control))
  unfolding apply_all
  all_errors [] s control = (refl, λ key h. refl)
  all_errors ((path, messages) ∷ errors) s control =
      let o = resolve get root path in
      let one = entry_errors o path messages s control in
      let rest = all_errors errors (apply_entry get o path messages s) control in
      (
        rest.0
            ∙ ap (or_later (last_for control errors)) one.0
            ∙ or_later_assoc (last_for control errors) (entry_for control (hit o messages))
                (lookup "server" (s.errors_at control)),
        λ key h. rest.1 key h ∙ one.1 key h,
      )

  all_result :
      (errors : Dict (List String)) (s : Mapped)
      → ((apply_all get root errors s).result.matched ≡ s.result.matched ++ hitting errors)
        × ((apply_all get root errors s).result.unmatched ≡ s.result.unmatched ++ missing errors)
  unfolding apply_all
  all_result [] s = (sym (append-nil s.result.matched), sym (append-nil s.result.unmatched))
  all_result ((path, messages) ∷ errors) s =
      let o = resolve get root path in
      let one = entry_result o path messages s in
      let rest = all_result errors (apply_entry get o path messages s) in
      (
        rest.0
            ∙ ap (λ ps. ps ++ hitting errors) one.0
            ∙ append_assoc s.result.matched (listed_if (is_hit (hit o messages)) path)
                (hitting errors),
        rest.1
            ∙ ap (λ ps. ps ++ missing errors) one.1
            ∙ append_assoc s.result.unmatched (listed_if (not (is_hit (hit o messages))) path)
                (missing errors),
      )

  -- Applying the errors of a response tells the caller the paths in the order of the response:
  -- matched are those that lead to a control and have a message, unmatched are the others. A
  -- control then has as its server error the messages of the last path that leads to it, or, when
  -- none does, what it had; its other errors stay.
  pub apply_lem :
      (errors : Dict (List String)) (errors_at : ℕ → Dict ErrorEntry) (subscriptions : List ℕ)
      (control : ℕ) (key : String)
      → ("server" == key) ≡ false
      → ((apply get root (some errors) errors_at subscriptions).result
          ≡ record { matched = hitting errors; unmatched = missing errors })
        × ((lookup "server"
                ((apply get root (some errors) errors_at subscriptions).errors_at control)
              ≡ or_later (last_for control errors) (lookup "server" (errors_at control)))
            × (lookup key ((apply get root (some errors) errors_at subscriptions).errors_at control)
                ≡ lookup key (errors_at control)))
  unfolding apply
  apply_lem errors errors_at subscriptions control key h =
      let start : Mapped = record {
        errors_at = errors_at;
        subscriptions = subscriptions;
        result = record { matched = []; unmatched = [] };
      } in
      let told = all_result errors start in
      let set = all_errors errors start control in
      let paths : List String → List String → MapResult =
        λ m u. record { matched = m; unmatched = u } in
      (
        ap (λ m. paths m (apply_all get root errors start).result.unmatched) told.0
            ∙ ap (paths (hitting errors)) told.1,
        (set.0, set.1 key h),
      )
