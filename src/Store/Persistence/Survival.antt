-- ===== src/Store/Persistence/Survival.antt =====
-- What was saved last is there after a restart.
use text.Mathlib.TextLemmas.{append_cancel_left}
use enterprise_platform.Common.{
  String, Bool, true, false, Option, none, some, List, [], ◌∷◌, ◌≡◌, ◌≢◌, refl, ap, ◌∙◌, ◌==◌,
  Bool-cases, inl, inr, eq_iff, eq_refl, lookup, lookup-insert,
}
use enterprise_platform.Store.Persistence.{
  Slice, Persisted, Event, changed, saved, cleared, other_store, restarted, full_key, patched, save,
  hydrate, step, run,
}

module _ {T S : Type 0} (slice : Slice T S) where
  -- The storage lets no call of this store through, and another store has another key.
  abbrev pub IsForeign : Event T → Type 0
  IsForeign (changed t ok) = ok ≡ false
  IsForeign (saved ok) = ok ≡ false
  IsForeign (cleared ok) = ok ≡ false
  IsForeign (other_store key raw) = key ≢ slice.key
  IsForeign (restarted initial readable ok) = ok ≡ false

  abbrev pub AllForeign : List (Event T) → Type 0
  AllForeign [] = Unit
  AllForeign (e ∷ es) = IsForeign e × AllForeign es

  abbrev kept : Persisted T → Option String
  kept s = lookup (full_key slice.key) s.storage

  other_key : (key : String) → key ≢ slice.key → (full_key key == full_key slice.key) ≡ false
  other_key key h = elim (Bool-cases (full_key key == full_key slice.key)) [
    | inl e ↦ absurd (
        h (
          append_cancel_left "ep-store:" key slice.key
            ((eq_iff (full_key key) (full_key slice.key)).0 e)))
    | inr e ↦ e
  ]

  storage-patched : (o : Option S) (s : Persisted T) → (patched slice o s).storage ≡ s.storage
  storage-patched none s = refl
  storage-patched (some snapshot) s = refl

  storage-hydrate :
      (readable : Bool) (s : Persisted T) → (hydrate slice readable s).storage ≡ s.storage
  unfolding hydrate
  storage-hydrate false s = refl
  storage-hydrate true s =
      elim (lookup (full_key slice.key) s.storage)
        as (λ o.
          (elim o as (λ _. Persisted T) [
            | none ↦ s
            | some raw ↦ patched slice (slice.parse raw) s
          ]).storage
          ≡ s.storage) [ none ↦ refl | some raw ↦ storage-patched (slice.parse raw) s ]

  step-kept : (e : Event T) (s : Persisted T) → IsForeign e → kept (step slice e s) ≡ kept s
  unfolding step save
  step-kept (changed t true) s h = cc
  step-kept (changed t false) s h = refl
  step-kept (saved true) s h = cc
  step-kept (saved false) s h = refl
  step-kept (cleared true) s h = cc
  step-kept (cleared false) s h = refl
  step-kept (other_store key raw) s h =
      lookup-insert (full_key key) (full_key slice.key) raw s.storage ∙ rw (other_key key h) refl
  step-kept (restarted initial readable true) s h = cc
  step-kept (restarted initial readable false) s h =
      ap (lookup (full_key slice.key)) (storage-hydrate readable (record s { memory = initial }))

  run-kept :
      (es : List (Event T)) (s : Persisted T) → AllForeign es → kept (run slice es s) ≡ kept s
  unfolding run
  run-kept [] s h = refl
  run-kept (e ∷ es) s (first, h) = run-kept es (step slice e s) h ∙ step-kept e s first

  memory-save : (ok : Bool) (s : Persisted T) → (save slice ok s).memory ≡ s.memory
  unfolding save
  memory-save true s = refl
  memory-save false s = refl

  saved_text :
      (t : T) (s : Persisted T)
      → kept (step slice (changed t true) s) ≡ some (slice.stringify (slice.pick t))
  unfolding step save
  saved_text t s =
      lookup-insert (full_key slice.key) (full_key slice.key) (slice.stringify (slice.pick t))
        s.storage
      ∙ rw (eq_refl (full_key slice.key)) refl

  -- A change that the storage took is there after a restart: whatever other stores write in
  -- between, and whatever this store tries without the storage letting it through, restarts
  -- included, the store that starts again and can read its storage has its initial state with the
  -- part that was kept of the changed state put back. The JSON text of that part reads back as the
  -- same part, and the other stores have other keys.
  pub restart_restores :
      (t initial : T) (es : List (Event T)) (s : Persisted T) (ok : Bool)
      → slice.parse (slice.stringify (slice.pick t)) ≡ some (slice.pick t)
      → AllForeign es
      → (step slice
          (restarted initial true ok)
          (run slice es (step slice (changed t true) s))).memory
        ≡ slice.patch initial (slice.pick t)
  unfolding step hydrate
  restart_restores t initial es s ok parses foreign =
      let later = run slice es (step slice (changed t true) s) in
      let there : kept later ≡ some (slice.stringify (slice.pick t)) =
        run-kept es (step slice (changed t true) s) foreign ∙ saved_text t s in
      memory-save ok (hydrate slice true (record later { memory = initial }))
      ∙ ap
          (λ o.
            (elim o as (λ _. Persisted T) [
              | none ↦ record later { memory = initial }
              | some raw ↦ patched slice (slice.parse raw) (record later { memory = initial })
            ]).memory)
          there
      ∙ ap (λ o. (patched slice o (record later { memory = initial })).memory) parses
