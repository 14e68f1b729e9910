-- ===== src/Tests/Persistence.antt =====
-- A store that keeps one text, beside another store.
use enterprise_platform.Common.{String, ◌≡◌, refl, ◌≢◌, true, false, some, [], ◌∷◌, eq_iff}
use enterprise_platform.Store.Persistence.Survival.{restart_restores}
use enterprise_platform.Store.Persistence.{
  Slice, Persisted, changed, other_store, restarted, step, run,
}

abbrev roles_key : String
roles_key = "roles"

roles_differ : roles_key ≢ "users"
roles_differ e = let clash : false ≡ true = (eq_iff roles_key "users").1 e in cc

abbrev text_slice : Slice String String
text_slice = record {
  key = "users";
  pick = λ s. s;
  patch = λ s t. t;
  stringify = λ s. s;
  parse = λ s. some s;
}

abbrev started : Persisted String
started = record { memory = ""; storage = []; warnings = [] }

restart_restores_example :
    (step text_slice (restarted "" true true) (
      run text_slice
        (other_store roles_key "x" ∷ changed "light" false ∷ [])
        (step text_slice (changed "dark" true) started))).memory
    ≡ text_slice.patch "" (text_slice.pick "dark")
restart_restores_example =
    restart_restores text_slice "dark" "" (other_store roles_key "x" ∷ changed "light" false ∷ [])
      started true refl (roles_differ, (refl, tt))
