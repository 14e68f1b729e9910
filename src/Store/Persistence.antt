-- ===== src/Store/Persistence.antt =====
-- core/store/base/store-features/with-persistence.feature.ts: the slice of a store that the
-- browser keeps. `JSON.stringify` and `JSON.parse` are arguments, and an event says whether the
-- storage lets the call through or throws.
pub mod Survival
use enterprise_platform.Common.{
  String, Bool, true, false, Option, none, some, List, [], ◌∷◌, ◌++◌, if◌then◌else◌, ◌⊕◌, Dict,
  lookup, insert, remove,
}

pub data PersistenceStorage : Type 0 where
  local session indexed_db : PersistenceStorage

pub data Warning : Type 0 where
  idb_fallback clear_failed save_failed hydrate_failed : Warning

abbrev pub full_key : String → String
full_key key = "ep-store:" ⊕ key

-- Which storage is used, and the warning; none without a window.
abbrev pub pick_backend : Bool → PersistenceStorage → Option PersistenceStorage × List Warning
pick_backend false kind = (none, [])
pick_backend true indexed_db = (some local, idb_fallback ∷ [])
pick_backend true session = (some session, [])
pick_backend true local = (some local, [])

-- The store's state `T`, the part `S` of it that is kept, and how that part is written and read.
pub record Slice (T S : Type 0) : Type 0 where
  pub key : String
  pub pick : T → S
  pub patch : T → S → T
  pub stringify : S → String
  pub parse : String → Option S

pub record Persisted (T : Type 0) : Type 0 where
  pub memory : T
  pub storage : Dict String
  pub warnings : List Warning

module _ {T S : Type 0} (slice : Slice T S) where
  abbrev warn : Warning → Persisted T → Persisted T
  warn w s = record s { warnings = s.warnings ++ w ∷ [] }

  -- `savePersistedState`, and the effect behind every change.
  unfoldable pub save : Bool → Persisted T → Persisted T
  unfolding insert
  save false s = warn save_failed s
  save true s = record s {
    storage = insert (full_key slice.key) (slice.stringify (slice.pick s.memory)) s.storage;
  }

  unfoldable pub clear_persisted_state : Bool → Persisted T → Persisted T
  unfolding remove
  clear_persisted_state false s = warn clear_failed s
  clear_persisted_state true s = record s { storage = remove (full_key slice.key) s.storage }

  -- `JSON.parse(raw)` and the patch with what it gives.
  abbrev patched : Option S → Persisted T → Persisted T
  patched none s = warn hydrate_failed s
  patched (some snapshot) s = record s { memory = slice.patch s.memory snapshot }

  unfoldable pub hydrate : Bool → Persisted T → Persisted T
  unfolding lookup
  hydrate false s = warn hydrate_failed s
  hydrate true s = elim (lookup (full_key slice.key) s.storage) [
    | none ↦ s
    | some raw ↦ patched (slice.parse raw) s
  ]

pub data Event (T : Type 0) : Type 0 where
  changed : T → Bool → Event T
  saved cleared : Bool → Event T
  other_store : String → String → Event T
  restarted : T → Bool → Bool → Event T

module _ {T S : Type 0} (slice : Slice T S) where
  -- A store with a backend. Another store writes its own key. A restart begins with the initial
  -- state, hydrates, and saves as the effect runs for the first time.
  unfoldable pub step : Event T → Persisted T → Persisted T
  unfolding save clear_persisted_state hydrate insert
  step (changed t ok) s = save slice ok (record s { memory = t })
  step (saved ok) s = save slice ok s
  step (cleared ok) s = clear_persisted_state slice ok s
  step (other_store key raw) s = record s { storage = insert (full_key key) raw s.storage }
  step (restarted initial readable ok) s =
      save slice ok (hydrate slice readable (record s { memory = initial }))

  unfoldable pub run : List (Event T) → Persisted T → Persisted T
  unfolding step
  run [] s = s
  run (e ∷ es) s = run es (step e s)
