-- ===== src/Services/StatusBanner.antt =====
-- core/services/status-banner.service.ts: the registry of banners, the ids that the user has
-- dismissed for good, and their copy in `localStorage`, which may refuse a write.
pub mod Registry
use enterprise_platform.Common.{
  String, Bool, true, false, not, ◌&&◌, Option, none, some, List, [], ◌∷◌, ◌++◌, map, filter,
  includes, exclude, IsDistinct, concat-IsDistinct, includes-append, if◌then◌else◌, ◌==◌, ◌≡◌, refl,
  arith, eq_iff, eq_refl, Bool-cases, ◌⊎◌, inl, inr,
}

pub data BannerSeverity : Type 0 where
  info success warning danger maintenance : BannerSeverity

-- `StatusBanner`, without the action and the icon, which the service does not read.
pub record Banner : Type 0 where
  pub id : String
  pub severity : BannerSeverity
  pub title : String
  pub message : String
  pub dismissable : Option Bool
  pub dismiss_persist : Option Bool

-- What `localStorage` holds under the key: nothing, a text that is no JSON array, or an array, in
-- which `none` stands for an entry that is no text.
pub data Stored : Type 0 where
  absent unreadable : Stored
  entries : List (Option String) → Stored

pub record Service : Type 0 where
  pub registry : List Banner
  pub dismissed : List String
  pub storage : Stored

abbrev pub texts : List (Option String) → List String
texts [] = []
texts (none ∷ xs) = texts xs
texts (some x ∷ xs) = x ∷ texts xs

unfoldable pub load_dismissed_ids : Stored → List String
load_dismissed_ids absent = []
load_dismissed_ids unreadable = []
load_dismissed_ids (entries xs) = texts xs

-- `set.add(id)` keeps the order of insertion.
abbrev pub add_id : String → List String → List String
add_id id ids = if includes id ids then ids else ids ++ id ∷ []

abbrev pub add_ids : List String → List String → List String
add_ids [] ids = ids
add_ids (x ∷ xs) ids = add_ids xs (add_id x ids)

-- A service at the start of the application: `new Set(this.loadDismissedIds())`.
unfoldable pub boot : Stored → Service
boot store = record {
  registry = [];
  dismissed = add_ids (load_dismissed_ids store) [];
  storage = store;
}

-- What `banners()` gives when it is computed: a change of the dismissed ids alone, which only
-- `reset_dismissed` makes, does not have it computed again.
unfoldable pub banners : Service → List Banner
banners s = filter (λ b. not (includes b.id s.dismissed)) s.registry

abbrev pub others : String → List Banner → List Banner
others id bs = filter (λ b. not (b.id == id)) bs

unfoldable pub push : Banner → Service → Service
push banner s = record s { registry = others banner.id s.registry ++ banner ∷ [] }

-- `this._registry().find((b) => b.id === id)?.dismissPersist`, as a condition.
unfoldable pub persists : String → List Banner → Bool
persists id [] = false
persists id (b ∷ bs) =
    if b.id == id
    then elim b.dismiss_persist [ none ↦ false | some yes_or_no ↦ yes_or_no ]
    else persists id bs

-- `writable` is whether `localStorage` takes the write.
unfoldable pub save_dismissed_ids : Bool → Service → Service
save_dismissed_ids writable s =
    if writable then record s { storage = entries (map some s.dismissed) } else s

unfoldable pub dismiss : Bool → String → Service → Service
unfolding save_dismissed_ids persists
dismiss writable id s =
    let rest = record s { registry = others id s.registry } in
    if persists id s.registry
    then save_dismissed_ids writable (record rest { dismissed = add_id id s.dismissed })
    else rest

unfoldable pub clear : Service → Service
clear s = record s { registry = [] }

unfoldable pub reset_dismissed : Bool → Service → Service
reset_dismissed writable s = record s {
  dismissed = [];
  storage = if writable then absent else s.storage;
}

-- A call of the service, or the start of the application with the storage as it was left.
pub data Event : Type 0 where
  pushed : Banner → Event
  dismissal : Bool → String → Event
  cleared restarted : Event
  reset_by : Bool → Event

unfoldable pub step : Event → Service → Service
unfolding push dismiss clear reset_dismissed boot
step (pushed b) s = push b s
step (dismissal writable id) s = dismiss writable id s
step cleared s = clear s
step restarted s = boot s.storage
step (reset_by writable) s = reset_dismissed writable s

unfoldable pub run : List Event → Service → Service
run [] s = s
run (e ∷ es) s = run es (step e s)
