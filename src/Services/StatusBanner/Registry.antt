-- ===== src/Services/StatusBanner/Registry.antt =====
-- core/services/status-banner.service.ts: what the registry and the dismissals promise.
use enterprise_platform.Common.{
  String, Bool, true, false, not, ◌||◌, some, List, [], ◌∷◌, ◌++◌, map, filter, includes,
  IsDistinct, concat-IsDistinct, includes-append, ◌==◌, ◌≡◌, refl, sym, ap, subst, arith, eq_iff,
  eq_refl, ◌⊎◌, inl, inr,
}
use enterprise_platform.Services.StatusBanner.{
  Banner, Event, Service, Stored, add_id, add_ids, banners, boot, clear, cleared, dismiss,
  dismissal, load_dismissed_ids, others, persists, push, pushed, reset_by, reset_dismissed,
  restarted, run, save_dismissed_ids, step, texts,
}

abbrev pub ids : List Banner → List String
ids bs = map (λ b. b.id) bs

ids-filter :
    (keep : Banner → Bool) (k : String) (bs : List Banner)
    → includes k (ids bs) ≡ false
    → includes k (ids (filter keep bs)) ≡ false
ids-filter keep k [] h = refl
ids-filter keep k (b ∷ bs) h = ground (arith, ids-filter keep k bs)

filter-IsDistinct :
    (keep : Banner → Bool) (bs : List Banner)
    → IsDistinct (ids bs)
    → IsDistinct (ids (filter keep bs))
filter-IsDistinct keep [] d = d
filter-IsDistinct keep (b ∷ bs) (new, d) =
    ground (arith, ids-filter keep b.id bs new, filter-IsDistinct keep bs d)

others_absent : (k : String) (bs : List Banner) → includes k (ids (others k bs)) ≡ false
others_absent k [] = refl
others_absent k (b ∷ bs) = ground (arith, others_absent k bs)

ids-append : (bs : List Banner) (b : Banner) → ids (bs ++ b ∷ []) ≡ ids bs ++ b.id ∷ []
ids-append [] b = refl
ids-append (x ∷ bs) b = ap (λ xs. x.id ∷ xs) (ids-append bs b)

push-IsDistinct :
    (b : Banner) (s : Service) → IsDistinct (ids s.registry) → IsDistinct (ids (push b s).registry)
unfolding push
push-IsDistinct b s d = subst IsDistinct (sym (ids-append (others b.id s.registry) b)) (
    concat-IsDistinct b.id (ids (others b.id s.registry))
      (filter-IsDistinct (λ x. not (x.id == b.id)) s.registry d) (others_absent b.id s.registry))

registry-dismiss :
    (writable : Bool) (id : String) (s : Service)
    → (dismiss writable id s).registry ≡ others id s.registry
unfolding dismiss save_dismissed_ids
registry-dismiss writable id s = ground arith

run-IsDistinct :
    (es : List Event) (s : Service)
    → IsDistinct (ids s.registry)
    → IsDistinct (ids (run es s).registry)
unfolding run step clear reset_dismissed boot
run-IsDistinct [] s d = d
run-IsDistinct (pushed b ∷ es) s d = run-IsDistinct es (push b s) (push-IsDistinct b s d)
run-IsDistinct (dismissal writable id ∷ es) s d = run-IsDistinct es (dismiss writable id s) (
    subst (λ bs. IsDistinct (ids bs)) (sym (registry-dismiss writable id s))
      (filter-IsDistinct (λ x. not (x.id == id)) s.registry d))
run-IsDistinct (cleared ∷ es) s d = run-IsDistinct es (clear s) tt
run-IsDistinct (restarted ∷ es) s d = run-IsDistinct es (boot s.storage) tt
run-IsDistinct (reset_by writable ∷ es) s d = run-IsDistinct es (reset_dismissed writable s) d

-- From an empty registry on, no id has two banners, whatever is pushed, dismissed, cleared, reset
-- and restarted.
pub run-registry-IsDistinct :
    (es : List Event) (store : Stored) → IsDistinct (ids (run es (boot store)).registry)
unfolding boot
run-registry-IsDistinct es store = run-IsDistinct es (boot store) tt

-- The dismissals are not reset.
abbrev pub IsUnreset : List Event → Type 0
IsUnreset [] = Unit
IsUnreset (pushed _ ∷ es) = IsUnreset es
IsUnreset (dismissal writable _ ∷ es) = (writable ≡ true) × IsUnreset es
IsUnreset (cleared ∷ es) = IsUnreset es
IsUnreset (restarted ∷ es) = IsUnreset es
IsUnreset (reset_by _ ∷ es) = ⊥

includes-add_id :
    (k j : String) (xs : List String) → includes k (add_id j xs) ≡ (includes k xs || j == k)
includes-add_id k j xs = ground (arith, includes-append k xs (j ∷ []), eq_iff j k)

includes-add_ids :
    (k : String) (xs ys : List String)
    → includes k (add_ids xs ys) ≡ (includes k xs || includes k ys)
includes-add_ids k [] ys = refl
includes-add_ids k (x ∷ xs) ys =
    ground (arith, includes-add_ids k xs (add_id x ys), includes-add_id k x ys)

texts-map : (xs : List String) → texts (map some xs) ≡ xs
texts-map [] = refl
texts-map (x ∷ xs) = ap (λ ys. x ∷ ys) (texts-map xs)

hidden :
    (k : String) (gone : List String) (bs : List Banner)
    → includes k gone ≡ true
    → includes k (ids (filter (λ b. not (includes b.id gone)) bs)) ≡ false
hidden k gone [] h = refl
hidden k gone (b ∷ bs) h = ground (arith, hidden k gone bs h, eq_iff b.id k)

-- The id is dismissed now, and in the storage for the next start.
abbrev pub IsGone : String → Service → Type 0
IsGone k s = (includes k s.dismissed ≡ true) × (includes k (load_dismissed_ids s.storage) ≡ true)

dismiss-IsGone :
    (k id : String) (s : Service)
    → IsGone k s ⊎ ((id ≡ k) × (persists k s.registry ≡ true))
    → IsGone k (dismiss true id s)
unfolding dismiss save_dismissed_ids load_dismissed_ids
dismiss-IsGone k id s h =
    ground (arith, includes-add_id k id s.dismissed, texts-map (add_id id s.dismissed), eq_refl k)

run-IsGone :
    (es : List Event) (k : String) (s : Service) → IsUnreset es → IsGone k s → IsGone k (run es s)
unfolding run step push clear boot
run-IsGone [] k s u g = g
run-IsGone (pushed b ∷ es) k s u g = run-IsGone es k (push b s) u g
run-IsGone (dismissal writable id ∷ es) k s (ok, u) g =
    run-IsGone es k (dismiss writable id s) u
      (subst (λ w. IsGone k (dismiss w id s)) (sym ok) (dismiss-IsGone k id s (inl g)))
run-IsGone (cleared ∷ es) k s u g = run-IsGone es k (clear s) u g
run-IsGone (restarted ∷ es) k s u (now, later) =
    run-IsGone es k (boot s.storage) u
      (ground (arith, includes-add_ids k (load_dismissed_ids s.storage) []), later)
run-IsGone (reset_by _ ∷ es) k s u g = elim u [ ]

-- A banner that was dismissed for good stays out of sight, also when it is pushed again and the
-- application starts anew, as long as the storage takes the writes and nothing resets the
-- dismissals.
pub dismissed_stays_hidden :
    (es : List Event) (id : String) (s : Service)
    → persists id s.registry ≡ true
    → IsUnreset es
    → includes id (ids (banners (run es (dismiss true id s)))) ≡ false
unfolding banners
dismissed_stays_hidden es id s h u =
    let after = run es (dismiss true id s) in
    hidden id after.dismissed after.registry
      ((run-IsGone es id (dismiss true id s) u (dismiss-IsGone id id s (inr (refl, h)))).0)
