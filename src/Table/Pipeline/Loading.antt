-- ===== src/Table/Pipeline/Loading.antt =====
-- When the loading flag goes out.
use enterprise_platform.Common.{
  ℕ, Bool, true, false, not, none, some, List, [], ◌∷◌, ◌≡◌, refl, ap, sym, subst, ◌∙◌,
  if◌then◌else◌, nat_eq, Bool-cases, inl, inr,
}
use enterprise_platform.Table.Types.{TableQuery}
use enterprise_platform.Table.Pipeline.{
  thrown, Event, asked, due, page_loaded, load_failed, load_completed, destroyed, Pipeline,
  is_current, start_load, step, run,
}

-- No later load starts, and the table stays.
abbrev pub is_quiet : Event → Bool
is_quiet (due start) = false
is_quiet destroyed = false
is_quiet _ = true

abbrev pub AllQuiet : List Event → Type 0
AllQuiet [] = Unit
AllQuiet (e ∷ es) = (is_quiet e ≡ true) × AllQuiet es

-- The load `n` gives a page or fails before it completes.
abbrev pub answered : ℕ → List Event → Bool
answered n [] = false
answered n (page_loaded id page ∷ es) = if nat_eq n id then true else answered n es
answered n (load_failed id message ∷ es) = if nat_eq n id then true else answered n es
answered n (load_completed id ∷ es) = if nat_eq n id then false else answered n es
answered n (_ ∷ es) = answered n es

-- A property of the branch that is taken.
taken :
    (P : Pipeline → Type 0) (b : Bool) (x y : Pipeline) → b ≡ true → P x → P (if b then x else y)
taken P true x y h p = p
taken P false x y h p = cc

skipped :
    (P : Pipeline → Type 0) (b : Bool) (x y : Pipeline) → b ≡ false → P y → P (if b then x else y)
skipped P true x y h p = cc
skipped P false x y h p = p

if-loading :
    (v b : Bool) (x y : Pipeline)
    → x.internal_loading ≡ v
    → y.internal_loading ≡ v
    → (if b then x else y).internal_loading ≡ v
if-loading v true x y h k = h
if-loading v false x y h k = k

step_settled :
    (e : Event) (s : Pipeline)
    → is_quiet e ≡ true
    → s.internal_loading ≡ false
    → (step e s).internal_loading ≡ false
unfolding step
step_settled (asked q) s quiet h = if-loading false s.alive (record s { armed = some q }) s h h
step_settled (due start) s quiet h = cc
step_settled (page_loaded id page) s quiet h =
    if-loading false (is_current id s.current)
      (record s { remote_rows = page.rows; remote_total = page.total; internal_loading = false }) s
      refl h
step_settled (load_failed id message) s quiet h =
    if-loading false (is_current id s.current)
      (record s { current = none; internal_loading = false; internal_error = some message }) s refl
      h
step_settled (load_completed id) s quiet h =
    if-loading false (is_current id s.current) (record s { current = none }) s h h
step_settled destroyed s quiet h = cc

-- Without a later load, a flag that is out stays out.
run_settled :
    (es : List Event) (s : Pipeline)
    → AllQuiet es
    → s.internal_loading ≡ false
    → (run es s).internal_loading ≡ false
unfolding run
run_settled [] s quiet h = h
run_settled (e ∷ es) s (first, quiet) h = run_settled es (step e s) quiet (step_settled e s first h)

-- The flag is on, and nothing is subscribed that could put it out.
abbrev pub IsStuck : Pipeline → Type 0
IsStuck s = (s.current ≡ none) × (s.internal_loading ≡ true)

if-IsStuck : (b : Bool) (x y : Pipeline) → IsStuck x → IsStuck y → IsStuck (if b then x else y)
if-IsStuck true x y h k = h
if-IsStuck false x y h k = k

step-IsStuck : (e : Event) (s : Pipeline) → is_quiet e ≡ true → IsStuck s → IsStuck (step e s)
unfolding step
step-IsStuck (asked q) s quiet h = if-IsStuck s.alive (record s { armed = some q }) s h h
step-IsStuck (due start) s quiet h = cc
step-IsStuck (page_loaded id page) s quiet (c, l) =
    skipped IsStuck (is_current id s.current) _ s (ap (is_current id) c) (c, l)
step-IsStuck (load_failed id message) s quiet (c, l) =
    skipped IsStuck (is_current id s.current) _ s (ap (is_current id) c) (c, l)
step-IsStuck (load_completed id) s quiet (c, l) =
    skipped IsStuck (is_current id s.current) _ s (ap (is_current id) c) (c, l)
step-IsStuck destroyed s quiet h = cc

run-IsStuck : (es : List Event) (s : Pipeline) → AllQuiet es → IsStuck s → IsStuck (run es s)
unfolding run
run-IsStuck [] s quiet h = h
run-IsStuck (e ∷ es) s (first, quiet) h = run-IsStuck es (step e s) quiet (step-IsStuck e s first h)

-- While a load is subscribed and no later one starts, the flag that it put on goes out exactly when
-- the load gives a page or fails before it completes. A load that completes without a page leaves
-- the flag on.
pub loading_until_answered :
    (n : ℕ) (es : List Event) (s : Pipeline)
    → AllQuiet es
    → s.current ≡ some n
    → s.internal_loading ≡ true
    → (run es s).internal_loading ≡ not (answered n es)
unfolding run step
loading_until_answered n [] s quiet c l = l
loading_until_answered n (asked q ∷ es) s (first, quiet) c l = elim (Bool-cases s.alive) [
  | inl e ↦
      taken (λ t. (run es t).internal_loading ≡ not (answered n es)) s.alive
        (record s { armed = some q }) s e
        (loading_until_answered n es (record s { armed = some q }) quiet c l)
  | inr e ↦
      skipped (λ t. (run es t).internal_loading ≡ not (answered n es)) s.alive
        (record s { armed = some q }) s e (loading_until_answered n es s quiet c l)
]
loading_until_answered n (due start ∷ es) s (first, quiet) c l = cc
loading_until_answered n (page_loaded id page ∷ es) s (first, quiet) c l =
    elim (Bool-cases (nat_eq n id)) [
      | inl e ↦ rw e (
          taken (λ t. (run es t).internal_loading ≡ false) (is_current id s.current) _ s
            (ap (is_current id) c ∙ e) (run_settled es _ quiet refl))
      | inr e ↦ rw e (
          skipped (λ t. (run es t).internal_loading ≡ not (answered n es)) (is_current id s.current)
            _ s (ap (is_current id) c ∙ e) (loading_until_answered n es s quiet c l))
    ]
loading_until_answered n (load_failed id message ∷ es) s (first, quiet) c l =
    elim (Bool-cases (nat_eq n id)) [
      | inl e ↦ rw e (
          taken (λ t. (run es t).internal_loading ≡ false) (is_current id s.current) _ s
            (ap (is_current id) c ∙ e) (run_settled es _ quiet refl))
      | inr e ↦ rw e (
          skipped (λ t. (run es t).internal_loading ≡ not (answered n es)) (is_current id s.current)
            _ s (ap (is_current id) c ∙ e) (loading_until_answered n es s quiet c l))
    ]
loading_until_answered n (load_completed id ∷ es) s (first, quiet) c l =
    elim (Bool-cases (nat_eq n id)) [
      | inl e ↦ rw e (
          taken (λ t. (run es t).internal_loading ≡ true) (is_current id s.current)
            (record s { current = none }) s (ap (is_current id) c ∙ e)
            ((run-IsStuck es (record s { current = none }) quiet (refl, l)).1))
      | inr e ↦ rw e (
          skipped (λ t. (run es t).internal_loading ≡ not (answered n es)) (is_current id s.current)
            (record s { current = none }) s (ap (is_current id) c ∙ e)
            (loading_until_answered n es s quiet c l))
    ]
loading_until_answered n (destroyed ∷ es) s (first, quiet) c l = cc

-- Nothing but an end of the outer subscription is left.
abbrev IsDead : List TableQuery → Pipeline → Type 0
IsDead sent s =
    ((s.alive ≡ false) × (s.armed ≡ none))
    × ((s.current ≡ none) × ((s.internal_loading ≡ true) × (s.loads ≡ sent)))

step-IsDead :
    (sent : List TableQuery) (e : Event) (s : Pipeline) → IsDead sent s → IsDead sent (step e s)
unfolding step
step-IsDead sent (asked q) s ((a, r), rest) =
    skipped (IsDead sent) s.alive (record s { armed = some q }) s a ((a, r), rest)
step-IsDead sent (due start) s ((a, r), rest) =
    subst (λ o. IsDead sent (elim o [ none ↦ s | some q ↦ start_load start q s ])) (sym r)
      ((a, r), rest)
step-IsDead sent (page_loaded id page) s (h, (c, rest)) =
    skipped (IsDead sent) (is_current id s.current) _ s (ap (is_current id) c) (h, (c, rest))
step-IsDead sent (load_failed id message) s (h, (c, rest)) =
    skipped (IsDead sent) (is_current id s.current) _ s (ap (is_current id) c) (h, (c, rest))
step-IsDead sent (load_completed id) s (h, (c, rest)) =
    skipped (IsDead sent) (is_current id s.current) _ s (ap (is_current id) c) (h, (c, rest))
step-IsDead sent destroyed s ((a, r), (c, rest)) = ((refl, refl), (refl, rest))

run-IsDead :
    (sent : List TableQuery) (es : List Event) (s : Pipeline)
    → IsDead sent s
    → IsDead sent (run es s)
unfolding run
run-IsDead sent [] s h = h
run-IsDead sent (e ∷ es) s h = run-IsDead sent es (step e s) (step-IsDead sent e s h)

-- When the `load` of the source throws, the loading flag stays on for good, and no query that is
-- asked afterwards is ever sent to the source.
pub thrown_stops_loads :
    (es : List Event) (q : TableQuery) (s : Pipeline)
    → s.armed ≡ some q
    → ((run es (step (due thrown) s)).internal_loading ≡ true)
      × ((run es (step (due thrown) s)).loads ≡ s.loads)
unfolding step
thrown_stops_loads es q s h =
    subst
      (λ o.
        ((run es (elim o [ none ↦ s | some q ↦ start_load thrown q s ])).internal_loading ≡ true)
        × ((run es (elim o [ none ↦ s | some q ↦ start_load thrown q s ])).loads ≡ s.loads))
      (sym h)
      ((run-IsDead s.loads es (start_load thrown q s) ((refl, refl), (refl, (refl, refl)))).1.1)
