-- ===== src/Table/Pipeline/Latest.antt =====
-- Only the latest load counts.
use enterprise_platform.Common.{
  ℕ, ◌≤◌, ◌<◌, Bool, true, false, Option, none, some, List, [], ◌∷◌, ◌≡◌, refl, arith,
  if◌then◌else◌, ltb, Bool-cases, inl, inr,
}
use enterprise_platform.Table.Types.{TableQuery}
use enterprise_platform.Table.Pipeline.{
  Start, no_source, thrown, subscribed, Event, asked, due, page_loaded, load_failed, load_completed,
  destroyed, Pipeline, is_current, start_load, step, run,
}

-- What a load before the load `n` says.
abbrev pub is_older : ℕ → Event → Bool
is_older n (page_loaded id page) = ltb id n
is_older n (load_failed id message) = ltb id n
is_older n (load_completed id) = ltb id n
is_older n _ = false

abbrev pub without_older : ℕ → List Event → List Event
without_older n [] = []
without_older n (e ∷ es) = if is_older n e then without_older n es else e ∷ without_older n es

-- No load before the load `n` is subscribed, and none will be.
abbrev pub IsPast : ℕ → Pipeline → Type 0
IsPast n s = (n ≤ s.next_id) × ((c : ℕ) → s.current ≡ some c → n ≤ c)

not_current :
    (n id : ℕ) (current : Option ℕ)
    → ((c : ℕ) → current ≡ some c → n ≤ c)
    → id < n
    → is_current id current ≡ false
not_current n id none h l = refl
not_current n id (some c) h l = let above : n ≤ c = h c refl in ground arith

older_step : (n : ℕ) (e : Event) (s : Pipeline) → IsPast n s → is_older n e ≡ true → step e s ≡ s
unfolding step
older_step n (asked q) s past h = cc
older_step n (due start) s past h = cc
older_step n (page_loaded id page) s past h =
    rw (not_current n id s.current past.1 (ground arith)) refl
older_step n (load_failed id message) s past h =
    rw (not_current n id s.current past.1 (ground arith)) refl
older_step n (load_completed id) s past h =
    rw (not_current n id s.current past.1 (ground arith)) refl
older_step n destroyed s past h = cc

if-IsPast :
    (n : ℕ) (b : Bool) (x y : Pipeline) → IsPast n x → IsPast n y → IsPast n (if b then x else y)
if-IsPast n true x y h k = h
if-IsPast n false x y h k = k

none-IsPast : (n c : ℕ) → none ≡ some c → n ≤ c
none-IsPast n c e = cc

pub next_load : (n m c : ℕ) → n ≤ m → some m ≡ some c → n ≤ c
next_load n m c h e = let same : m ≡ c = cc in omega (arith, h, same)

start_load-IsPast :
    (n : ℕ) (start : Start) (q : TableQuery) (s : Pipeline)
    → IsPast n s
    → IsPast n (start_load start q s)
start_load-IsPast n no_source q s (next, past) = (next, none-IsPast n)
start_load-IsPast n thrown q s (next, past) = (next, none-IsPast n)
start_load-IsPast n subscribed q s (next, past) =
    (omega (arith, next), λ c e. next_load n s.next_id c next e)

step-IsPast : (n : ℕ) (e : Event) (s : Pipeline) → IsPast n s → IsPast n (step e s)
unfolding step
step-IsPast n (asked q) s past = if-IsPast n s.alive (record s { armed = some q }) s past past
step-IsPast n (due start) s past =
    elim s.armed as (λ o. IsPast n (elim o [ none ↦ s | some q ↦ start_load start q s ])) [
      | none ↦ past
      | some q ↦ start_load-IsPast n start q s past
    ]
step-IsPast n (page_loaded id page) s past =
    if-IsPast n (is_current id s.current)
      (record s { remote_rows = page.rows; remote_total = page.total; internal_loading = false }) s
      past past
step-IsPast n (load_failed id message) s (next, past) =
    if-IsPast n (is_current id s.current)
      (record s { current = none; internal_loading = false; internal_error = some message }) s
      (next, none-IsPast n) (next, past)
step-IsPast n (load_completed id) s (next, past) =
    if-IsPast n (is_current id s.current) (record s { current = none }) s (next, none-IsPast n)
      (next, past)
step-IsPast n destroyed s (next, past) = (next, none-IsPast n)

-- Once no load before the load n is subscribed, as when the load n has started, whatever happens
-- after that leads to the same state as if those loads had never answered, failed or completed:
-- their answers change no row, no total, no loading flag and no error, in whatever order they come.
pub run-without_older :
    (n : ℕ) (es : List Event) (s : Pipeline) → IsPast n s → run es s ≡ run (without_older n es) s
unfolding run
run-without_older n [] s past = refl
run-without_older n (e ∷ es) s past = elim (Bool-cases (is_older n e)) [
  | inl h ↦ rw (h, older_step n e s past h) (run-without_older n es s past)
  | inr h ↦ rw h (run-without_older n es (step e s) (step-IsPast n e s past))
]

-- A load that has started leaves every earlier one behind.
pub due-IsPast :
    (q : TableQuery) (s : Pipeline) → s.armed ≡ some q → IsPast s.next_id (step (due subscribed) s)
unfolding step
due-IsPast q s h = rw h (omega arith, λ c e. next_load s.next_id s.next_id c (omega arith) e)
