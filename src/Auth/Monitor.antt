-- ===== src/Auth/Monitor.antt =====
-- core/auth/session-monitor.service.ts: the polling of `/api/auth/session`. Times are epoch
-- milliseconds.
use enterprise_platform.Common.{
  ℕ, ◌+◌, ◌-◌, ◌*◌, ◌/◌, ◌≤◌, ◌<◌, String, Bool, true, false, ◌&&◌, Option, none, some, List, [],
  ◌∷◌, leb, ltb, if◌then◌else◌, ◌==◌, ◌≡◌, ◌↔◌, refl, arith,
}

-- Whether the timer and the listener for visibility are set, and the signals.
pub record Monitor : Type 0 where
  pub polling : Bool
  pub listening : Bool
  pub expires_at : Option ℕ
  pub now : ℕ

-- The answer of `/api/auth/session`, as far as the monitor reads it.
pub record SessionInfo : Type 0 where
  pub is_authenticated : Bool
  pub expires_at : Option String

unfoldable pub seconds_until_expiry : Monitor → Option ℕ
seconds_until_expiry m = elim m.expires_at [ none ↦ none | some at ↦ some ((at - m.now) / 1000) ]

unfoldable pub expiring_soon : ℕ → Monitor → Bool
unfolding seconds_until_expiry
expiring_soon lead m = elim (seconds_until_expiry m) [
  | none ↦ false
  | some secs ↦ ltb 0 secs && leb secs lead
]

unfoldable pub expired : Monitor → Bool
unfolding seconds_until_expiry
expired m = elim (seconds_until_expiry m) [ none ↦ false | some secs ↦ leb secs 0 ]

-- `parse_date` stands for `Date.parse`, none for NaN.
unfoldable pub parse_expiry : (String → Option ℕ) → Option String → Option ℕ
parse_expiry parse_date none = none
parse_expiry parse_date (some raw) = if raw == "" then none else parse_date raw

unfoldable pub start : Monitor → Monitor
start m = if m.polling then m else record m { polling = true; listening = true }

unfoldable pub stop : Monitor → Monitor
stop m = record m { polling = false; listening = false; expires_at = none }

-- The part of `poll` after the answer.
unfoldable pub poll_answered : (String → Option ℕ) → SessionInfo → Monitor → Monitor
unfolding parse_expiry
poll_answered parse_date session m =
    if session.is_authenticated
    then record m { expires_at = parse_expiry parse_date session.expires_at }
    else record m { expires_at = none }

-- The part of `renew` after the answer, at a time, with what it returns.
unfoldable pub renew_answered : (String → Option ℕ) → SessionInfo → ℕ → Monitor → Monitor × Bool
unfolding parse_expiry
renew_answered parse_date session now m =
    if session.is_authenticated
    then (record m { expires_at = parse_expiry parse_date session.expires_at; now = now }, true)
    else (m, false)

-- A start, a stop, a tick of the timer or a tab that becomes visible at a time, the answers of the
-- polls and renewals, and their failures.
pub data Event : Type 0 where
  started stopped : Event
  ticked became_visible : ℕ → Event
  polled : SessionInfo → Event
  renewed : SessionInfo → ℕ → Event
  call_failed : Event

-- The state and the number of requests that the event sends.
unfoldable pub step : (String → Option ℕ) → Event → Monitor → Monitor × ℕ
unfolding start stop poll_answered renew_answered
step parse_date started m = (start m, if m.polling then 0 else 1)
step parse_date stopped m = (stop m, 0)
step parse_date (ticked at) m = if m.polling then (record m { now = at }, 1) else (m, 0)
step parse_date (became_visible at) m = if m.listening then (record m { now = at }, 1) else (m, 0)
step parse_date (polled session) m = (poll_answered parse_date session m, 0)
step parse_date (renewed session at) m = ((renew_answered parse_date session at m).0, 0)
step parse_date call_failed m = (m, 0)

unfoldable pub run : (String → Option ℕ) → List Event → Monitor → Monitor × ℕ
run parse_date [] m = (m, 0)
run parse_date (e ∷ es) m =
    let (m', sent) = step parse_date e m in
    let (last, more) = run parse_date es m' in (last, sent + more)

-- A session that ends at a time counts as expired exactly from less than a second before that time
-- on; the warning shows exactly while at least a second is left, and less than a second more than
-- the lead time.
pub expiry_windows :
    (lead at : ℕ) (m : Monitor)
    → m.expires_at ≡ some at
    → ((expired m ≡ true) ↔ (at < m.now + 1000))
      × ((expiring_soon lead m ≡ true) ↔ ((m.now + 1000 ≤ at) × (at < m.now + (lead + 1) * 1000)))
unfolding expired expiring_soon seconds_until_expiry
expiry_windows lead at m h = ground arith

-- The monitor is not started again.
abbrev pub IsUnstarted : List Event → Type 0
IsUnstarted [] = Unit
IsUnstarted (started ∷ es) = ⊥
IsUnstarted (stopped ∷ es) = IsUnstarted es
IsUnstarted (ticked _ ∷ es) = IsUnstarted es
IsUnstarted (became_visible _ ∷ es) = IsUnstarted es
IsUnstarted (polled _ ∷ es) = IsUnstarted es
IsUnstarted (renewed _ _ ∷ es) = IsUnstarted es
IsUnstarted (call_failed ∷ es) = IsUnstarted es

module _ (parse_date : String → Option ℕ) where
  idle_sends_nothing :
      (es : List Event) (m : Monitor)
      → m.polling ≡ false
      → m.listening ≡ false
      → IsUnstarted es
      → ((run parse_date es m).1 ≡ 0) × ((run parse_date es m).0.polling ≡ false)
  unfolding run step stop poll_answered renew_answered
  idle_sends_nothing [] m p l u = ground arith
  idle_sends_nothing (started ∷ es) m p l u = elim u [ ]
  idle_sends_nothing (stopped ∷ es) m p l u =
      ground (arith, idle_sends_nothing es (stop m) refl refl u)
  idle_sends_nothing (ticked at ∷ es) m p l u = ground (arith, idle_sends_nothing es m p l u)
  idle_sends_nothing (became_visible at ∷ es) m p l u =
      ground (arith, idle_sends_nothing es m p l u)
  idle_sends_nothing (polled session ∷ es) m p l u =
      let m' = poll_answered parse_date session m in
      ground (arith, idle_sends_nothing es m' (ground arith) (ground arith) u)
  idle_sends_nothing (renewed session at ∷ es) m p l u =
      let m' = (renew_answered parse_date session at m).0 in
      ground (arith, idle_sends_nothing es m' (ground arith) (ground arith) u)
  idle_sends_nothing (call_failed ∷ es) m p l u = ground (arith, idle_sends_nothing es m p l u)

-- A monitor that has stopped sends no poll and stays stopped, whatever ticks, changes of
-- visibility, answers and failures come, until it is started again.
pub stopped_sends_nothing :
    (parse_date : String → Option ℕ) (es : List Event) (m : Monitor)
    → IsUnstarted es
    → ((run parse_date es (stop m)).1 ≡ 0) × ((run parse_date es (stop m)).0.polling ≡ false)
unfolding stop
stopped_sends_nothing parse_date es m u = idle_sends_nothing parse_date es (stop m) refl refl u

abbrev pub live : String → SessionInfo
live raw = record { is_authenticated = true; expires_at = some raw }

-- An answer that was on its way when the monitor stopped still sets the time of expiry: after a
-- logout, which stops the monitor, a session that ends within the second counts as expired.
pub late_poll_after_stop :
    (parse_date : String → Option ℕ) (raw : String) (at : ℕ) (m : Monitor)
    → (raw == "") ≡ false
    → parse_date raw ≡ some at
    → at < m.now + 1000
    → (expired (run parse_date (stopped ∷ []) m).0 ≡ false)
      × (expired (run parse_date (stopped ∷ polled (live raw) ∷ []) m).0 ≡ true)
unfolding run step stop poll_answered parse_expiry expired seconds_until_expiry
late_poll_after_stop parse_date raw at m h e past = ground arith
