-- ===== src/Tests/Monitor.antt =====
-- Concrete states of the session monitor.
use enterprise_platform.Common.{ℕ, String, ◌≡◌, true, false, Option, some, [], ◌∷◌}
use enterprise_platform.Auth.Monitor.{
  Monitor, stop, ticked, became_visible, call_failed, run, stopped_sends_nothing,
}

abbrev watching : Monitor
watching = record { polling = true; listening = true; expires_at = some 90000; now = 30000 }

abbrev always_at : String → Option ℕ
always_at raw = some 20000

stopped_sends_nothing_example :
    ((run always_at (ticked 31000 ∷ became_visible 32000 ∷ call_failed ∷ []) (stop watching)).1 ≡ 0)
    × ((run always_at
          (ticked 31000 ∷ became_visible 32000 ∷ call_failed ∷ [])
          (stop watching)).0.polling
        ≡ false)
stopped_sends_nothing_example =
    stopped_sends_nothing always_at (ticked 31000 ∷ became_visible 32000 ∷ call_failed ∷ [])
      watching tt
