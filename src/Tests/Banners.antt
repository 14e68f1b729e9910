-- ===== src/Tests/Banners.antt =====
-- Concrete runs of the status banners.
use enterprise_platform.Common.{includes, ◌≡◌, refl, true, false, some, [], ◌∷◌}
use enterprise_platform.Services.StatusBanner.{
  maintenance, Banner, unreadable, Service, banners, persists, dismiss, pushed, restarted, run,
}
use enterprise_platform.Services.StatusBanner.Registry.{ids, dismissed_stays_hidden}

abbrev outage : Banner
outage = record {
  id = "outage";
  severity = maintenance;
  title = "Maintenance";
  message = "Sunday";
  dismissable = some true;
  dismiss_persist = some true;
}

abbrev showing : Service
showing = record { registry = outage ∷ []; dismissed = []; storage = unreadable }

dismissed_stays_hidden_example :
    includes "outage" (
      ids (
        banners
          (run (pushed outage ∷ restarted ∷ pushed outage ∷ []) (dismiss true "outage" showing))))
    ≡ false
unfolding persists
dismissed_stays_hidden_example =
    dismissed_stays_hidden (pushed outage ∷ restarted ∷ pushed outage ∷ []) "outage" showing refl tt
