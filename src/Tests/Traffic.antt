-- ===== src/Tests/Traffic.antt =====
-- A concrete run of the count of requests in flight.
use enterprise_platform.Common.{◌-◌, ◌<◌, ◌≡◌, ◌↔◌, true, false, List, [], ◌∷◌, arith}
use enterprise_platform.Http.Loading.{
  is_loading, Traffic, sent, ended, run, sent_count, ended_count, run-in_flight,
}

abbrev traffic : List Traffic
traffic = sent false ∷ sent true ∷ sent false ∷ ended false ∷ ended true ∷ []

run-in_flight_example :
    (run traffic 0 ≡ sent_count traffic - ended_count traffic)
    × ((is_loading (run traffic 0) ≡ true) ↔ (ended_count traffic < sent_count traffic))
run-in_flight_example = run-in_flight traffic (omega arith)
