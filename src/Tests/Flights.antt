-- ===== src/Tests/Flights.antt =====
-- Concrete requests through the dedup interceptor.
use enterprise_platform.Common.{◌≡◌, refl, none, some, [], ◌∷◌, eq_iff}
use mathlib.Core.Bool.{false≢true}
use enterprise_platform.Http.Dedup.{Flights, dedup, request, ended, run, dedup_single_flight}

abbrev grounded : Flights
grounded = record { in_flight = []; next_trip = 7 }

dedup_single_flight_example :
    let (s1, first) = dedup "GET" none "GET|/roles||" grounded in
    let s2 = run (request "GET" none "GET|/users||" ∷ ended "GET|/users||" ∷ []) s1 in
    dedup "GET" (some "false") "GET|/roles||" s2 ≡ (s2, first)
dedup_single_flight_example =
    dedup_single_flight "GET|/roles||" none (some "false")
      (request "GET" none "GET|/users||" ∷ ended "GET|/users||" ∷ []) grounded refl refl
      (λ e. false≢true ((eq_iff "GET|/users||" "GET|/roles||").1 e), tt)
