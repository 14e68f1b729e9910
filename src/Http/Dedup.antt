-- ===== src/Http/Dedup.antt =====
-- core/interceptors/dedup.interceptor.ts: the requests in flight by key. A trip to the network is a
-- number. `finalize` stands behind `share()`, so it runs for each subscriber of a shared trip, when
-- that subscriber's response has come or it has gone away.
use enterprise_platform.Common.{
  ℕ, ◌+◌, String, Bool, false, not, Option, none, some, List, [], ◌∷◌, Dict, lookup, insert, remove,
  lookup-insert, lookup-remove, if◌then◌else◌, ◌==◌, ◌≡◌, ◌≢◌, arith, eq_iff, eq_refl, Option-cases,
  inl, inr, sym, subst,
}

pub record Flights : Type 0 where
  pub in_flight : Dict ℕ
  pub next_trip : ℕ

-- What a request gets: a forwarded request of its own, or a shared trip.
pub data Route : Type 0 where
  own : Route
  shared : ℕ → Route

unfoldable pub join_or_start : String → Flights → Flights × Route
join_or_start key s = elim (lookup key s.in_flight) [
  | some trip ↦ (s, shared trip)
  | none ↦ (
    record { in_flight = insert key s.next_trip s.in_flight; next_trip = s.next_trip + 1 },
    shared s.next_trip,
  )
]

-- `headers.get(SKIP_HEADER) === 'true'`
abbrev pub skips : Option String → Bool
skips none = false
skips (some text) = text == "true"

-- `skip` is the value of `X-Skip-Dedup`, and `key` the request's key.
unfoldable pub dedup : String → Option String → String → Flights → Flights × Route
unfolding join_or_start
dedup method skip key s =
    if not (method == "GET") then (s, own) else if skips skip then (s, own) else join_or_start key s

-- `finalize(() => inFlight.delete(k))`, for one subscriber.
unfoldable pub finalize : String → Flights → Flights
finalize key s = record s { in_flight = remove key s.in_flight }

-- A request, or the end of one subscriber's interest in a key.
pub data Event : Type 0 where
  request : String → Option String → String → Event
  ended : String → Event

unfoldable pub step : Event → Flights → Flights
unfolding dedup finalize
step (request method skip key) s = (dedup method skip key s).0
step (ended key) s = finalize key s

unfoldable pub run : List Event → Flights → Flights
run [] s = s
run (e ∷ es) s = run es (step e s)

-- No subscriber of the key ends.
abbrev pub AllOpen : String → List Event → Type 0
AllOpen k [] = Unit
AllOpen k (request _ _ _ ∷ es) = AllOpen k es
AllOpen k (ended j ∷ es) = (j ≢ k) × AllOpen k es

step_keeps_request :
    (k : String) (trip : ℕ) (method : String) (skip : Option String) (key : String) (s : Flights)
    → lookup k s.in_flight ≡ some trip
    → lookup k (step (request method skip key) s).in_flight ≡ some trip
unfolding step
step_keeps_request k trip method skip key s h =
    ground (arith, lookup-insert key k s.next_trip s.in_flight, eq_iff key k)

run_keeps :
    (k : String) (trip : ℕ) (es : List Event) (s : Flights)
    → AllOpen k es
    → lookup k s.in_flight ≡ some trip
    → lookup k (run es s).in_flight ≡ some trip
unfolding run step
run_keeps k trip [] s open_ h = h
run_keeps k trip (request m x key ∷ es) s open_ h =
    run_keeps k trip es (step (request m x key) s) open_ (step_keeps_request k trip m x key s h)
run_keeps k trip (ended j ∷ es) s (other, open_) h =
    run_keeps k trip es (step (ended j) s) open_
      (ground (arith, lookup-remove j k s.in_flight, eq_iff j k))

dedup_joins :
    (k : String) (skip : Option String) (s : Flights) (trip : ℕ)
    → skips skip ≡ false
    → lookup k s.in_flight ≡ some trip
    → dedup "GET" skip k s ≡ (s, shared trip)
unfolding dedup join_or_start
dedup_joins k skip s trip h found = ground arith

dedup_starts :
    (k : String) (skip : Option String) (s : Flights)
    → skips skip ≡ false
    → lookup k s.in_flight ≡ none
    → dedup "GET" skip k s ≡ (
      record { in_flight = insert k s.next_trip s.in_flight; next_trip = s.next_trip + 1 },
      shared s.next_trip,
    )
unfolding dedup join_or_start
dedup_starts k skip s h missing = ground arith

-- While no subscriber of a key has ended, every GET with the key that does not opt out joins the
-- trip that the first one joined or started, whatever requests come in between, and changes nothing.
pub dedup_single_flight :
    (k : String) (skip skip' : Option String) (es : List Event) (s : Flights)
    → skips skip ≡ false
    → skips skip' ≡ false
    → AllOpen k es
    → let (s1, first) = dedup "GET" skip k s in
      let s2 = run es s1 in dedup "GET" skip' k s2 ≡ (s2, first)
dedup_single_flight k skip skip' es s h h' open_ = elim (Option-cases (lookup k s.in_flight)) [
  | inl missing ↦
      let s1 : Flights = record {
        in_flight = insert k s.next_trip s.in_flight;
        next_trip = s.next_trip + 1;
      } in
      let starts = dedup_starts k skip s h missing in
      let kept =
        run_keeps k s.next_trip es s1 open_
          (ground (arith, lookup-insert k k s.next_trip s.in_flight, eq_refl k)) in
      subst (λ r. dedup "GET" skip' k (run es (r.0)) ≡ (run es (r.0), r.1)) (sym starts)
        (dedup_joins k skip' (run es s1) s.next_trip h' kept)
  | inr (trip, found) ↦
      subst (λ r. dedup "GET" skip' k (run es (r.0)) ≡ (run es (r.0), r.1))
        (sym (dedup_joins k skip s trip h found))
        (dedup_joins k skip' (run es s) trip h' (run_keeps k trip es s open_ found))
]

-- A subscriber that goes away takes the entry with it. With no trip of the key before, two GETs
-- share one; when the first of them has gone away, the next
-- identical GET starts a second trip while the other subscriber still waits for the first one, and
-- when that one ends, it takes the entry of the second trip away.
pub ended_drops_shared_trip :
    (k : String) (s : Flights)
    → lookup k s.in_flight ≡ none
    → let (s1, first) = dedup "GET" none k s in
      let (s2, second) = dedup "GET" none k s1 in
      let (s3, third) = dedup "GET" none k (finalize k s2) in
      (second ≡ first)
      × (third ≢ first)
      × (lookup k s3.in_flight ≡ some (s.next_trip + 1))
      × (lookup k (finalize k s3).in_flight ≡ none)
unfolding dedup finalize join_or_start
ended_drops_shared_trip k s h =
    let ones = insert k s.next_trip s.in_flight in
    let cleared = remove k ones in
    let twos = insert k (s.next_trip + 1) cleared in
    ground (
      arith,
      eq_refl k,
      lookup-insert k k s.next_trip s.in_flight,
      lookup-remove k k ones,
      lookup-insert k k (s.next_trip + 1) cleared,
      lookup-remove k k twos,
    )
