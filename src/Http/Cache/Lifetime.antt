-- ===== src/Http/Cache/Lifetime.antt =====
-- How long an entry is served, whatever requests and responses come in between.
use enterprise_platform.Common.{
  ℕ, ◌+◌, ◌*◌, ◌≤◌, ◌<◌, String, true, none, some, List, [], ◌∷◌, Dict, lookup, insert, remove,
  lookup-insert, remove-absent, ◌≡◌, ◌≢◌, ◌⊎◌, refl, arith, eq_refl, length, ap, subst,
  Option-cases, inl, inr, ◌∙◌, sym, lt→ltb, ltb-false_of_le,
}
use mathlib.Core.Option.{some-injective}
use enterprise_platform.Http.Types.{HttpMaps, Request, Response, response, progress}
use enterprise_platform.Http.Numbers.{natural}
use enterprise_platform.Http.Keys.{request_key}
use enterprise_platform.Http.Cache.{
  CacheEntry, Fetch, serve, fetch, ttl_header, ttl_of, expiry, is_fresh, max_entries,
  evict_if_at_cap, read, stripped, materialize, intercept, received,
}
use enterprise_platform.Http.Cache.Capacity.{Arrival, request, event, arrive, run}
use enterprise_platform.Http.Cache.Headers.{header-copied}
use enterprise_platform.Http.Cache.Reads.{
  IsCacheable, read_fresh, read_expired, entry_of, received_ok, intercept_hit, intercept_miss,
}
use enterprise_platform.Http.Cache.Keeping.{
  Kept, Expires, read-Kept, read-Expires, evict-Expires, insert-Kept, insert-Expires, read_absent,
}

module _ (maps : HttpMaps) {Body : Type 0} where
  open maps use {Headers, Params, header}

  -- No event of a response is for the key.
  abbrev pub NoResponseTo : String → List (Arrival Headers Params Body) → Type 0
  NoResponseTo key [] = Unit
  NoResponseTo key (request req now ∷ as') = NoResponseTo key as'
  NoResponseTo key (event f e ∷ as') = (f.key ≢ key) × NoResponseTo key as'

  -- Every request comes before the time, and every response finds the cache below its cap.
  abbrev pub Spares : ℕ → List (Arrival Headers Params Body) → Dict (CacheEntry Body) → Type 0
  Spares deadline [] cache = Unit
  Spares deadline (request req now ∷ as') cache =
      (now < deadline) × Spares deadline as' (arrive maps (request req now) cache)
  Spares deadline (event f e ∷ as') cache =
      (length cache < max_entries) × Spares deadline as' (arrive maps (event f e) cache)

  intercept-cache :
      (req : Request Headers Params) (now : ℕ) (cache : Dict (CacheEntry Body))
      → ((intercept maps req now cache).0 ≡ cache)
        ⊎ ((intercept maps req now cache).0 ≡ (read (request_key maps req) now cache).0)
  unfolding intercept
  intercept-cache req now cache = ground arith

  received-cache :
      (f : Fetch) (r : Response Headers Body) (cache : Dict (CacheEntry Body))
      → (received maps f (response r) cache ≡ cache)
        ⊎ (received maps f (response r) cache
            ≡ insert f.key (entry_of maps f r) (evict_if_at_cap cache))
  unfolding received
  received-cache f r cache = ground arith

  run-Kept :
      (key : String) (deadline : ℕ) (entry : CacheEntry Body)
      (as' : List (Arrival Headers Params Body)) (cache : Dict (CacheEntry Body))
      → entry.expires_at ≡ some deadline
      → NoResponseTo key as'
      → Spares deadline as' cache
      → Kept key entry cache
      → Kept key entry (run maps as' cache)
  unfolding run arrive received
  run-Kept key deadline entry [] cache e other spared kept = kept
  run-Kept key deadline entry (request req now ∷ as') cache e other (soon, spared) kept =
      run-Kept key deadline entry as' (arrive maps (request req now) cache) e other spared
        (elim (intercept-cache req now cache) [
          | inl same ↦ subst (Kept key entry) (sym same) kept
          | inr same ↦
              subst (Kept key entry) (sym same)
                (read-Kept key (request_key maps req) now deadline entry cache e soon kept)
        ])
  run-Kept key deadline entry (event f progress ∷ as') cache e (apart, other) (room, spared) kept =
      run-Kept key deadline entry as' (arrive maps (event f progress) cache) e other spared kept
  run-Kept key deadline entry (event f (response r) ∷ as') cache e (apart, other) (room, spared)
        kept =
      run-Kept key deadline entry as' (arrive maps (event f (response r)) cache) e other spared
        (elim (received-cache f r cache) [
          | inl same ↦ subst (Kept key entry) (sym same) kept
          | inr same ↦
              subst (Kept key entry) (sym same)
                (insert-Kept key entry f.key (entry_of maps f r) cache apart room kept)
        ])

  run-Expires :
      (key : String) (deadline : ℕ) (as' : List (Arrival Headers Params Body))
      (cache : Dict (CacheEntry Body))
      → NoResponseTo key as'
      → Expires key deadline cache
      → Expires key deadline (run maps as' cache)
  unfolding run arrive received
  run-Expires key deadline [] cache other old = old
  run-Expires key deadline (request req now ∷ as') cache other old =
      run-Expires key deadline as' (arrive maps (request req now) cache) other
        (elim (intercept-cache req now cache) [
          | inl same ↦ subst (Expires key deadline) (sym same) old
          | inr same ↦
              subst (Expires key deadline) (sym same)
                (read-Expires key (request_key maps req) now deadline cache old)
        ])
  run-Expires key deadline (event f progress ∷ as') cache (apart, other) old =
      run-Expires key deadline as' (arrive maps (event f progress) cache) other old
  run-Expires key deadline (event f (response r) ∷ as') cache (apart, other) old =
      run-Expires key deadline as' (arrive maps (event f (response r)) cache) other
        (elim (received-cache f r cache) [
          | inl same ↦ subst (Expires key deadline) (sym same) old
          | inr same ↦ subst (Expires key deadline) (sym same) (
              insert-Expires key deadline f.key (entry_of maps f r) (evict_if_at_cap cache) apart
                (evict-Expires key deadline cache old))
        ])

  -- Where the key's entry is of this expiry, a request after it goes to the network.
  intercept_late :
      (req : Request Headers Params) (later deadline : ℕ) (cache : Dict (CacheEntry Body))
      → IsCacheable maps req
      → Expires (request_key maps req) deadline cache
      → deadline ≤ later
      → intercept maps req later cache ≡ (
        remove (request_key maps req) cache,
        fetch (stripped maps req) (record {
          key = request_key maps req;
          now = later;
          ttl_seconds = ttl_of (header ttl_header req.headers);
        }),
      )
  unfolding is_fresh
  intercept_late req later deadline cache c old late =
      let k = request_key maps req in
      elim (Option-cases (lookup k cache)) [
        | inl gone ↦ intercept_miss maps req later cache (remove k cache) c (
            read_absent k later cache gone ∙ ap (λ d. (d, none)) (sym (remove-absent k cache gone)))
        | inr (hit, here) ↦ intercept_miss maps req later cache (remove k cache) c (
            read_expired k later cache hit here
              (ap (is_fresh later) (old hit here) ∙ ltb-false_of_le later deadline late))
      ]

  -- A successful response to a fetch with a TTL of `n` seconds is served, with its body, its status
  -- and all its headers, to every cacheable request with its key that comes before the TTL has
  -- passed, whatever requests come in between before that time, and whatever responses for other
  -- keys that find fewer than 200 entries in the cache. Once the TTL has passed, such a request
  -- goes to the network, without the marker headers, whatever requests and responses for other keys
  -- have come in between, and the cache has no entry of the key then.
  pub intercept-run-received :
      (f : Fetch) (n : ℕ) (r : Response Headers Body) (req : Request Headers Params) (later : ℕ)
      (as' : List (Arrival Headers Params Body)) (cache : Dict (CacheEntry Body))
      → f.ttl_seconds ≡ natural n
      → 200 ≤ r.status
      → r.status < 300
      → IsCacheable maps req
      → request_key maps req ≡ f.key
      → NoResponseTo f.key as'
      → let cache1 = received maps f (response r) cache in
        let cache' = run maps as' cache1 in
        (Spares (f.now + n * 1000) as' cache1
          → later < f.now + n * 1000
          → (served : Response Headers Body) × ((intercept maps req later cache').1 ≡ serve served)
            × (served.body ≡ r.body)
            × (served.status ≡ r.status)
            × (served.status_text ≡ r.status_text)
            × ((name : String) → header name served.headers ≡ header name r.headers))
        × (f.now + n * 1000 ≤ later
            → intercept maps req later cache' ≡ (
              remove f.key cache',
              fetch (stripped maps req) (record {
                key = f.key;
                now = later;
                ttl_seconds = ttl_of (header ttl_header req.headers);
              }),
            ))
  unfolding materialize expiry is_fresh
  intercept-run-received f n r req later as' cache ttl ok_lo ok_hi c same other =
      let deadline = f.now + n * 1000 in
      let entry = entry_of maps f r in
      let cache1 = received maps f (response r) cache in
      let cache' = run maps as' cache1 in
      let expires : entry.expires_at ≡ some deadline = ap (expiry f.now) ttl in
      let stored : lookup f.key cache1 ≡ some entry =
        ap (lookup f.key) (received_ok maps f r cache ok_lo ok_hi)
        ∙ lookup-insert f.key f.key entry (evict_if_at_cap cache)
        ∙ rw (eq_refl f.key) refl in
      (
        λ spared soon.
            let (t, held) =
              run-Kept f.key deadline entry as' cache1 expires other spared (f.now, stored) in
            let kept : CacheEntry Body = record entry { last_read_at = t } in
            let seen : lookup (request_key maps req) cache' ≡ some kept =
              ap (λ k. lookup k cache') same ∙ held in
            let fresh : is_fresh later kept.expires_at ≡ true =
              ap (is_fresh later) expires ∙ lt→ltb later deadline soon in
            (
              materialize maps kept,
              ap (λ p. p.1)
                  (intercept_hit maps req later cache'
                    (insert (request_key maps req) (record kept { last_read_at = later }) cache')
                    kept c (read_fresh (request_key maps req) later cache' kept seen fresh)),
              refl,
              refl,
              refl,
              λ name. header-copied maps name r.headers,
            ),
        λ late.
            let old : Expires f.key deadline cache' =
              run-Expires f.key deadline as' cache1 other (λ hit found.
                ap (λ (h : CacheEntry Body). h.expires_at)
                  (sym (some-injective entry hit (sym stored ∙ found)))
                ∙ expires) in
            let old_req : Expires (request_key maps req) deadline cache' =
              subst (λ k. Expires k deadline cache') (sym same) old in
            intercept_late req later deadline cache' c old_req late ∙ rw same refl,
      )
