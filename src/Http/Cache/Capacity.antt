-- ===== src/Http/Cache/Capacity.antt =====
-- The cache never holds more than 200 entries, and makes room by the entry read longest ago.
use enterprise_platform.Common.{
  ℕ, ◌≤◌, ◌<◌, String, true, ◌||◌, Option, none, some, List, [], ◌∷◌, Dict, lookup, insert, remove,
  ltb, leb, length, ◌≡◌, ◌⊎◌, refl, arith, eq_iff, is_some, length-insert, length-remove-lt,
  length-remove-le, Option-cases, Bool-cases, ltb→lt, ltb-false→le, ltb-false_of_le, lt→ltb, inl,
  inr,
}
use enterprise_platform.Http.Types.{HttpMaps, Request, HttpEvent, response, progress}
use enterprise_platform.Http.Keys.{request_key}
use enterprise_platform.Http.Cache.{
  CacheEntry, Fetch, max_entries, oldest, evict_if_at_cap, read, intercept, received,
}

module _ {Body : Type 0} where
  -- An entry read at time `t` or later.
  abbrev pub AllSince : ℕ → Dict (CacheEntry Body) → Type 0
  AllSince t [] = Unit
  AllSince t ((k, v) ∷ rest) = (t ≤ v.last_read_at) × AllSince t rest

  -- The cache has an entry under `k` that was last read at `t`.
  abbrev pub HasRead : String → ℕ → Dict (CacheEntry Body) → Type 0
  HasRead k t [] = ⊥
  HasRead k t ((j, v) ∷ rest) = ((j ≡ k) × (v.last_read_at ≡ t)) ⊎ HasRead k t rest

  HasRead-lookup :
      (k : String) (t : ℕ) (cache : Dict (CacheEntry Body))
      → HasRead k t cache
      → is_some (lookup k cache) ≡ true
  unfolding lookup
  HasRead-lookup k t [] h = absurd h
  HasRead-lookup k t ((j, v) ∷ rest) (inl (same, at)) = ground (arith, eq_iff j k)
  HasRead-lookup k t ((j, v) ∷ rest) (inr h) = ground (arith, HasRead-lookup k t rest h)

  -- The scan ends with the best so far or with a key of the rest, at a time that is the least.
  oldest_from :
      (b : String) (t : ℕ) (cache : Dict (CacheEntry Body))
      → (k : String) × (m : ℕ) × (oldest (some (b, t)) cache ≡ some (k, m))
        × (m ≤ t)
        × AllSince m cache
        × (((b ≡ k) × (t ≡ m)) ⊎ HasRead k m cache)
  unfolding oldest lookup
  oldest_from b t [] = (b, t, refl, omega arith, tt, inl (refl, refl))
  oldest_from b t ((j, v) ∷ rest) = elim (Bool-cases (ltb v.last_read_at t)) [
    | inl older ↦
        let (k, m, e, le, since, where_from) = oldest_from j v.last_read_at rest in
        (k, m, rw older e, omega (arith, ltb→lt _ _ older), (le, since), inr where_from)
    | inr newer ↦
        let (k, m, e, le, since, where_from) = oldest_from b t rest in
        (
          k,
          m,
          rw newer e,
          le,
          (omega (arith, ltb-false→le _ _ newer), since),
          elim where_from [ inl same ↦ inl same | inr held ↦ inr (inr held) ],
        )
  ]

  -- On a cache with an entry the scan finds a key of the cache, read no later than any entry.
  oldest_found :
      (j : String) (v : CacheEntry Body) (rest : Dict (CacheEntry Body))
      → (k : String) × (m : ℕ) × (oldest none ((j, v) ∷ rest) ≡ some (k, m))
        × AllSince m ((j, v) ∷ rest)
        × HasRead k m ((j, v) ∷ rest)
  unfolding oldest lookup
  oldest_found j v rest =
      let (k, m, e, le, since, where_from) = oldest_from j v.last_read_at rest in
      (k, m, e, (le, since), where_from)

  -- Below the cap nothing is evicted. At the cap one key goes, of an entry that was read no later
  -- than any other.
  pub evict_if_at_cap_lem :
      (cache : Dict (CacheEntry Body))
      → (length cache < max_entries → evict_if_at_cap cache ≡ cache)
        × (max_entries ≤ length cache
            → (k : String) × (t : ℕ) × (evict_if_at_cap cache ≡ remove k cache)
              × HasRead k t cache
              × AllSince t cache)
  unfolding evict_if_at_cap
  evict_if_at_cap_lem [] = (λ _. refl, λ h. absurd (omega arith))
  evict_if_at_cap_lem ((j, v) ∷ rest) =
      let (k, t, e, since, held) = oldest_found j v rest in
      (
        λ below. rw (lt→ltb _ _ below),
        λ full. (k, t, rw (ltb-false_of_le _ _ full, e), held, since),
      )

  evict-length :
      (cache : Dict (CacheEntry Body))
      → length cache ≤ max_entries
      → length (evict_if_at_cap cache) < max_entries
  evict-length cache h = elim (Bool-cases (ltb (length cache) max_entries)) [
    | inl below ↦ let small = ltb→lt _ _ below in rw ((evict_if_at_cap_lem cache).0 small) small
    | inr full ↦
        let (k, t, e, held, since) = (evict_if_at_cap_lem cache).1 (ltb-false→le _ _ full) in
        rw e (removed-length k (lookup k cache) refl (HasRead-lookup k t cache held))
  ]
    where
      removed-length :
          (k : String) (o : Option (CacheEntry Body))
          → lookup k cache ≡ o
          → is_some o ≡ true
          → length (remove k cache) < max_entries
      removed-length k none e there = cc
      removed-length k (some v) e there = omega (arith, length-remove-lt k v cache e)

  insert-length-le :
      (k : String) (v : CacheEntry Body) (cache : Dict (CacheEntry Body))
      → length cache < max_entries
      → length (insert k v cache) ≤ max_entries
  insert-length-le k v cache h = ground (arith, length-insert k v cache)

-- What reaches the cache: a request, or an event of the response to a forwarded one.
pub data Arrival (Headers Params Body : Type 0) : Type 0 where
  request : Request Headers Params → ℕ → Arrival Headers Params Body
  event : Fetch → HttpEvent Headers Body → Arrival Headers Params Body

module _ (maps : HttpMaps) {Body : Type 0} where
  open maps use {Headers, Params}

  unfoldable pub arrive :
      Arrival Headers Params Body → Dict (CacheEntry Body) → Dict (CacheEntry Body)
  arrive (request req now) cache = (intercept maps req now cache).0
  arrive (event f e) cache = received maps f e cache

  unfoldable pub run :
      List (Arrival Headers Params Body) → Dict (CacheEntry Body) → Dict (CacheEntry Body)
  run [] cache = cache
  run (a ∷ as') cache = run as' (arrive a cache)

  read-length-le :
      (key : String) (now : ℕ) (cache : Dict (CacheEntry Body))
      → length (read key now cache).0 ≤ length cache
  unfolding read
  read-length-le key now cache = elim (Option-cases (lookup key cache)) [
    | inl e ↦ rw (e, read) (omega arith)
    | inr (hit, e) ↦ ground (
      arith,
      e,
      length-insert key (record hit { last_read_at = now }) cache,
      length-remove-le key cache,
    )
  ]

  arrive-length :
      (a : Arrival Headers Params Body) (cache : Dict (CacheEntry Body))
      → length cache ≤ max_entries
      → length (arrive a cache) ≤ max_entries
  unfolding arrive intercept received
  arrive-length (request req now) cache h =
      ground (arith, read-length-le (request_key maps req) now cache)
  arrive-length (event f progress) cache h = h
  arrive-length (event f (response r)) cache h =
      elim (Bool-cases (ltb r.status 200 || leb 300 r.status)) [
        | inl failed ↦ rw failed h
        | inr done ↦ rw done (insert-length-le f.key _ _ (evict-length cache h))
      ]

  run-length-le :
      (as' : List (Arrival Headers Params Body)) (cache : Dict (CacheEntry Body))
      → length cache ≤ max_entries
      → length (run as' cache) ≤ max_entries
  unfolding run
  run-length-le [] cache h = h
  run-length-le (a ∷ as') cache h = run-length-le as' (arrive a cache) (arrive-length a cache h)

  -- Started empty, the cache holds at most 200 entries after any sequence of requests and
  -- responses, in any order and at any times.
  pub run-le-max_entries :
      (as' : List (Arrival Headers Params Body)) → length (run as' []) ≤ max_entries
  run-le-max_entries as' = run-length-le as' [] (omega arith)
