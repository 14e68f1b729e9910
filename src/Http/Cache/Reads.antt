-- ===== src/Http/Cache/Reads.antt =====
-- What a request gets from the cache, and what leaves for the network.
use enterprise_platform.Common.{
  ℕ, ◌+◌, ◌*◌, ◌≤◌, ◌<◌, String, true, false, ◌||◌, Option, none, some, [], Dict, lookup, insert,
  remove, if◌then◌else◌, lower, ◌==◌, ◌≡◌, ◌≢◌, ◌⊎◌, arith, eq_iff, ltb-false_of_le,
  leb-false_of_lt, lt→ltb, Bool-cases, inl, inr, ◌∙◌, sym,
}
use enterprise_platform.Http.Types.{HttpMaps, Request, Response, response}
use enterprise_platform.Http.Numbers.{Parsed, natural}
use enterprise_platform.Http.Keys.{request_key}
use enterprise_platform.Http.Cache.{
  CacheEntry, Fetch, Verdict, forward, serve, fetch, ttl_header, skip_header, ttl_of, opted_out,
  expiry, is_fresh, may_read, evict_if_at_cap, read, stripped, copy_headers, materialize, intercept,
  received,
}

-- A GET that asks for caching and may read the cache.
pub record IsCacheable (maps : HttpMaps) (req : Request maps.Headers maps.Params) : Type 0 where
  pub get : req.method ≡ "GET"
  pub opted_in : opted_out (ttl_of (maps.header ttl_header req.headers)) ≡ false
  pub readable : may_read (maps.header skip_header req.headers) ≡ true

-- The request that leaves for the network, if one does.
abbrev pub sent_of :
    {Headers Params Body : Type 0} → Verdict Headers Params Body → Option (Request Headers Params)
sent_of (forward req) = some req
sent_of (serve r) = none
sent_of (fetch req f) = some req

ne_false : (m : String) → m ≢ "GET" → (m == "GET") ≡ false
ne_false m h = ground (arith, eq_iff m "GET")

get_true : (m : String) → m ≡ "GET" → (m == "GET") ≡ true
get_true m h = (eq_iff m "GET").1 h

module _ {Body : Type 0} where
  pub read_fresh :
      (key : String) (now : ℕ) (cache : Dict (CacheEntry Body)) (hit : CacheEntry Body)
      → lookup key cache ≡ some hit
      → is_fresh now hit.expires_at ≡ true
      → read key now cache ≡ (insert key (record hit { last_read_at = now }) cache, some hit)
  unfolding read
  read_fresh key now cache hit e fresh = rw (e, read, fresh)

  pub read_expired :
      (key : String) (now : ℕ) (cache : Dict (CacheEntry Body)) (hit : CacheEntry Body)
      → lookup key cache ≡ some hit
      → is_fresh now hit.expires_at ≡ false
      → read key now cache ≡ (remove key cache, none)
  unfolding read
  read_expired key now cache hit e stale = rw (e, read, stale)

pub is_fresh-expiry :
    (now n later : ℕ) (p : Parsed)
    → p ≡ natural n
    → (later < now + n * 1000 → is_fresh later (expiry now p) ≡ true)
      × (now + n * 1000 ≤ later → is_fresh later (expiry now p) ≡ false)
unfolding is_fresh expiry
is_fresh-expiry now n later p e = rw e (lt→ltb later _, ltb-false_of_le later _)

markers_differ : lower ttl_header ≢ lower skip_header
unfolding lower
markers_differ e = cc

module _ (maps : HttpMaps) where
  open maps use {Headers, Params, header, has_header, delete_header}

  stripped_clean :
      (req : Request Headers Params)
      → (header ttl_header (stripped maps req).headers ≡ none)
        × (header skip_header (stripped maps req).headers ≡ none)
  stripped_clean req = (
    maps.header-delete_other skip_header ttl_header _ (λ e. markers_differ (sym e))
        ∙ maps.header-delete_self ttl_header req.headers,
    maps.header-delete_self skip_header _,
  )

module _ (maps : HttpMaps) {Body : Type 0} where
  open maps use {Headers, Params, header, has_header, header_names, delete_header, headers_of}

  -- The entry that a response is kept as.
  abbrev pub entry_of : Fetch → Response Headers Body → CacheEntry Body
  entry_of f r = record {
    body = r.body;
    status = r.status;
    status_text = r.status_text;
    headers = copy_headers maps r.headers (header_names r.headers) [];
    expires_at = expiry f.now f.ttl_seconds;
    last_read_at = f.now;
  }

  pub received_ok :
      (f : Fetch) (r : Response Headers Body) (cache : Dict (CacheEntry Body))
      → 200 ≤ r.status
      → r.status < 300
      → received maps f (response r) cache ≡ insert f.key (entry_of f r) (evict_if_at_cap cache)
  unfolding received
  received_ok f r cache lo hi =
      rw (ltb-false_of_le r.status 200 lo, leb-false_of_lt 300 r.status hi)

  pub intercept_hit :
      (req : Request Headers Params) (now : ℕ) (cache cache' : Dict (CacheEntry Body))
      (hit : CacheEntry Body)
      → IsCacheable maps req
      → read (request_key maps req) now cache ≡ (cache', some hit)
      → intercept maps req now cache ≡ (cache', serve (materialize maps hit))
  unfolding intercept
  intercept_hit req now cache cache' hit c e =
      rw (get_true req.method c.get, c.opted_in, c.readable, e)

  pub intercept_miss :
      (req : Request Headers Params) (now : ℕ) (cache cache' : Dict (CacheEntry Body))
      → IsCacheable maps req
      → read (request_key maps req) now cache ≡ (cache', none)
      → intercept maps req now cache ≡ (
        cache',
        fetch (stripped maps req) (record {
          key = request_key maps req;
          now = now;
          ttl_seconds = ttl_of (header ttl_header req.headers);
        }),
      )
  unfolding intercept
  intercept_miss req now cache cache' c e =
      rw (get_true req.method c.get, c.opted_in, c.readable, e)

  -- A request that is no GET, or that asks for no caching, leaves the cache as it is and is not
  -- answered from it.
  pub intercept_bypass :
      (req : Request Headers Params) (now : ℕ) (cache : Dict (CacheEntry Body))
      → (req.method ≢ "GET") ⊎ (opted_out (ttl_of (header ttl_header req.headers)) ≡ true)
      → (sent : Request Headers Params) × (intercept maps req now cache ≡ (cache, forward sent))
  unfolding intercept
  intercept_bypass req now cache (inl other) = (
    if has_header ttl_header req.headers || has_header skip_header req.headers
        then stripped maps req
        else req,
    rw (ne_false req.method other),
  )
  intercept_bypass req now cache (inr out) = elim (Bool-cases (req.method == "GET")) [
    | inl get ↦ (stripped maps req, rw (get, out))
    | inr other ↦ (
      if has_header ttl_header req.headers || has_header skip_header req.headers
          then stripped maps req
          else req,
      rw other,
    )
  ]

  -- No request that leaves for the network carries one of the two marker headers, whatever its
  -- method and whatever the cache holds.
  pub intercept_sends_clean :
      (req sent : Request Headers Params) (now : ℕ) (cache : Dict (CacheEntry Body))
      → sent_of (intercept maps req now cache).1 ≡ some sent
      → (header ttl_header sent.headers ≡ none) × (header skip_header sent.headers ≡ none)
  unfolding intercept
  intercept_sends_clean req sent now cache h = ground (
    arith,
    stripped_clean maps req,
    maps.has_header_lem ttl_header req.headers,
    maps.has_header_lem skip_header req.headers,
  )
