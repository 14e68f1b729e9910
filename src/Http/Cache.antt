-- ===== src/Http/Cache.antt =====
-- core/interceptors/cache.interceptor.ts: the TTL cache in front of the network. A request is
-- answered from the cache or forwarded; the response of a forwarded one comes back later, together
-- with what the closure of `tap` holds. An `expires_at` of `none` is the source's NaN.
pub mod Capacity
pub mod Headers
pub mod Keeping
pub mod Lifetime
pub mod Reads
use enterprise_platform.Common.{
  ℕ, ◌+◌, ◌*◌, String, Bool, true, false, not, ◌&&◌, ◌||◌, Option, none, some, List, [], ◌∷◌, map,
  Dict, lookup, insert, remove, if◌then◌else◌, ltb, leb, length, ◌==◌,
}
use enterprise_platform.Http.Types.{HttpMaps, Request, Response, HttpEvent, response, progress}
use enterprise_platform.Http.Numbers.{Parsed, not_a_number, natural, negative, parse_int}
use enterprise_platform.Http.Keys.{request_key}

abbrev pub ttl_header : String
ttl_header = "X-Cache-TTL"

abbrev pub skip_header : String
skip_header = "X-Skip-Cache"

abbrev pub max_entries : ℕ
max_entries = 200

pub record CacheEntry (Body : Type 0) : Type 0 where
  pub body : Body
  pub status : ℕ
  pub status_text : String
  pub headers : Dict String
  pub expires_at : Option ℕ
  pub last_read_at : ℕ

-- What `tap` closes over.
pub record Fetch : Type 0 where
  pub key : String
  pub now : ℕ
  pub ttl_seconds : Parsed

-- What becomes of a request.
pub data Verdict (Headers Params Body : Type 0) : Type 0 where
  forward : Request Headers Params → Verdict Headers Params Body
  serve : Response Headers Body → Verdict Headers Params Body
  fetch : Request Headers Params → Fetch → Verdict Headers Params Body

-- `ttlHeader ? Number.parseInt(ttlHeader, 10) : 0`: the empty text is falsy.
unfoldable pub ttl_of : Option String → Parsed
ttl_of none = natural 0
ttl_of (some text) = if text == "" then natural 0 else parse_int text

-- `ttlSeconds <= 0`, false of NaN
unfoldable pub opted_out : Parsed → Bool
opted_out not_a_number = false
opted_out (natural n) = leb n 0
opted_out (negative n) = true

-- `now + ttlSeconds * 1000`, where `ttlSeconds <= 0` is false
unfoldable pub expiry : ℕ → Parsed → Option ℕ
expiry now not_a_number = none
expiry now (natural n) = some (now + n * 1000)
expiry now (negative n) = none

-- `expiresAt > now`, false of NaN
unfoldable pub is_fresh : ℕ → Option ℕ → Bool
is_fresh now none = false
is_fresh now (some t) = ltb now t

-- `skip !== 'true'`
unfoldable pub may_read : Option String → Bool
may_read none = true
may_read (some text) = not (text == "true")

module _ {Body : Type 0} where
  -- The loop of `evictIfAtCap`: the key with the least `lastReadAt`, the first of them.
  unfoldable pub oldest : Option (String × ℕ) → Dict (CacheEntry Body) → Option (String × ℕ)
  oldest best [] = best
  oldest none ((k, v) ∷ rest) = oldest (some (k, v.last_read_at)) rest
  oldest (some (b, t)) ((k, v) ∷ rest) =
      oldest (if ltb v.last_read_at t then some (k, v.last_read_at) else some (b, t)) rest

  abbrev pub drop_key : Option (String × ℕ) → Dict (CacheEntry Body) → Dict (CacheEntry Body)
  drop_key none cache = cache
  drop_key (some (k, _)) cache = remove k cache

  unfoldable pub evict_if_at_cap : Dict (CacheEntry Body) → Dict (CacheEntry Body)
  unfolding oldest
  evict_if_at_cap cache =
      if ltb (length cache) max_entries then cache else drop_key (oldest none cache) cache

  -- The read of the cache for a request that may read it: the cache afterwards, and the entry.
  unfoldable pub read :
      String → ℕ → Dict (CacheEntry Body) → Dict (CacheEntry Body) × Option (CacheEntry Body)
  unfolding is_fresh
  read key now cache = elim (lookup key cache) [
    | none ↦ (cache, none)
    | some hit ↦
        if is_fresh now hit.expires_at
        then (insert key (record hit { last_read_at = now }) cache, some hit)
        else (remove key cache, none)
  ]

module _ (maps : HttpMaps) where
  open maps use {Headers, Params, header, delete_header}

  abbrev pub stripped : Request Headers Params → Request Headers Params
  stripped req = record req {
    headers = delete_header skip_header (delete_header ttl_header req.headers);
  }

  -- `for (const name of event.headers.keys()) { ... }`
  unfoldable pub copy_headers : Headers → List String → Dict String → Dict String
  copy_headers h [] d = d
  copy_headers h (n ∷ ns) d = elim (header n h) [
    | none ↦ copy_headers h ns d
    | some v ↦ copy_headers h ns (insert n v d)
  ]

module _ (maps : HttpMaps) {Body : Type 0} where
  open maps use {Headers, Params, header, has_header, header_names, headers_of}

  unfoldable pub materialize : CacheEntry Body → Response Headers Body
  materialize e = record {
    body = e.body;
    status = e.status;
    status_text = e.status_text;
    headers = headers_of e.headers;
  }

  unfoldable pub intercept :
      Request Headers Params
      → ℕ
      → Dict (CacheEntry Body)
      → Dict (CacheEntry Body) × Verdict Headers Params Body
  unfolding ttl_of opted_out may_read
  intercept req now cache =
      let marked = has_header ttl_header req.headers || has_header skip_header req.headers in
      let ttl = ttl_of (header ttl_header req.headers) in
      let key = request_key maps req in
      let miss = fetch (stripped maps req) (record { key = key; now = now; ttl_seconds = ttl }) in
      let (cache', hit) = read key now cache in
      if not (req.method == "GET")
      then (cache, forward (if marked then stripped maps req else req))
      else if opted_out ttl
      then (cache, forward (stripped maps req))
      else if may_read (header skip_header req.headers)
      then (cache', elim hit [ none ↦ miss | some entry ↦ serve (materialize entry) ])
      else (cache, miss)

  -- `tap`, for each event of a fetch.
  unfoldable pub received :
      Fetch → HttpEvent Headers Body → Dict (CacheEntry Body) → Dict (CacheEntry Body)
  unfolding expiry copy_headers evict_if_at_cap
  received f progress cache = cache
  received f (response r) cache =
      if ltb r.status 200 || leb 300 r.status
      then cache
      else insert f.key
          (record {
            body = r.body;
            status = r.status;
            status_text = r.status_text;
            headers = copy_headers maps r.headers (header_names r.headers) [];
            expires_at = expiry f.now f.ttl_seconds;
            last_read_at = f.now;
          })
          (evict_if_at_cap cache)
