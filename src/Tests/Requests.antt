-- ===== src/Tests/Requests.antt =====
-- Concrete requests through the cache, over header maps that are association lists.
use enterprise_platform.Common.{
  differ, if◌then◌else◌, ◌==◌, includes, Option-cases, inl, inr, true, is_some, length, Dict,
  lookup, insert, remove, lower, ◌+◌, ◌*◌, ◌≤◌, ◌<◌, String, ◌≡◌, refl, ◌≢◌, none, some, List, [],
  ◌∷◌, map, arith, eq_iff,
}
use enterprise_platform.Http.Types.{HttpMaps, header_in, Request, Response, response}
use enterprise_platform.Http.Numbers.{natural, parse_int}
use enterprise_platform.Http.Keys.{before_query, sort, join_amp, request_key}
use enterprise_platform.Http.Cache.{
  ttl_header, max_entries, CacheEntry, Fetch, serve, fetch, ttl_of, opted_out, may_read, stripped,
  read, intercept, received,
}
use enterprise_platform.Http.Cache.Capacity.{
  arrive, Arrival, request, event, run, run-le-max_entries,
}
use enterprise_platform.Http.Cache.Lifetime.{Spares, intercept-run-received}
use enterprise_platform.Http.Cache.Reads.{IsCacheable}

abbrev without : String → Dict String → Dict String
without n [] = []
without n ((k, v) ∷ d) = if lower k == lower n then without n d else (k, v) ∷ without n d

header_in-without : (n : String) (h : Dict String) → header_in n (without n h) ≡ none
header_in-without n [] = refl
header_in-without n ((k, v) ∷ d) = ground (arith, header_in-without n d)

header_in-without_other :
    (n m : String) (h : Dict String) → lower n ≢ lower m → header_in m (without n h) ≡ header_in m h
header_in-without_other n m [] other = refl
header_in-without_other n m ((k, v) ∷ d) other = ground (
  arith,
  header_in-without_other n m d other,
  eq_iff (lower k) (lower n),
  eq_iff (lower k) (lower m),
)

header_in-same :
    (n m : String) (h : Dict String) → lower n ≡ lower m → header_in n h ≡ header_in m h
header_in-same n m [] e = refl
header_in-same n m ((k, v) ∷ d) e = ground (arith, header_in-same n m d e, e)

header_in-listed :
    (n v : String) (h : Dict String)
    → header_in n h ≡ some v
    → includes (lower n) (map lower (map (λ e. e.0) h)) ≡ true
header_in-listed n v [] e = cc
header_in-listed n v ((k, w) ∷ d) e = elim (Option-cases (header_in n d)) [
  | inl gone ↦ ground (arith, gone, e)
  | inr (u, found) ↦ ground (arith, header_in-listed n u d found)
]

abbrev list_maps : HttpMaps
list_maps = record {
  Headers = Dict String;
  Params = Dict String;
  header = header_in;
  has_header = λ n h. is_some (header_in n h);
  header_names = λ h. map (λ e. e.0) h;
  delete_header = without;
  headers_of = λ d. d;
  param_names = λ p. map (λ e. e.0) p;
  param = lookup;
  has_header_lem = λ n h. refl;
  header-delete_self = header_in-without;
  header-delete_other = header_in-without_other;
  header-same = header_in-same;
  header-headers_of = λ n d. refl;
  header_names_lem = header_in-listed;
}

abbrev roles_request : Request (Dict String) (Dict String)
roles_request = record {
  method = "GET";
  url_with_params = "/api/roles";
  params = [];
  headers = ("x-cache-ttl", "60") ∷ [];
}

abbrev saved_request : Request (Dict String) (Dict String)
saved_request = record roles_request { method = "POST" }

abbrev roles_response : Response (Dict String) String
roles_response = record {
  body = "roles";
  status = 200;
  status_text = "OK";
  headers = ("etag", "1") ∷ [];
}

abbrev roles_fetch : Fetch
roles_fetch = record { key = "GET|/api/roles||"; now = 1000; ttl_seconds = natural 60 }

abbrev roles_cache : Dict (CacheEntry String)
roles_cache =
    (
      "GET|/api/users||",
      record {
        body = "users";
        status = 200;
        status_text = "OK";
        headers = [];
        expires_at = some 5000;
        last_read_at = 10;
      },
    )
    ∷ []

abbrev arrivals : List (Arrival (Dict String) (Dict String) String)
arrivals =
    request roles_request 1000
    ∷ event roles_fetch (response roles_response)
    ∷ request roles_request 2000
    ∷ []

roles_request-IsCacheable : IsCacheable list_maps roles_request
unfolding lookup lower opted_out ttl_of may_read parse_int
roles_request-IsCacheable = record { get = refl; opted_in = refl; readable = refl }

run-le-max_entries_example : length (run list_maps arrivals []) ≤ max_entries
run-le-max_entries_example = run-le-max_entries list_maps arrivals

abbrev users_fetch : Fetch
users_fetch = record { key = "GET|/api/users||"; now = 2000; ttl_seconds = natural 10 }

abbrev in_between : List (Arrival (Dict String) (Dict String) String)
in_between = request roles_request 2000 ∷ event users_fetch (response roles_response) ∷ []

in_between-Spares :
    Spares list_maps
      (1000 + 60 * 1000)
      in_between
      (received list_maps roles_fetch (response roles_response) roles_cache)
unfolding lookup lower request_key before_query sort join_amp run intercept received arrive
    parse_int read insert
in_between-Spares = (omega arith, (omega arith, tt))

intercept-run-received_example :
    let cache1 = received list_maps roles_fetch (response roles_response) roles_cache in
    let cache' = run list_maps in_between cache1 in
    (Spares list_maps (1000 + 60 * 1000) in_between cache1
      → 30000 < 1000 + 60 * 1000
      → (served : Response (Dict String) String) × ((intercept list_maps roles_request 30000
            cache').1
          ≡ serve served)
        × (served.body ≡ "roles")
        × (served.status ≡ 200)
        × (served.status_text ≡ "OK")
        × ((name : String) → header_in name served.headers ≡ header_in name roles_response.headers))
    × (1000 + 60 * 1000 ≤ 30000
        → intercept list_maps roles_request 30000 cache' ≡ (
          remove roles_fetch.key cache',
          fetch (stripped list_maps roles_request) (record {
            key = roles_fetch.key;
            now = 30000;
            ttl_seconds = ttl_of (header_in ttl_header roles_request.headers);
          }),
        ))
unfolding lookup lower request_key before_query sort join_amp
intercept-run-received_example =
    intercept-run-received list_maps roles_fetch 60 roles_response roles_request 30000 in_between
      roles_cache refl (omega arith) (omega arith) roles_request-IsCacheable refl
      (differ users_fetch.key roles_fetch.key refl, tt)
