-- ===== src/Http/Keys/Queries.antt =====
-- The part of the URL that the key leaves out.
use text.Mathlib.TextLemmas.{nil-append, cons-append}
use enterprise_platform.Common.{String, ◌≡◌, ap}
use enterprise_platform.Http.Types.{HttpMaps, Request}
use enterprise_platform.Common.{◌⊕◌}
use enterprise_platform.Http.Keys.{before_query, request_key}

before_query_mark : (query : String) → before_query ("?" ⊕ query) ≡ ""
unfolding before_query
before_query_mark query = ap before_query (cons-append "?" "" query)

before_query-append :
    (base query : String) → before_query (base ⊕ "?" ⊕ query) ≡ before_query (base ⊕ "?")
unfolding before_query
before_query-append String.[] query =
    rw (nil-append ("?" ⊕ query), nil-append "?") (before_query_mark query)
before_query-append (String.◌∷◌ c base) query =
    rw (cons-append c base ("?" ⊕ query), cons-append c base "?", before_query-append base query)

-- Two requests that differ in nothing but what their URLs carry behind a question mark have the
-- same key, whatever the two query texts are.
pub request_key-query :
    (maps : HttpMaps) (req : Request maps.Headers maps.Params) (base query query' : String)
    → request_key maps (record req { url_with_params = base ⊕ "?" ⊕ query })
      ≡ request_key maps (record req { url_with_params = base ⊕ "?" ⊕ query' })
unfolding request_key
request_key-query maps req base query query' =
    rw (before_query-append base query, before_query-append base query')
