-- ===== src/Http/Keys.antt =====
-- core/interceptors: `cacheKey` of the cache and `key` of the dedup interceptor, which are the same
-- function of a request.
pub mod Queries
use Prim.Native.Char.{Char, code}
use Prim.Native.String
use Prim.Native.String.{compare}
use Prim.Native.Nat.{Ordering}
use enterprise_platform.Common.{
  ◌⊕◌, String, Bool, true, false, Option, List, [], ◌∷◌, map, if◌then◌else◌, get_or, nat_eq, ◌≡◌,
  refl, arith,
}
use enterprise_platform.Http.Types.{HttpMaps, Request}

-- `url.split('?')[0]`
unfoldable pub before_query : String → String
before_query String.[] = ""
before_query (String.◌∷◌ c s) = if nat_eq (code c) b'?' then "" else String.◌∷◌ c (before_query s)

-- `names.sort()`, by code points
abbrev precedes : String → String → Bool
precedes a b = elim (compare a b) [ Ordering.gt ↦ false | _ ↦ true ]

sorted_insert : String → List String → List String
sorted_insert a [] = a ∷ []
sorted_insert a (b ∷ bs) = if precedes a b then a ∷ b ∷ bs else b ∷ sorted_insert a bs

unfoldable pub sort : List String → List String
unfolding sorted_insert
sort [] = []
sort (a ∷ as') = sorted_insert a (sort as')

-- `parts.join('&')`
unfoldable pub join_amp : List String → String
join_amp [] = ""
join_amp (p ∷ []) = p
join_amp (p ∷ q ∷ ps) = p ⊕ "&" ⊕ join_amp (q ∷ ps)

module _ (maps : HttpMaps) where
  open maps use {Headers, Params, header, param_names, param}

  unfoldable pub request_key : Request Headers Params → String
  unfolding before_query sort join_amp
  request_key req =
      let accept = get_or (header "Accept" req.headers) "" in
      let params =
        join_amp
          (map (λ k. k ⊕ "=" ⊕ get_or (param k req.params) "") (sort (param_names req.params))) in
      req.method ⊕ "|" ⊕ before_query req.url_with_params ⊕ "|" ⊕ params ⊕ "|" ⊕ accept
