-- ===== src/Http/Cache/Headers.antt =====
-- The headers of a response are those of the entry that it is kept as.
use enterprise_platform.Common.{
  String, Bool, true, false, ◌||◌, none, some, List, [], ◌∷◌, map, Dict, insert, includes,
  if◌then◌else◌, lower, ◌==◌, ◌≡◌, ◌≢◌, refl, arith, eq_iff, ap, ◌∙◌, sym, Bool-cases, Option-cases,
  inl, inr,
}
use enterprise_platform.Http.Types.{HttpMaps, header_in}
use enterprise_platform.Http.Cache.{copy_headers}

mentions : String → Dict String → Bool
mentions n [] = false
mentions n ((k, v) ∷ d) = lower k == lower n || mentions n d

mentions-insert :
    (n k v : String) (d : Dict String)
    → mentions n (insert k v d) ≡ (lower k == lower n || mentions n d)
unfolding mentions insert
mentions-insert n k v [] = refl
mentions-insert n k v ((i, w) ∷ d) = elim (Bool-cases (i == k)) [
  | inl e ↦ let same : i ≡ k = (eq_iff i k).0 e in ground (arith, ap lower same)
  | inr e ↦ ground (arith, mentions-insert n k v d)
]

module _ (maps : HttpMaps) where
  open maps use {Headers, header, header_names, headers_of}

  -- Every entry has the value of its header.
  AllTrue : Headers → Dict String → Type 0
  AllTrue h [] = Unit
  AllTrue h ((k, v) ∷ d) = (header k h ≡ some v) × AllTrue h d

  AllTrue-insert :
      (h : Headers) (k v : String) (d : Dict String)
      → header k h ≡ some v
      → AllTrue h d
      → AllTrue h (insert k v d)
  unfolding AllTrue insert
  AllTrue-insert h k v [] e t = (e, tt)
  AllTrue-insert h k v ((i, w) ∷ d) e (t, ts) = ground (arith, AllTrue-insert h k v d e ts)

  header_in-mentions :
      (n : String) (h : Headers) (d : Dict String)
      → AllTrue h d
      → header_in n d ≡ (if mentions n d then header n h else none)
  unfolding AllTrue mentions
  header_in-mentions n h [] t = refl
  header_in-mentions n h ((k, v) ∷ d) (t, ts) = elim (Bool-cases (lower k == lower n)) [
    | inl e ↦
        let value : header n h ≡ some v =
          maps.header-same n k h (sym ((eq_iff (lower k) (lower n)).0 e)) ∙ t in
        ground (arith, header_in-mentions n h d ts, value)
    | inr e ↦ ground (arith, header_in-mentions n h d ts)
  ]

  AllTrue-copy_headers :
      (h : Headers) (ns : List String) (d : Dict String)
      → AllTrue h d
      → AllTrue h (copy_headers maps h ns d)
  unfolding copy_headers
  AllTrue-copy_headers h [] d t = t
  AllTrue-copy_headers h (n ∷ ns) d t = elim (Option-cases (header n h)) [
    | inl e ↦ rw (e, copy_headers) (AllTrue-copy_headers h ns d t)
    | inr (v, e) ↦
        rw (e, copy_headers) (AllTrue-copy_headers h ns (insert n v d) (AllTrue-insert h n v d e t))
  ]

  differ :
      (m n v : String) (h : Headers) → header m h ≡ none → header n h ≡ some v → lower m ≢ lower n
  differ m n v h gone here same =
      let clash : none ≡ some v = sym gone ∙ maps.header-same m n h same ∙ here in cc

  mentions-copy_headers :
      (n v : String) (h : Headers) (ns : List String) (d : Dict String)
      → header n h ≡ some v
      → (includes (lower n) (map lower ns) || mentions n d) ≡ true
      → mentions n (copy_headers maps h ns d) ≡ true
  unfolding copy_headers
  mentions-copy_headers n v h [] d e there = there
  mentions-copy_headers n v h (m ∷ ms) d e there = elim (Option-cases (header m h)) [
    | inl gone ↦
        let other : (lower m == lower n) ≡ false =
          ground (arith, eq_iff (lower m) (lower n), differ m n v h gone e) in
        rw (gone, copy_headers) (mentions-copy_headers n v h ms d e (ground (arith, other)))
    | inr (w, kept) ↦
        rw (kept, copy_headers)
          (mentions-copy_headers n v h ms (insert m w d) e
            (ground (arith, mentions-insert n m w d)))
  ]

  -- A header that is asked for by any name has the value that it had in the response.
  pub header-copied :
      (n : String) (h : Headers)
      → header n (headers_of (copy_headers maps h (header_names h) [])) ≡ header n h
  unfolding AllTrue mentions
  header-copied n h =
      let d = copy_headers maps h (header_names h) [] in
      let read : header n (headers_of d) ≡ (if mentions n d then header n h else none) =
        maps.header-headers_of n d
        ∙ header_in-mentions n h d (AllTrue-copy_headers h (header_names h) [] tt) in
      elim (Option-cases (header n h)) [
        | inl gone ↦ ground (arith, read, gone)
        | inr (v, e) ↦
            let listed = maps.header_names_lem n v h e in
            ground (
              arith,
              read,
              mentions-copy_headers n v h (header_names h) [] e (ground (arith, listed)),
            )
      ]
