-- ===== src/Http/Cache/Keeping.antt =====
-- What a read, an eviction and a write of another key leave of an entry.
use enterprise_platform.Common.{
  ℕ, ◌<◌, String, true, false, none, some, Dict, lookup, insert, remove, lookup-insert,
  lookup-remove, ◌==◌, ◌≡◌, ◌≢◌, ◌⊎◌, refl, arith, eq_iff, ltb, length, ap, Bool-cases,
  Option-cases, inl, inr, ◌∙◌, sym, ltb→lt, ltb-false→le, lt→ltb,
}
use mathlib.Core.Option.{some-injective}
use enterprise_platform.Http.Cache.{CacheEntry, is_fresh, max_entries, evict_if_at_cap, read}
use enterprise_platform.Http.Cache.Capacity.{evict_if_at_cap_lem}
use enterprise_platform.Http.Cache.Reads.{read_fresh, read_expired}

module _ {Body : Type 0} where
  -- The cache has the entry, read at some time.
  abbrev pub Kept : String → CacheEntry Body → Dict (CacheEntry Body) → Type 0
  Kept key entry cache = (t : ℕ) × (lookup key cache ≡ some (record entry { last_read_at = t }))

  -- An entry of the key, if there is one, has this expiry.
  abbrev pub Expires : String → ℕ → Dict (CacheEntry Body) → Type 0
  Expires key deadline cache =
      (hit : CacheEntry Body) → lookup key cache ≡ some hit → hit.expires_at ≡ some deadline

  -- A read changes at most the entry that it reads: it notes the time, or drops what has expired.
  read-lookup :
      (key other : String) (now : ℕ) (cache : Dict (CacheEntry Body))
      → (lookup key (read other now cache).0 ≡ lookup key cache)
        ⊎ ((hit : CacheEntry Body) × (lookup key cache ≡ some hit)
            × (((is_fresh now hit.expires_at ≡ true)
                  × (lookup key (read other now cache).0
                      ≡ some (record hit { last_read_at = now })))
                ⊎ ((is_fresh now hit.expires_at ≡ false)
                    × (lookup key (read other now cache).0 ≡ none))))
  unfolding read
  read-lookup key other now cache = elim (Option-cases (lookup other cache)) [
    | inl e ↦ inl (rw (e, read) refl)
    | inr (hit, e) ↦ elim (Bool-cases (other == key)) [
      | inl same ↦
          let here : lookup key cache ≡ some hit =
            ap (λ k. lookup k cache) (sym ((eq_iff other key).0 same)) ∙ e in
          inr (
            hit,
            here,
            elim (Bool-cases (is_fresh now hit.expires_at)) [
              | inl fresh ↦ inl (
                fresh,
                ap (λ p. lookup key (p.0)) (read_fresh other now cache hit e fresh)
                    ∙ lookup-insert other key (record hit { last_read_at = now }) cache
                    ∙ rw same refl,
              )
              | inr stale ↦ inr (
                stale,
                ap (λ p. lookup key (p.0)) (read_expired other now cache hit e stale)
                    ∙ lookup-remove other key cache
                    ∙ rw same refl,
              )
            ],
          )
      | inr apart ↦ inl (elim (Bool-cases (is_fresh now hit.expires_at)) [
        | inl fresh ↦
            ap (λ p. lookup key (p.0)) (read_fresh other now cache hit e fresh)
            ∙ lookup-insert other key (record hit { last_read_at = now }) cache
            ∙ rw apart refl
        | inr stale ↦
            ap (λ p. lookup key (p.0)) (read_expired other now cache hit e stale)
            ∙ lookup-remove other key cache
            ∙ rw apart refl
      ])
    ]
  ]

  pub read-Kept :
      (key other : String) (now deadline : ℕ) (entry : CacheEntry Body)
      (cache : Dict (CacheEntry Body))
      → entry.expires_at ≡ some deadline
      → now < deadline
      → Kept key entry cache
      → Kept key entry (read other now cache).0
  unfolding is_fresh
  read-Kept key other now deadline entry cache e soon (t, held) =
      elim (read-lookup key other now cache) [
        | inl same ↦ (t, same ∙ held)
        | inr (hit, here, inl (fresh, after)) ↦
            let known : hit ≡ record entry { last_read_at = t } =
              some-injective hit (record entry { last_read_at = t }) (sym here ∙ held) in
            (
              now,
              after ∙ ap (λ (h : CacheEntry Body). some (record h { last_read_at = now })) known,
            )
        | inr (hit, here, inr (stale, after)) ↦
            let known : hit ≡ record entry { last_read_at = t } =
              some-injective hit (record entry { last_read_at = t }) (sym here ∙ held) in
            let at : hit.expires_at ≡ some deadline =
              ap (λ (h : CacheEntry Body). h.expires_at) known ∙ e in
            let fresh : is_fresh now hit.expires_at ≡ true =
              ap (is_fresh now) at ∙ lt→ltb now deadline soon in
            let clash : true ≡ false = sym fresh ∙ stale in cc
      ]

  pub read-Expires :
      (key other : String) (now deadline : ℕ) (cache : Dict (CacheEntry Body))
      → Expires key deadline cache
      → Expires key deadline (read other now cache).0
  read-Expires key other now deadline cache old hit' found =
      elim (read-lookup key other now cache) [
        | inl same ↦ old hit' (sym same ∙ found)
        | inr (hit, here, inl (fresh, after)) ↦
            ap (λ (h : CacheEntry Body). h.expires_at)
              (sym (some-injective (record hit { last_read_at = now }) hit' (sym after ∙ found)))
            ∙ old hit here
        | inr (hit, here, inr (stale, after)) ↦
            let clash : none ≡ some hit' = sym after ∙ found in cc
      ]

  pub evict-Expires :
      (key : String) (deadline : ℕ) (cache : Dict (CacheEntry Body))
      → Expires key deadline cache
      → Expires key deadline (evict_if_at_cap cache)
  evict-Expires key deadline cache old hit found =
      elim (Bool-cases (ltb (length cache) max_entries)) [
        | inl below ↦
            old hit
              (ap (lookup key) (sym ((evict_if_at_cap_lem cache).0 (ltb→lt _ _ below))) ∙ found)
        | inr full ↦
            let (k, t, e, held, since) = (evict_if_at_cap_lem cache).1 (ltb-false→le _ _ full) in
            let left : lookup key (remove k cache) ≡ some hit = ap (lookup key) (sym e) ∙ found in
            old hit (ground (arith, left, lookup-remove k key cache))
      ]

  pub insert-Kept :
      (key : String) (entry : CacheEntry Body) (other : String) (new : CacheEntry Body)
      (cache : Dict (CacheEntry Body))
      → other ≢ key
      → length cache < max_entries
      → Kept key entry cache
      → Kept key entry (insert other new (evict_if_at_cap cache))
  insert-Kept key entry other new cache apart room (t, held) = (
    t,
    ap (λ d. lookup key (insert other new d)) ((evict_if_at_cap_lem cache).0 room)
        ∙ ground (arith, held, lookup-insert other key new cache, eq_iff other key),
  )

  pub insert-Expires :
      (key : String) (deadline : ℕ) (other : String) (new : CacheEntry Body)
      (cache : Dict (CacheEntry Body))
      → other ≢ key
      → Expires key deadline cache
      → Expires key deadline (insert other new cache)
  insert-Expires key deadline other new cache apart old hit found =
      old hit (ground (arith, found, lookup-insert other key new cache, eq_iff other key))

  pub read_absent :
      (key : String) (now : ℕ) (cache : Dict (CacheEntry Body))
      → lookup key cache ≡ none
      → read key now cache ≡ (cache, none)
  unfolding read
  read_absent key now cache gone = rw (gone, read) refl
