-- ===== src/Store/Adapter/Listing.antt =====
-- The list of entities behind the ids and the dictionary, under each change of the pair.
use enterprise_platform.Common.{
  String, true, false, some, List, [], ◌∷◌, ◌++◌, map, Dict, lookup, insert, remove, if◌then◌else◌,
  includes, exclude, exclude_all, IsDistinct, ◌≡◌, refl, arith, eq_iff, eq_refl, includes-append,
  lookup-insert, lookup-remove, Option-cases, inl, inr, ◌==◌, sym, ◌∙◌, append-nil, append_assoc,
  not, ap, filter,
}
use enterprise_platform.Store.EntityState.{in_order}
use enterprise_platform.Store.Adapter.{upsert_loop, set_loop, remove_each}
use enterprise_platform.Store.Adapter.Invariant.{
  IsNormal, lookup-remove_each, insert-IsNormal, middle_absent,
}

module _ {T : Type 0} where
  pub filter-true : (xs : List T) → filter (λ x. true) xs ≡ xs
  filter-true [] = refl
  filter-true (x ∷ xs) = ap (◌∷◌ x) (filter-true xs)

  in_order-append :
      (d : Dict T) (xs ys : List String) → in_order d (xs ++ ys) ≡ in_order d xs ++ in_order d ys
  unfolding in_order
  in_order-append d [] ys = refl
  in_order-append d (x ∷ xs) ys = ground (arith, in_order-append d xs ys)

  pub in_order-insert_absent :
      (k : String) (e : T) (d : Dict T) (ids : List String)
      → includes k ids ≡ false
      → in_order (insert k e d) ids ≡ in_order d ids
  unfolding in_order
  in_order-insert_absent k e d [] h = refl
  in_order-insert_absent k e d (x ∷ ids) h =
      ground
        (arith, in_order-insert_absent k e d ids, lookup-insert k x e d, eq_iff k x, eq_iff x k)

module _ {T : Type 0} (id : T → String) where
  -- Replaces the entity with the same id where it stands, or adds it at the end.
  unfoldable pub put : T → List T → List T
  put e [] = e ∷ []
  put e (x ∷ xs) = if id x == id e then e ∷ xs else x ∷ put e xs

  unfoldable pub put_all : List T → List T → List T
  put_all [] xs = xs
  put_all (e ∷ es) xs = put_all es (put e xs)

  -- Leaves out the entities with the given ids, and keeps the order of the others.
  abbrev pub without : List String → List T → List T
  without ks = filter (λ x. not (includes (id x) ks))

  abbrev pub IsKeyed : Dict T → Type 0
  IsKeyed d = (k : String) (e : T) → lookup k d ≡ some e → id e ≡ k

  -- Every listed id has its entity.
  abbrev pub IsStored : Dict T → List String → Type 0
  IsStored d ids =
      (k : String) → includes k ids ≡ true → (e : T) × (lookup k d ≡ some e) × (id e ≡ k)

  pub IsNormalized-IsStored :
      (d : Dict T) (ids : List String) → IsNormal ids d → IsKeyed d → IsStored d ids
  IsNormalized-IsStored d ids (distinct, same) keyed k h = elim (Option-cases (lookup k d)) [
    | inl missing ↦ absurd (ground (arith, same k))
    | inr (e, found) ↦ (e, found, keyed k e found)
  ]

  pub in_order-insert :
      (e : T) (d : Dict T) (ids : List String)
      → IsDistinct ids
      → IsStored d ids
      → in_order (insert (id e) e d) (if includes (id e) ids then ids else ids ++ id e ∷ [])
        ≡ put e (in_order d ids)
  unfolding in_order put
  in_order-insert e d [] distinct stored =
      ground (arith, lookup-insert (id e) (id e) e d, eq_refl (id e))
  in_order-insert e d (x ∷ ids) (fresh, distinct) stored =
      let (v, found, same) = stored x (rw (eq_refl x)) in
      ground (
        arith,
        found,
        same,
        in_order-insert e d ids distinct (λ k h. stored k (ground arith)),
        in_order-insert_absent (id e) e d ids,
        lookup-insert (id e) x e d,
        eq_iff x (id e),
        eq_iff (id e) x,
      )

  pub in_order-remove_each :
      (ks : List String) (d : Dict T) (ids : List String)
      → IsStored d ids
      → in_order (remove_each ks d) (exclude_all ks ids) ≡ without ks (in_order d ids)
  unfolding in_order
  in_order-remove_each ks d [] stored = refl
  in_order-remove_each ks d (x ∷ ids) stored =
      let (v, found, same) = stored x (rw (eq_refl x)) in
      ground (
        arith,
        found,
        same,
        in_order-remove_each ks d ids (λ k h. stored k (ground arith)),
        lookup-remove_each ks x d,
      )

  pub in_order-remove :
      (k : String) (d : Dict T) (ids : List String)
      → IsStored d ids
      → in_order (remove k d) (exclude k ids) ≡ without (k ∷ []) (in_order d ids)
  unfolding in_order
  in_order-remove k d [] stored = refl
  in_order-remove k d (x ∷ ids) stored =
      let (v, found, same) = stored x (rw (eq_refl x)) in
      ground (
        arith,
        found,
        same,
        in_order-remove k d ids (λ j h. stored j (ground arith)),
        lookup-remove k x d,
        eq_iff k x,
        eq_iff x k,
      )

  pub without_absent :
      (k : String) (d : Dict T) (ids : List String)
      → IsStored d ids
      → includes k ids ≡ false
      → without (k ∷ []) (in_order d ids) ≡ in_order d ids
  unfolding in_order
  without_absent k d [] stored h = refl
  without_absent k d (x ∷ ids) stored h =
      let (v, found, same) = stored x (rw (eq_refl x)) in
      ground (
        arith,
        found,
        same,
        without_absent k d ids (λ j h. stored j (ground arith)),
        eq_iff k x,
        eq_iff x k,
      )

  pub insert-IsKeyed : (e : T) (d : Dict T) → IsKeyed d → IsKeyed (insert (id e) e d)
  insert-IsKeyed e d keyed k x h =
      ground (arith, lookup-insert (id e) k e d, keyed k x, eq_iff (id e) k)

  in_order-insert_new :
      (e : T) (d : Dict T) (ids : List String)
      → includes (id e) ids ≡ false
      → in_order (insert (id e) e d) (ids ++ id e ∷ []) ≡ in_order d ids ++ e ∷ []
  unfolding in_order
  in_order-insert_new e d ids h =
      let k = id e in
      in_order-append (insert k e d) ids (k ∷ [])
      ∙ ground (arith, in_order-insert_absent k e d ids h, lookup-insert k k e d, eq_refl k)

  pub in_order-set_loop :
      (es : List T) (ids : List String) (d : Dict T)
      → IsDistinct (ids ++ map id es)
      → in_order (set_loop id ids d es).1 (set_loop id ids d es).0 ≡ in_order d ids ++ es
  unfolding set_loop
  in_order-set_loop [] ids d fresh = sym (append-nil _)
  in_order-set_loop (e ∷ es) ids d fresh =
      let k = id e in
      in_order-set_loop es (ids ++ k ∷ []) (insert k e d)
        (rw (append_assoc ids (k ∷ []) (map id es)) fresh)
      ∙ ap (λ l. l ++ es) (in_order-insert_new e d ids (middle_absent ids k (map id es) fresh))
      ∙ append_assoc (in_order d ids) (e ∷ []) es

  pub set_loop-IsKeyed :
      (es : List T) (ids : List String) (d : Dict T) → IsKeyed d → IsKeyed (set_loop id ids d es).1
  unfolding set_loop
  set_loop-IsKeyed [] ids d keyed = keyed
  set_loop-IsKeyed (e ∷ es) ids d keyed = set_loop-IsKeyed es _ _ (insert-IsKeyed e d keyed)

  pub upsert_loop-IsKeyed :
      (es : List T) (id_set ids : List String) (d : Dict T)
      → IsKeyed d
      → IsKeyed (upsert_loop id id_set ids d es).1
  unfolding upsert_loop
  upsert_loop-IsKeyed [] id_set ids d keyed = keyed
  upsert_loop-IsKeyed (e ∷ es) id_set ids d keyed =
      upsert_loop-IsKeyed es _ _ _ (insert-IsKeyed e d keyed)

  pub in_order-upsert_loop :
      (es : List T) (id_set ids : List String) (d : Dict T)
      → ((k : String) → includes k id_set ≡ includes k ids)
      → IsNormal ids d
      → IsKeyed d
      → in_order (upsert_loop id id_set ids d es).1 (upsert_loop id id_set ids d es).0
        ≡ put_all es (in_order d ids)
  unfolding upsert_loop put_all
  in_order-upsert_loop [] id_set ids d agree h keyed = refl
  in_order-upsert_loop (e ∷ es) id_set ids d agree h keyed =
      in_order-upsert_loop es _ _ _
        (λ k. ground (arith, agree k, agree (id e), includes-append k ids (id e ∷ [])))
        (rw (agree (id e)) (insert-IsNormal (id e) e ids d h)) (insert-IsKeyed e d keyed)
      ∙ ap (put_all es)
          (rw (agree (id e)) (in_order-insert e d ids h.0 (IsNormalized-IsStored d ids h keyed)))

  pub remove-IsKeyed : (k : String) (d : Dict T) → IsKeyed d → IsKeyed (remove k d)
  remove-IsKeyed k d keyed j x h = ground (arith, lookup-remove k j d, keyed j x)

  pub remove_each-IsKeyed : (ks : List String) (d : Dict T) → IsKeyed d → IsKeyed (remove_each ks d)
  remove_each-IsKeyed ks d keyed j x h = ground (arith, lookup-remove_each ks j d, keyed j x)
