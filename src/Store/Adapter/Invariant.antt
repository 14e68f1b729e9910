-- ===== src/Store/Adapter/Invariant.antt =====
-- The normalised pair of ids and entities under every mutator of the adapter.
use enterprise_platform.Common.{
  String, false, none, List, [], ◌∷◌, ◌++◌, map, Dict, lookup, insert, remove, if◌then◌else◌,
  includes, exclude, exclude_all, IsDistinct, is_some, ◌≡◌, refl, arith, eq_iff, includes-append,
  includes-exclude, includes-exclude_all, exclude-IsDistinct, exclude_all-IsDistinct,
  concat-IsDistinct, lookup-insert, lookup-remove, append-nil, append_assoc, Bool-cases, inl, inr,
  sym, ◌∙◌,
}
use enterprise_platform.Store.EntityState.{EntityDataState}
use enterprise_platform.Store.Adapter
use enterprise_platform.Store.Adapter.{upsert_loop, set_loop, remove_each}

-- No id is listed twice, and the ids are exactly the keys of the dictionary.
abbrev pub IsNormal : {T : Type 0} → List String → Dict T → Type 0
IsNormal ids d = IsDistinct ids × ((k : String) → includes k ids ≡ is_some (lookup k d))

abbrev pub IsNormalized : {T : Type 0} → EntityDataState T → Type 0
IsNormalized s = IsNormal s.ids s.entities

-- A call of one of the adapter's mutators.
pub data Call (T : Type 0) : Type 0 where
  upsert_one : T → Call T
  upsert_many : List T → Call T
  remove_one : String → Call T
  remove_many : List String → Call T
  set_all : List T → Call T
  clear_entities : Call T

pub middle_absent :
    (ids : List String) (k : String) (more : List String)
    → IsDistinct (ids ++ k ∷ more)
    → includes k ids ≡ false
middle_absent [] k more h = refl
middle_absent (x ∷ ids) k more (fresh, h) =
    ground
      (arith, middle_absent ids k more h, includes-append x ids (k ∷ more), eq_iff x k, eq_iff k x)

module _ {T : Type 0} where
  pub insert-IsNormal :
      (k : String) (e : T) (ids : List String) (d : Dict T)
      → IsNormal ids d
      → IsNormal (if includes k ids then ids else ids ++ k ∷ []) (insert k e d)
  insert-IsNormal k e ids d (distinct, same) = (
    ground (arith, concat-IsDistinct k ids distinct),
    λ j.
        ground (
          arith,
          lookup-insert k j e d,
          includes-append j ids (k ∷ []),
          same j,
          same k,
          eq_iff k j,
        ),
  )

  remove-IsNormal :
      (k : String) (ids : List String) (d : Dict T)
      → IsNormal ids d
      → IsNormal (exclude k ids) (remove k d)
  remove-IsNormal k ids d (distinct, same) = (
    exclude-IsDistinct k ids distinct,
    λ j. ground (arith, lookup-remove k j d, includes-exclude j k ids, same j),
  )

  pub lookup-remove_each :
      (ks : List String) (j : String) (d : Dict T)
      → lookup j (remove_each ks d) ≡ (if includes j ks then none else lookup j d)
  unfolding remove_each
  lookup-remove_each [] j d = refl
  lookup-remove_each (k ∷ ks) j d =
      ground (arith, lookup-remove_each ks j (remove k d), lookup-remove k j d)

  remove_each-IsNormal :
      (ks ids : List String) (d : Dict T)
      → IsNormal ids d
      → IsNormal (exclude_all ks ids) (remove_each ks d)
  remove_each-IsNormal ks ids d (distinct, same) = (
    exclude_all-IsDistinct ks ids distinct,
    λ j. ground (arith, lookup-remove_each ks j d, includes-exclude_all j ks ids, same j),
  )

module _ {T : Type 0} (id : T → String) where
  upsert_loop-IsNormal :
      (es : List T) (id_set ids : List String) (d : Dict T)
      → ((k : String) → includes k id_set ≡ includes k ids)
      → IsNormal ids d
      → IsNormal (upsert_loop id id_set ids d es).0 (upsert_loop id id_set ids d es).1
  unfolding upsert_loop
  upsert_loop-IsNormal [] id_set ids d agree h = h
  upsert_loop-IsNormal (e ∷ es) id_set ids d agree h =
      upsert_loop-IsNormal es _ _ _
        (λ k. ground (arith, agree k, agree (id e), includes-append k ids (id e ∷ [])))
        (rw (agree (id e)) (insert-IsNormal (id e) e ids d h))

  -- The ids that `setAll` lists are those of its input, in order.
  pub set_loop_ids :
      (es : List T) (ids : List String) (d : Dict T) → (set_loop id ids d es).0 ≡ ids ++ map id es
  unfolding set_loop
  set_loop_ids [] ids d = sym (append-nil ids)
  set_loop_ids (e ∷ es) ids d =
      set_loop_ids es (ids ++ id e ∷ []) (insert (id e) e d)
      ∙ append_assoc ids (id e ∷ []) (map id es)

  set_loop-IsNormal :
      (es : List T) (ids : List String) (d : Dict T)
      → IsNormal ids d
      → IsDistinct (ids ++ map id es)
      → IsNormal (set_loop id ids d es).0 (set_loop id ids d es).1
  unfolding set_loop
  set_loop-IsNormal [] ids d h fresh = h
  set_loop-IsNormal (e ∷ es) ids d h fresh =
      let new = middle_absent ids (id e) (map id es) fresh in
      set_loop-IsNormal es (ids ++ id e ∷ []) (insert (id e) e d)
        (rw new at (insert-IsNormal (id e) e ids d h))
        (rw (append_assoc ids (id e ∷ []) (map id es)) fresh)

  -- `set_all` is called with entities whose ids differ.
  abbrev pub IsProper : Call T → Type 0
  IsProper (set_all es) = IsDistinct (map id es)
  IsProper _ = Unit

  unfoldable pub apply : Call T → EntityDataState T → EntityDataState T
  apply (upsert_one e) = Adapter.upsert_one id e
  apply (upsert_many es) = Adapter.upsert_many id es
  apply (remove_one k) = Adapter.remove_one k
  apply (remove_many ks) = Adapter.remove_many ks
  apply (set_all es) = Adapter.set_all id es
  apply clear_entities = Adapter.clear_entities

  pub apply-IsNormalized :
      (c : Call T) (s : EntityDataState T) → IsProper c → IsNormalized s → IsNormalized (apply c s)
  unfolding apply Adapter.upsert_one Adapter.upsert_many Adapter.remove_one Adapter.remove_many
      Adapter.set_all Adapter.clear_entities lookup
  apply-IsNormalized (upsert_one e) s p h = insert-IsNormal (id e) e s.ids s.entities h
  apply-IsNormalized (upsert_many es) s p h =
      upsert_loop-IsNormal es s.ids s.ids s.entities (λ k. refl) h
  apply-IsNormalized (remove_one k) s p h = elim (Bool-cases (includes k s.ids)) [
    | inl there ↦ rw there (remove-IsNormal k s.ids s.entities h)
    | inr absent ↦ rw absent h
  ]
  apply-IsNormalized (remove_many []) s p h = h
  apply-IsNormalized (remove_many (k ∷ ks)) s p h = remove_each-IsNormal (k ∷ ks) s.ids s.entities h
  apply-IsNormalized (set_all es) s p h = set_loop-IsNormal es [] [] (tt, λ k. refl) p
  apply-IsNormalized clear_entities s p h = (tt, λ k. refl)
