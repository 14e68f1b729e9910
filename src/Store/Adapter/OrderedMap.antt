-- ===== src/Store/Adapter/OrderedMap.antt =====
-- The adapter against its contract: a list of entities, ordered, with one entity to an id.
use enterprise_platform.Common.{
  String, List, [], ◌∷◌, lookup, includes, ◌≡◌, refl, Bool-cases, inl, inr, sym, ◌∙◌, ap,
}
use enterprise_platform.Store.EntityState.{EntityDataState, in_order, all_entities}
use enterprise_platform.Store.Adapter
use enterprise_platform.Store.Adapter.{remove_each}
use enterprise_platform.Store.Adapter.Invariant.{
  IsNormalized, Call, upsert_one, upsert_many, remove_one, remove_many, set_all, clear_entities,
  IsProper, apply, apply-IsNormalized,
}
use enterprise_platform.Store.Adapter.Listing.{
  put, put_all, without, IsKeyed, filter-true, in_order-insert, IsNormalized-IsStored,
  in_order-remove_each, in_order-remove, without_absent, insert-IsKeyed, in_order-set_loop,
  set_loop-IsKeyed, upsert_loop-IsKeyed, in_order-upsert_loop, remove-IsKeyed, remove_each-IsKeyed,
}

module _ {T : Type 0} (id : T → String) where
  -- What a call does to the list.
  abbrev pub effect : Call T → List T → List T
  effect (upsert_one e) xs = put id e xs
  effect (upsert_many es) xs = put_all id es xs
  effect (remove_one k) xs = without id (k ∷ []) xs
  effect (remove_many ks) xs = without id ks xs
  effect (set_all es) xs = es
  effect clear_entities xs = []

  -- The state stands for the list.
  pub record Represents (s : EntityDataState T) (xs : List T) : Type 0 where
    pub normalized : IsNormalized s
    pub keyed : IsKeyed id s.entities
    pub view : all_entities s ≡ xs

  effect-view :
      (c : Call T) (s : EntityDataState T)
      → IsProper id c
      → IsNormalized s
      → IsKeyed id s.entities
      → all_entities (apply id c s) ≡ effect c (all_entities s)
  unfolding apply all_entities in_order Adapter.upsert_one Adapter.upsert_many Adapter.remove_one
      Adapter.remove_many Adapter.set_all Adapter.clear_entities remove_each
  effect-view (upsert_one e) s p n keyed =
      in_order-insert id e s.entities s.ids n.0 (IsNormalized-IsStored id s.entities s.ids n keyed)
  effect-view (upsert_many es) s p n keyed =
      in_order-upsert_loop id es s.ids s.ids s.entities (λ k. refl) n keyed
  effect-view (remove_one k) s p n keyed =
      let stored = IsNormalized-IsStored id s.entities s.ids n keyed in
      elim (Bool-cases (includes k s.ids)) [
        | inl there ↦ rw there (in_order-remove id k s.entities s.ids stored)
        | inr absent ↦ rw absent (sym (without_absent id k s.entities s.ids stored absent))
      ]
  effect-view (remove_many []) s p n keyed = sym (filter-true _)
  effect-view (remove_many (k ∷ ks)) s p n keyed =
      in_order-remove_each id (k ∷ ks) s.entities s.ids
        (IsNormalized-IsStored id s.entities s.ids n keyed)
  effect-view (set_all es) s p n keyed = in_order-set_loop id es [] [] p
  effect-view clear_entities s p n keyed = refl

  apply-IsKeyed :
      (c : Call T) (s : EntityDataState T)
      → IsKeyed id s.entities
      → IsKeyed id (apply id c s).entities
  unfolding apply Adapter.upsert_one Adapter.upsert_many Adapter.remove_one Adapter.remove_many
      Adapter.set_all Adapter.clear_entities lookup
  apply-IsKeyed (upsert_one e) s h = insert-IsKeyed id e s.entities h
  apply-IsKeyed (upsert_many es) s h = upsert_loop-IsKeyed id es s.ids s.ids s.entities h
  apply-IsKeyed (remove_one k) s h = elim (Bool-cases (includes k s.ids)) [
    | inl there ↦ rw there (remove-IsKeyed id k s.entities h)
    | inr absent ↦ rw absent h
  ]
  apply-IsKeyed (remove_many []) s h = h
  apply-IsKeyed (remove_many (k ∷ ks)) s h = remove_each-IsKeyed id (k ∷ ks) s.entities h
  apply-IsKeyed (set_all es) s h = set_loop-IsKeyed id es [] [] (λ k e q. cc)
  apply-IsKeyed clear_entities s h = λ k e q. cc

  pub run : List (Call T) → EntityDataState T → EntityDataState T
  run [] s = s
  run (c ∷ cs) s = run cs (apply id c s)

  pub effects : List (Call T) → List T → List T
  effects [] xs = xs
  effects (c ∷ cs) xs = effects cs (effect c xs)

  abbrev pub AllProper : List (Call T) → Type 0
  AllProper [] = Unit
  AllProper (c ∷ cs) = IsProper id c × AllProper cs

  -- After any sequence of the adapter's calls, in which every `setAll` is given entities with
  -- different ids, the state stands for the list that the same calls make of the list it stood
  -- for: upserts replace in place or append, removals keep the order, and ids and dictionary
  -- agree with no id listed twice.
  pub run-Represents :
      (cs : List (Call T)) (s : EntityDataState T) (xs : List T)
      → AllProper cs
      → Represents s xs
      → Represents (run cs s) (effects cs xs)
  unfolding run effects
  run-Represents [] s xs p r = r
  run-Represents (c ∷ cs) s xs (p, ps) r =
      run-Represents cs (apply id c s) (effect c xs) ps (record {
        normalized = apply-IsNormalized id c s p r.normalized;
        keyed = apply-IsKeyed c s r.keyed;
        view = effect-view c s p r.normalized r.keyed ∙ ap (effect c) r.view;
      })
