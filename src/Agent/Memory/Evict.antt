-- ===== src/Agent/Memory/Evict.antt =====
-- _evict_item (protoprompt/agent/working.py): what leaves the hot set, and where it goes.
use protoprompt.Prelude.{
  ℕ, ◌≡◌, refl, sym, inl, inr, true, none, some, Text, text_eq, text_eqb, arith, Option-cases, ok,
}
use protoprompt.Dict
use protoprompt.Dict.{Dict}
use protoprompt.Dict.Laws.{remove_absent}
use protoprompt.Value.{Metadata}
use protoprompt.Scope.{MemoryScope, scoped_metadata, logical_doc_id_key}
use protoprompt.Scope.Fresh.{NoScopeKey, scoped_metadata-fresh}
use protoprompt.Agent.Item.{MemoryItem, summary_or_label, lineage_or_id}
use protoprompt.Agent.Memory.{
  Config, Memory, store_cold, evict_found, evict_item, take_out, cold_metadata, cold_logical_doc_id,
}

module _ {Vec S : Type 0} (c : Config Vec S) where
  -- Writing the cold copy changes nothing but the store.
  pub store_cold-items :
      (i : MemoryItem Vec) (reason : Text) (s : Memory Vec)
      → ((store_cold c i reason s).1.items ≡ s.items)
        × ((store_cold c i reason s).1.step ≡ s.step)
        × ((store_cold c i reason s).1.goal ≡ s.goal)
  unfolding store_cold
  store_cold-items i reason s = ground arith

  evict_found-items :
      (i : MemoryItem Vec) (reason : Text) (s : Memory Vec)
      → ((evict_found c i reason s).1.items ≡ s.items)
        × ((evict_found c i reason s).1.step ≡ s.step)
        × ((evict_found c i reason s).1.goal ≡ s.goal)
  unfolding evict_found
  evict_found-items i reason s = ground (arith, store_cold-items i reason s)

  -- Whatever happens, an eviction takes the id out of the hot set and leaves the other items alone.
  pub items-evict_item :
      (id reason : Text) (s : Memory Vec)
      → (evict_item c id reason s).1.items ≡ Dict.remove id s.items
  unfolding evict_item
  items-evict_item id reason s = elim (Option-cases (Dict.get id s.items)) [
    | inl absent ↦ rw (absent, evict_item) (sym (remove_absent id s.items absent))
    | inr (i, found) ↦ rw (found, evict_item) (evict_found-items i reason (take_out id s)).0
  ]

  pub clock-evict_item :
      (id reason : Text) (s : Memory Vec)
      → ((evict_item c id reason s).1.step ≡ s.step) × ((evict_item c id reason s).1.goal ≡ s.goal)
  unfolding evict_item
  clock-evict_item id reason s = elim (Option-cases (Dict.get id s.items)) [
    | inl absent ↦ rw (absent, evict_item) (refl, refl)
    | inr (i, found) ↦
        let same = evict_found-items i reason (take_out id s) in
        rw (found, evict_item) (same.1, same.2)
  ]

  cold_metadata-fresh :
      (i : MemoryItem Vec) (summary : Text) (now : ℕ) (reason : Text) (t : MemoryScope)
      → NoScopeKey t (cold_metadata c i summary now reason)
  unfolding cold_metadata Dict.get text_eqb
  cold_metadata-fresh i summary now reason t = (refl, (refl, (refl, (refl, tt))))

  cold_metadata-no_logical :
      (i : MemoryItem Vec) (summary : Text) (now : ℕ) (reason : Text)
      → Dict.get logical_doc_id_key (cold_metadata c i summary now reason) ≡ none
  unfolding cold_metadata Dict.get text_eqb
  cold_metadata-no_logical i summary now reason = refl

  -- The metadata that the cold copy is stored with
  pub cold_meta :
      (i : MemoryItem Vec) (summary : Text) (now : ℕ) (reason : Text)
      → (meta : Metadata) × (scoped_metadata c.scope
            (cold_metadata c i summary now reason)
            (some (cold_logical_doc_id c (lineage_or_id i)))
          ≡ ok meta)
  cold_meta i summary now reason =
      scoped_metadata-fresh c.scope _ _ (cold_metadata-fresh i summary now reason)
        (cold_metadata-no_logical i summary now reason)

  store_cold-ok :
      (i : MemoryItem Vec) (reason summary : Text) (s : Memory Vec)
      → summary_or_label i ≡ ok summary
      → (store_cold c i reason s).0 ≡ ok tt
  unfolding store_cold
  store_cold-ok i reason summary s h = elim (Option-cases s.store) [
    | inl none_there ↦ rw (none_there, store_cold)
    | inr (store, there) ↦
        rw (there, store_cold) (rw (h, (cold_meta i summary s.step reason).1) refl)
  ]

  evict_found-ok :
      (i : MemoryItem Vec) (reason summary : Text) (s : Memory Vec)
      → summary_or_label i ≡ ok summary
      → (evict_found c i reason s).0 ≡ ok true
  unfolding evict_found
  evict_found-ok i reason summary s h = ground (arith, store_cold-ok i reason summary s, h)

  -- An item that is there and has a summary or a label is evicted: the call returns True.
  pub evict_item-ok :
      (id reason summary : Text) (s : Memory Vec) (i : MemoryItem Vec)
      → Dict.get id s.items ≡ some i
      → summary_or_label i ≡ ok summary
      → (evict_item c id reason s).0 ≡ ok true
  unfolding evict_item
  evict_item-ok id reason summary s i found h =
      rw (found, evict_item) (evict_found-ok i reason summary (take_out id s) h)
