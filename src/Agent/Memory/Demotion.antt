-- ===== src/Agent/Memory/Demotion.antt =====
-- _evict_item and the cold store (protoprompt/agent/working.py).
use protoprompt.Prelude.{
  ◌≡◌, refl, ap, Option, none, some, [], ◌∷◌, ◌++◌, Text, text_eq, arith, ok, err, Error,
  index_error,
}
use protoprompt.PyText.{strip}
use protoprompt.Dict
use protoprompt.Dict.Laws.{get-remove_self}
use protoprompt.Value.{Metadata, str, int}
use protoprompt.Scope.{scoped_metadata, scoped_doc_id}
use protoprompt.Store
use protoprompt.Store.{InMemStore, doc_id_key, chunk_index_key}
use protoprompt.Store.Contents.{get-replace}
use protoprompt.Agent.Item.{MemoryItem, summary_or_label, split_first, lineage_or_id}
use protoprompt.Agent.Manifest.{record_entry}
use protoprompt.Agent.Memory.{
  Config, Memory, store_cold, evict_found, evict_item, take_out, entry_of, cold_metadata,
  cold_logical_doc_id, vector_or_none,
}
use protoprompt.Agent.Memory.Evict.{cold_meta, items-evict_item}

module _ {Vec S : Type 0} (c : Config Vec S) where
  -- Where the cold copy of an item lies
  abbrev pub cold_doc : MemoryItem Vec → Text
  cold_doc i = scoped_doc_id c.digest (cold_logical_doc_id c (lineage_or_id i)) c.scope

  -- What an eviction leaves behind: the text in the cold store, with the metadata that was made for
  -- it, and an entry at the end of the manifest.
  pub record Demoted (i : MemoryItem Vec) (summary reason : Text) (s s' : Memory Vec) : Type 0 where
    pub meta : Metadata
    pub store : InMemStore Vec
    pub stored : s'.store ≡ some store
    pub described :
        scoped_metadata c.scope
          (cold_metadata c i summary s.step reason)
          (some (cold_logical_doc_id c (lineage_or_id i)))
        ≡ ok meta
    pub fetched :
        Store.get store (cold_doc i)
        ≡ some
            (i.text, Dict.put doc_id_key (str (cold_doc i)) (Dict.put chunk_index_key (int 0) meta))
    pub listed : s'.manifest ≡ s.manifest ++ entry_of c i summary s.step ∷ []
    pub gone : Dict.get i.id s'.items ≡ none

  store_cold-lem :
      (i : MemoryItem Vec) (summary reason : Text) (s : Memory Vec) (store : InMemStore Vec)
      → s.store ≡ some store
      → summary_or_label i ≡ ok summary
      → store_cold c i reason s ≡ (
        ok tt,
        record s {
          store = some (
              Store.add
                (Store.delete store (cold_doc i))
                (cold_doc i)
                (i.text ∷ [])
                (vector_or_none c i.vector ∷ [])
                (cold_meta c i summary s.step reason).0);
        },
      )
  unfolding store_cold
  store_cold-lem i summary reason s store there h =
      rw (there, store_cold) (rw (h, (cold_meta c i summary s.step reason).1) refl)

  -- Evicting an item that has a summary or a label, with a cold store at hand, moves it there.
  pub evict_item-Demoted :
      (reason summary : Text) (s : Memory Vec) (i : MemoryItem Vec) (store : InMemStore Vec)
      → Dict.get i.id s.items ≡ some i
      → s.store ≡ some store
      → summary_or_label i ≡ ok summary
      → Demoted i summary reason s (evict_item c i.id reason s).1
  unfolding evict_item evict_found record_entry
  evict_item-Demoted reason summary s i store found there h =
      let meta = cold_meta c i summary s.step reason in
      let written = store_cold-lem i summary reason (take_out i.id s) store there h in
      record {
        meta = meta.0;
        store =
            Store.add (Store.delete store (cold_doc i)) (cold_doc i) (i.text ∷ [])
              (vector_or_none c i.vector ∷ []) meta.0;
        stored = rw (found, evict_item) (rw (written, h) refl);
        described = meta.1;
        fetched =
            (get-replace store (cold_doc i) (cold_doc i) i.text [] (vector_or_none c i.vector) []
              meta.0).0;
        listed = rw (found, evict_item) (rw (written, h) refl);
        gone = rw (items-evict_item c i.id reason s) (get-remove_self i.id s.items);
      }

  -- An item with a blank text and no summary has no label.
  no_label :
      (i : MemoryItem Vec)
      → i.summary ≡ []
      → strip i.text ≡ []
      → summary_or_label i ≡ err (index_error "list index out of range")
  unfolding summary_or_label strip split_first
  no_label i e blank = rw e (rw blank refl)

  store_cold-raises :
      (i : MemoryItem Vec) (reason : Text) (e : Error) (s : Memory Vec)
      (o : Option (InMemStore Vec))
      → s.store ≡ o
      → summary_or_label i ≡ err e
      → evict_found c i reason s ≡ (err e, s)
  unfolding evict_found store_cold
  store_cold-raises i reason e s none there h = ground arith
  store_cold-raises i reason e s (some store) there h = ground arith

  -- Evicting an item with a blank text and no summary raises IndexError after the item has left the
  -- hot set, and neither the cold store nor the manifest has it: it is lost.
  pub evict_item-loses_blank :
      (reason : Text) (s : Memory Vec) (i : MemoryItem Vec)
      → Dict.get i.id s.items ≡ some i
      → i.summary ≡ []
      → strip i.text ≡ []
      → ((evict_item c i.id reason s).0 ≡ err (index_error "list index out of range"))
        × (Dict.get i.id (evict_item c i.id reason s).1.items ≡ none)
        × ((evict_item c i.id reason s).1.store ≡ s.store)
        × ((evict_item c i.id reason s).1.manifest ≡ s.manifest)
  unfolding evict_item
  evict_item-loses_blank reason s i found e blank =
      let raised =
        store_cold-raises i reason _ (take_out i.id s) s.store refl (no_label i e blank) in
      (
        rw (found, evict_item) (ap (λ r. r.0) raised),
        rw (items-evict_item c i.id reason s) (get-remove_self i.id s.items),
        rw (found, evict_item) (ap (λ r. r.1.store) raised),
        rw (found, evict_item) (ap (λ r. r.1.manifest) raised),
      )
