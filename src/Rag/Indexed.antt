-- ===== src/Rag/Indexed.antt =====
-- What indexing writes (protoprompt/rag/indexer.py).
use protoprompt.Prelude.{
  ℕ, ◌+◌, ◌≡◌, refl, inl, inr, some, List, Text, text_eq, nat_eq, ◌==◌, length, arith, Bool-cases,
  Result, ok, err,
}
use protoprompt.PyText.{is_empty}
use protoprompt.Value.{Metadata, str}
use protoprompt.Scope.{scoped_metadata, scoped_doc_id}
use protoprompt.Dict
use protoprompt.Store
use protoprompt.Store.{InMemStore, count}
use protoprompt.Store.Contents.{count-add}
use protoprompt.Rag.{DocumentIndexer, index, index_embedded, kind_key}

-- A call that returns a number adds so many entries, and one that raises leaves the store alone.
abbrev pub AllOrNothing : {Vec : Type 0} → InMemStore Vec → Result ℕ × InMemStore Vec → Type 0
AllOrNothing store (ok n, store') = count store' ≡ count store + n
AllOrNothing store (err e, store') = store' ≡ store

module _ {Vec : Type 0} (c : DocumentIndexer Vec) where
  index_embedded-AllOrNothing :
      (doc_id : Text) (chunks : List Text) (embs : List Vec) (m : Metadata) (store : InMemStore Vec)
      → AllOrNothing store (index_embedded c doc_id chunks embs m store)
  unfolding index_embedded
  index_embedded-AllOrNothing doc_id chunks embs m store =
      elim (Bool-cases (length embs == length chunks)) [
        | inr other ↦ rw other refl
        | inl same ↦ rw same (written (scoped_metadata c.scope m (some doc_id)) (ground arith))
      ]
    where
      written :
          (r : Result Metadata)
          → length embs ≡ length chunks
          → AllOrNothing store (elim r [
            | err e ↦ (err e, store)
            | ok meta ↦ (
              ok (length chunks),
              Store.add store
                  (scoped_doc_id c.digest doc_id c.scope)
                  chunks
                  embs
                  (Dict.put kind_key (str c.kind) meta),
            )
          ])
      written (err e) same = refl
      written (ok meta) same = omega (
        arith,
        count-add store (scoped_doc_id c.digest doc_id c.scope) chunks embs
            (Dict.put kind_key (str c.kind) meta),
      )

  -- Whatever the chunker and the embedding client give, `index` either returns the number of the
  -- entries that it has added to the store, or raises and leaves the store as it was.
  pub index-AllOrNothing :
      (doc_id text : Text) (m : Metadata) (store : InMemStore Vec)
      → AllOrNothing store (index c doc_id text m store)
  unfolding index
  index-AllOrNothing doc_id text m store = elim (Bool-cases (is_empty (c.split text))) [
    | inl none_there ↦ rw none_there (omega arith)
    | inr some_there ↦ rw some_there (embedded (c.embed (c.split text)))
  ]
    where
      embedded :
          (r : Result (List Vec))
          → AllOrNothing store (elim r [
            | err e ↦ (err e, store)
            | ok embs ↦ index_embedded c doc_id (c.split text) embs m store
          ])
      embedded (err e) = refl
      embedded (ok embs) = index_embedded-AllOrNothing doc_id (c.split text) embs m store
