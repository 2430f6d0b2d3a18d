-- ===== src/Rag.antt =====
-- Indexing and retrieval (protoprompt/rag/indexer.py, protoprompt/rag/retriever.py and
-- protoprompt/rag/types.py) over the store in memory. The chunker, the embedding client, the
-- reranker, and what str() and int() make of a metadata value that is no text and no number are
-- parameters; embeddings of the client come as a result, since the client may raise.
pub mod Indexed
pub mod Isolated
pub mod Rerank
use protoprompt.Prelude.{
  ℕ, zero, suc, ◌+◌, Bool, true, false, not, ◌&&◌, Option, none, some, List, [], ◌∷◌, map, Text,
  codes, text_eq, nat_eq, Eq, ◌==◌, length, ltb, if◌then◌else◌, Result, ok, err, value_error,
  index_error, type_error, ◌>>=◌,
}
use protoprompt.PyText.{is_empty}
use protoprompt.Dict
use protoprompt.Value.{Value, null, str, int, bool, texts, one_of, Metadata, bool_int}
use protoprompt.Scope.{MemoryScope, scoped_metadata, scoped_doc_id, merge_where, logical_doc_id_key}
use protoprompt.Store
use protoprompt.Store.{Entry, InMemStore, doc_id_key, chunk_index_key, query}

pub record Document : Type 0 where
  pub doc_id : Text
  pub text : Text
  pub metadata : Metadata

pub record RetrievedChunk (S : Type 0) : Type 0 where
  pub doc_id : Text
  pub index : ℕ
  pub text : Text
  pub score : S
  pub metadata : Metadata

pub record DocumentIndexer (Vec : Type 0) : Type 0 where
  pub split : Text → List Text
  pub embed : List Text → Result (List Vec)
  pub digest : List Text → Text
  pub kind : Text
  pub scope : Option MemoryScope

pub record Retriever (Vec S : Type 0) : Type 0 where
  pub similarity : Vec → Vec → S
  pub lt : S → S → Bool
  pub embed : Text → Result Vec
  pub rerank : Text → List (RetrievedChunk S) → List (RetrievedChunk S)
  pub digest : List Text → Text
  pub show : Value → Text
  pub parse_int : Value → Result ℕ
  pub kind_field : Option Text
  pub document_kind : Text
  pub scope : Option MemoryScope

abbrev pub kind_key : Text
kind_key = codes "kind"

module _ {Vec : Type 0} (c : DocumentIndexer Vec) where
  -- DocumentIndexer.index once there are embeddings
  pub index_embedded :
      Text → List Text → List Vec → Metadata → InMemStore Vec → Result ℕ × InMemStore Vec
  index_embedded doc_id chunks embs metadata store =
      if length embs == length chunks
      then elim (scoped_metadata c.scope metadata (some doc_id)) [
        | err e ↦ (err e, store)
        | ok meta ↦ (
          ok (length chunks),
          Store.add store (scoped_doc_id c.digest doc_id c.scope) chunks embs
              (Dict.put kind_key (str c.kind) meta),
        )
      ]
      else (err (value_error "embedding client returned another number of vectors"), store)

  -- DocumentIndexer.index
  pub index : Text → Text → Metadata → InMemStore Vec → Result ℕ × InMemStore Vec
  unfolding index_embedded
  index doc_id text metadata store =
      if is_empty (c.split text) then (ok 0, store) else elim (c.embed (c.split text)) [
        | err e ↦ (err e, store)
        | ok embs ↦ index_embedded doc_id (c.split text) embs metadata store
      ]

  -- The loop of DocumentIndexer.index_documents, over the counts so far
  pub index_each :
      Dict.Dict Text ℕ → List Document → InMemStore Vec → Result (Dict.Dict Text ℕ) × InMemStore Vec
  unfolding index
  index_each counts [] store = (ok counts, store)
  index_each counts (d ∷ ds) store =
      let (r, store') = index d.doc_id d.text d.metadata store in
      elim r [ err e ↦ (err e, store') | ok n ↦ index_each (Dict.put d.doc_id n counts) ds store' ]

  -- DocumentIndexer.index_documents
  pub index_documents : List Document → InMemStore Vec → Result (Dict.Dict Text ℕ) × InMemStore Vec
  unfolding index_each
  index_documents = index_each []

module _ {Vec S : Type 0} (c : Retriever Vec S) where
  -- {"$in": ids} if len(ids) > 1 else ids[0]
  pub id_condition : List Text → Result Value
  id_condition [] = err (index_error "list index out of range")
  id_condition (id ∷ []) = ok (str id)
  id_condition (id ∷ more) = ok (one_of (id ∷ more))

  -- The filter of Retriever._build_where before the scope is merged in
  pub base_where : Option (List Text) → Result Metadata
  unfolding id_condition
  base_where (some doc_ids) = do
    condition ← id_condition (map (λ d. scoped_doc_id c.digest d c.scope) doc_ids)
    ok ((doc_id_key, condition) ∷ [])
  base_where none = elim c.kind_field [
    | none ↦ ok []
    | some field ↦ ok ((field, str c.document_kind) ∷ [])
  ]

  -- where or None
  pub or_none : Metadata → Option Metadata
  or_none [] = none
  or_none (f ∷ w) = some (f ∷ w)

  -- self._scope.merge_where(where), if there is a scope
  pub scoped_where : Option MemoryScope → Metadata → Result Metadata
  scoped_where none w = ok w
  scoped_where (some s) w = merge_where s w

  -- Retriever._build_where
  pub build_where : Option (List Text) → Result (Option Metadata)
  unfolding base_where scoped_where or_none
  build_where doc_ids = do
    base ← base_where doc_ids
    merged ← scoped_where c.scope base
    ok (or_none merged)

  -- The metadata of Retriever._to_chunk
  pub chunk_metadata : Metadata → Metadata
  chunk_metadata m = elim (Dict.get logical_doc_id_key m) [
    | none ↦ m
    | some v ↦ Dict.put doc_id_key v m
  ]

  -- str(meta.get(LOGICAL_DOC_ID_KEY, meta.get("doc_id", "")))
  pub logical_id : Metadata → Text
  logical_id m = elim (Dict.get logical_doc_id_key m) [
    | some v ↦ c.show v
    | none ↦ elim (Dict.get doc_id_key m) [ none ↦ [] | some v ↦ c.show v ]
  ]

  -- int(meta.get("chunk_index", 0))
  pub chunk_index : Metadata → Result ℕ
  chunk_index m = elim (Dict.get chunk_index_key m) [ none ↦ ok 0 | some v ↦ c.parse_int v ]

  -- Retriever._to_chunk, of a hit of the store in memory, which has a score
  pub to_chunk : S × Entry Vec → Result (RetrievedChunk S)
  unfolding chunk_metadata logical_id chunk_index
  to_chunk hit = do
    index ← chunk_index hit.1.metadata
    ok (record {
      doc_id = logical_id hit.1.metadata;
      index = index;
      text = hit.1.document;
      score = hit.0;
      metadata = chunk_metadata hit.1.metadata;
    })

  -- [self._to_chunk(hit) for hit in hits]
  pub to_chunks : List (S × Entry Vec) → Result (List (RetrievedChunk S))
  unfolding to_chunk
  to_chunks [] = ok []
  to_chunks (hit ∷ hits) = do chunk ← to_chunk hit; chunks ← to_chunks hits; ok (chunk ∷ chunks)

  -- doc_ids == []
  pub no_documents : Option (List Text) → Bool
  no_documents none = false
  no_documents (some doc_ids) = is_empty doc_ids

  -- The chunks, reranked if there are several and a text to rank them by
  pub ranked : Text → List (RetrievedChunk S) → List (RetrievedChunk S)
  ranked query_text chunks =
      if ltb 1 (length chunks) && not (is_empty query_text)
      then c.rerank query_text chunks
      else chunks

  -- Retriever.retrieve_embedded
  unfoldable pub retrieve_embedded :
      InMemStore Vec
      → Vec
      → Text
      → ℕ
      → Option (List Text)
      → Option S
      → Result (List (RetrievedChunk S))
  unfolding no_documents build_where to_chunks ranked
  retrieve_embedded store embedding query_text top_k doc_ids threshold =
      if no_documents doc_ids then ok [] else (do
        filter ← build_where doc_ids
        chunks ← to_chunks (query c.similarity c.lt store embedding top_k filter threshold)
        ok (ranked query_text chunks))

  -- Retriever.retrieve
  pub retrieve :
      InMemStore Vec → Text → ℕ → Option (List Text) → Option S → Result (List (RetrievedChunk S))
  unfolding retrieve_embedded
  retrieve store query_text top_k doc_ids threshold = do
    embedding ← c.embed query_text
    retrieve_embedded store embedding query_text top_k doc_ids threshold
