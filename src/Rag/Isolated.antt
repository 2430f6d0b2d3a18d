-- ===== src/Rag/Isolated.antt =====
-- A retriever with a scope (protoprompt/rag/retriever.py).
use protoprompt.Prelude.{
  ℕ, ◌≡◌, refl, sym, ap, inl, inr, not, ◌&&◌, Option, none, some, List, [], ◌∷◌, Text, text_eq,
  text_eqb, text_eqb_iff, All, length, ltb, arith, Bool-cases, Option-cases, Result, ok, err, ◌>>=◌,
}
use protoprompt.PyText.{is_empty}
use protoprompt.Dict
use protoprompt.Dict.Laws.{get-put}
use protoprompt.Value.{Value, Metadata}
use protoprompt.Scope.{MemoryScope, scope_fields, to_metadata, merge_where, logical_doc_id_key}
use protoprompt.Scope.Merge.{Pinned, merge_where-pins, get-select}
use protoprompt.Store.{Entry, InMemStore, doc_id_key, query}
use protoprompt.Store.Isolation.{query-isolated}
use protoprompt.Rag.{
  Retriever, RetrievedChunk, base_where, or_none, scoped_where, build_where, chunk_metadata,
  logical_id, chunk_index, to_chunk, to_chunks, no_documents, ranked, retrieve_embedded,
}

no_doc_id : (s : MemoryScope) → Dict.get doc_id_key (to_metadata s) ≡ none
unfolding to_metadata
no_doc_id s =
    get-select (λ kv. not (is_empty kv.1)) doc_id_key (scope_fields s)
      (unfold Dict.get text_eqb in refl)

put-Pinned :
    (k : Text) (v : Value) (fields : List (Text × Text)) (m : Metadata)
    → Dict.get k fields ≡ none
    → Pinned fields m
    → Pinned fields (Dict.put k v m)
unfolding Dict.get
put-Pinned k v [] m absent p = tt
put-Pinned k v ((j, w) ∷ fields) m absent p = (
  ground (arith, get-put k j v m, p.0, text_eqb_iff j k, text_eqb_iff k j),
  put-Pinned k v fields m (ground arith) p.1,
)

empty-Pinned : (fields : List (Text × Text)) (m : Metadata) → Pinned fields [] → Pinned fields m
unfolding Dict.get
empty-Pinned [] m p = tt
empty-Pinned (f ∷ fields) m p = absurd (cc (p.0))

module _ {Vec S : Type 0} (c : Retriever Vec S) where
  chunk_metadata-Pinned :
      (s : MemoryScope) (m : Metadata)
      → Pinned (to_metadata s) m
      → Pinned (to_metadata s) (chunk_metadata c m)
  unfolding chunk_metadata
  chunk_metadata-Pinned s m p = elim (Option-cases (Dict.get logical_doc_id_key m)) [
    | inl absent ↦ rw (absent, chunk_metadata) p
    | inr (v, found) ↦
        rw (found, chunk_metadata) (put-Pinned doc_id_key v (to_metadata s) m (no_doc_id s) p)
  ]

  -- Every chunk is of the scope.
  abbrev pub OfScope : MemoryScope → List (RetrievedChunk S) → Type 0
  OfScope s = All (λ chunk. Pinned (to_metadata s) chunk.metadata)

  to_chunks-OfScope :
      (s : MemoryScope) (hits : List (S × Entry Vec)) (chunks : List (RetrievedChunk S))
      → All (λ h. Pinned (to_metadata s) h.1.metadata) hits
      → to_chunks c hits ≡ ok chunks
      → OfScope s chunks
  unfolding to_chunks to_chunk
  to_chunks-OfScope s [] chunks all h = ground arith
  to_chunks-OfScope s (hit ∷ hits) chunks all h =
      each (chunk_index c hit.1.metadata) (to_chunks c hits) chunks
        (λ rest. to_chunks-OfScope s hits rest all.1) h
    where
      each :
          (i : Result ℕ) (r : Result (List (RetrievedChunk S))) (cs : List (RetrievedChunk S))
          → ((rest : List (RetrievedChunk S)) → r ≡ ok rest → OfScope s rest)
          → (do
            chunk ← (do
              index ← i
              ok (record {
                doc_id = logical_id c hit.1.metadata;
                index = index;
                text = hit.1.document;
                score = hit.0;
                metadata = chunk_metadata c hit.1.metadata;
              }))
            rest ← r
            ok (chunk ∷ rest))
            ≡ ok cs
          → OfScope s cs
      each (err e) r cs later h = cc
      each (ok i) (err e) cs later h = cc
      each (ok i) (ok rest) [] later h = cc
      each (ok i) (ok rest) (x ∷ xs) later h =
          let tail : rest ≡ xs = ground arith in
          let head : chunk_metadata c hit.1.metadata ≡ x.metadata = ground arith in
          (
            rw (← head) (chunk_metadata-Pinned s hit.1.metadata all.0),
            rw (← tail) (later rest refl),
          )

  filtered-Pinned :
      (s : MemoryScope) (w w' : Metadata) (store : InMemStore Vec) (embedding : Vec) (top_k : ℕ)
      (threshold : Option S)
      → merge_where s w ≡ ok w'
      → All
          (λ h. Pinned (to_metadata s) h.1.metadata)
          (query c.similarity c.lt store embedding top_k (or_none c w') threshold)
  unfolding or_none
  filtered-Pinned s w [] store embedding top_k threshold merged =
      all_of (query c.similarity c.lt store embedding top_k none threshold)
    where
      all_of : (hits : List (S × Entry Vec)) → All (λ h. Pinned (to_metadata s) h.1.metadata) hits
      all_of [] = tt
      all_of (h ∷ hits) = (
        empty-Pinned (to_metadata s) h.1.metadata (merge_where-pins s w [] merged).0,
        all_of hits,
      )
  filtered-Pinned s w (f ∷ w') store embedding top_k threshold merged =
      query-isolated c.similarity c.lt s w (f ∷ w') store embedding top_k threshold merged

  build_where-merged :
      (s : MemoryScope) (doc_ids : Option (List Text)) (filter : Option Metadata)
      → c.scope ≡ some s
      → build_where c doc_ids ≡ ok filter
      → (w : Metadata) × (w' : Metadata) × (merge_where s w ≡ ok w') × (filter ≡ or_none c w')
  unfolding build_where scoped_where
  build_where-merged s doc_ids filter scoped h = with_base (base_where c doc_ids) h
    where
      with_merged :
          (w : Metadata) (r : Result Metadata)
          → merge_where s w ≡ r
          → (r >>= (λ merged. ok (or_none c merged))) ≡ ok filter
          → (w : Metadata) × (w' : Metadata) × (merge_where s w ≡ ok w') × (filter ≡ or_none c w')
      with_merged w (err e) m h = cc
      with_merged w (ok w') m h =
          (w, w', m, (let e : or_none c w' ≡ filter = ground arith in sym e))

      with_base :
          (r : Result Metadata)
          → (r >>= (λ base. scoped_where c c.scope base >>= (λ merged. ok (or_none c merged))))
            ≡ ok filter
          → (w : Metadata) × (w' : Metadata) × (merge_where s w ≡ ok w') × (filter ≡ or_none c w')
      with_base (err e) h = cc
      with_base (ok w) h =
          with_merged w (scoped_where c c.scope w) (sym (ap (λ sc. scoped_where c sc w) scoped)) h

  ranked-OfScope :
      (s : MemoryScope) (query_text : Text) (chunks : List (RetrievedChunk S))
      → ((q : Text) (cs : List (RetrievedChunk S)) → OfScope s cs → OfScope s (c.rerank q cs))
      → OfScope s chunks
      → OfScope s (ranked c query_text chunks)
  unfolding ranked
  ranked-OfScope s query_text chunks keeps all =
      elim (Bool-cases (ltb 1 (length chunks) && not (is_empty query_text))) [
        | inl several ↦ rw (several, ranked) (keeps query_text chunks all)
        | inr one ↦ rw (one, ranked) all
      ]

  -- Where the reranker only reorders or drops chunks, every chunk that a retriever with a scope
  -- returns has, in its metadata, every non-empty field of that scope with the scope's value.
  pub retrieve_embedded-OfScope :
      (s : MemoryScope) (store : InMemStore Vec) (embedding : Vec) (query_text : Text) (top_k : ℕ)
      (doc_ids : Option (List Text)) (threshold : Option S) (chunks : List (RetrievedChunk S))
      → c.scope ≡ some s
      → ((q : Text) (cs : List (RetrievedChunk S)) → OfScope s cs → OfScope s (c.rerank q cs))
      → retrieve_embedded c store embedding query_text top_k doc_ids threshold ≡ ok chunks
      → OfScope s chunks
  unfolding retrieve_embedded
  retrieve_embedded-OfScope s store embedding query_text top_k doc_ids threshold chunks scoped keeps
        h =
      elim (Bool-cases (no_documents c doc_ids)) [
        | inl nothing ↦ let e : [] ≡ chunks = ground arith in rw (← e) tt
        | inr asked ↦ searched (build_where c doc_ids) refl (rw asked at h)
      ]
    where
      converted :
          (filter : Option Metadata) (r : Result (List (RetrievedChunk S)))
          → to_chunks c (query c.similarity c.lt store embedding top_k filter threshold) ≡ r
          → All
              (λ hit. Pinned (to_metadata s) hit.1.metadata)
              (query c.similarity c.lt store embedding top_k filter threshold)
          → (r >>= (λ cs. ok (ranked c query_text cs))) ≡ ok chunks
          → OfScope s chunks
      converted filter (err e) same all h = cc
      converted filter (ok cs) same all h =
          let e : ranked c query_text cs ≡ chunks = ground arith in
          rw (← e) (ranked-OfScope s query_text cs keeps (to_chunks-OfScope s _ cs all same))

      searched :
          (r : Result (Option Metadata))
          → build_where c doc_ids ≡ r
          → (r >>= (λ filter.
              to_chunks c (query c.similarity c.lt store embedding top_k filter threshold)
              >>= (λ cs. ok (ranked c query_text cs))))
            ≡ ok chunks
          → OfScope s chunks
      searched (err e) built h = cc
      searched (ok filter) built h =
          let (w, w', merged, same) = build_where-merged s doc_ids filter scoped built in
          converted filter _ refl
            (rw same (filtered-Pinned s w w' store embedding top_k threshold merged)) h
