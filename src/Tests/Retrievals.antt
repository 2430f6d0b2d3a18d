-- ===== src/Tests/Retrievals.antt =====
-- Runs of the indexer and the retriever (protoprompt/rag/indexer.py, protoprompt/rag/retriever.py).
use protoprompt.Prelude.{
  ◌⊎◌, Error, ◌<◌, List, ℕ, min, ◌≡◌, refl, none, some, [], ◌∷◌, map, Text, codes, text_eq,
  text_eqb, length, ltb, Result, ok, err, type_error,
}
use mathlib.Core.List.{Perm, flat_map}
use protoprompt.Dict
use protoprompt.Value.{Value, str, int, Metadata, value_eqb}
use protoprompt.Scope.{merge_where, tenant_key, user_key}
use protoprompt.Store
use protoprompt.Store.{InMemStore, query}
use protoprompt.Rag.{DocumentIndexer, index, Retriever, RetrievedChunk, retrieve_embedded}
use protoprompt.Rag.Indexed.{AllOrNothing, index-AllOrNothing}
use protoprompt.Rag.Isolated.{OfScope, retrieve_embedded-OfScope}
use protoprompt.Rag.Rerank.{LlmReranker, rerank, rerank-Perm}
use protoprompt.Tests.Encoding.{scope_digest}
use protoprompt.Tests.Scopes.{alice}

abbrev indexer : DocumentIndexer ℕ
indexer = record {
  split = λ t. t ∷ t ∷ [];
  embed = λ ts. ok (map length ts);
  digest = scope_digest;
  kind = codes "document";
  scope = some alice;
}

index-AllOrNothing_example :
    AllOrNothing Store.empty (index indexer (codes "d") (codes "text") [] Store.empty)
index-AllOrNothing_example = index-AllOrNothing indexer (codes "d") (codes "text") [] Store.empty

abbrev int_of : Value → Result ℕ
int_of (int n) = ok n
int_of _ = err (type_error "no number")

abbrev text_of : Value → Text
text_of (str t) = t
text_of _ = []

abbrev retriever : Retriever ℕ ℕ
retriever = record {
  similarity = min;
  lt = ltb;
  embed = λ t. ok (length t);
  rerank = λ q chunks. chunks;
  digest = scope_digest;
  show = text_of;
  parse_int = int_of;
  kind_field = none;
  document_kind = codes "document";
  scope = some alice;
}

abbrev of_alice : Metadata
of_alice = (tenant_key, str (codes "t")) ∷ (user_key, str (codes "alice")) ∷ []

-- One chunk of the scope, and one of none
abbrev two_chunks : InMemStore ℕ
two_chunks = record {
  chunks =
      (
        codes "d",
        record {
          id = codes "d_chunk_0";
          document = codes "ours";
          embedding = 7;
          metadata = of_alice;
        }
            ∷ record {
              id = codes "d_chunk_1";
              document = codes "other";
              embedding = 8;
              metadata = [];
            }
            ∷ [],
      )
      ∷ [];
  counter = 2;
}

abbrev our_chunk : RetrievedChunk ℕ
our_chunk = record { doc_id = []; index = 0; text = codes "ours"; score = 7; metadata = of_alice }

retrieve_runs : retrieve_embedded retriever two_chunks 9 [] 5 none none ≡ ok (our_chunk ∷ [])
unfolding retrieve_embedded merge_where query flat_map value_eqb text_eqb Dict.get Dict.put
retrieve_runs = refl

retrieve_embedded-OfScope_example : OfScope retriever alice (our_chunk ∷ [])
retrieve_embedded-OfScope_example =
    retrieve_embedded-OfScope retriever alice two_chunks 9 [] 5 none none (our_chunk ∷ []) refl
      (λ q cs all. all) retrieve_runs

-- A model that names the second chunk and one that is not there
abbrev second_first : LlmReranker
second_first = record { chat = λ prompt. ok (codes "1, 7"); numbers = λ t. ok (1 ∷ 7 ∷ []) }

abbrev both_chunks : List (RetrievedChunk ℕ)
both_chunks = our_chunk ∷ our_chunk ∷ []

rerank-Perm_example :
    ((out : List (RetrievedChunk ℕ)) × (rerank second_first (codes "q") both_chunks ≡ ok out)
      × Perm out both_chunks)
    ⊎ ((prompt response : Text) × (e : Error) × (1 < 2)
        × (second_first.chat prompt ≡ ok response)
        × (second_first.numbers response ≡ err e)
        × (rerank second_first (codes "q") both_chunks ≡ err e))
rerank-Perm_example = rerank-Perm second_first (codes "q") both_chunks
