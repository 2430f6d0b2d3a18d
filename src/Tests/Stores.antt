-- ===== src/Tests/Stores.antt =====
-- Runs of the in-memory store (protoprompt/store/memory.py).
use protoprompt.Prelude.{
  ℕ, map, ◌<◌, min, ◌≡◌, ◌≢◌, refl, none, some, List, [], ◌∷◌, ◌++◌, codes, text_eq, text_eqb,
  length, All, arith, ltb, Descending, IsOrder,
}
use mathlib.Core.List.{Perm, flat_map}
use protoprompt.Dict
use protoprompt.Dict.{Unique}
use protoprompt.Value.{str, int, value_eqb}
use protoprompt.Scope.{to_metadata}
use protoprompt.Scope.Merge.{Pinned}
use protoprompt.Store
use protoprompt.Store.{
  Entry, InMemStore, doc_id_key, chunk_index_key, entries_of, passes, candidates, all_entries,
  query, count,
}
use protoprompt.Store.Contents.{get-replace}
use protoprompt.Store.Qualifies.{Qualifies}
use protoprompt.Store.Query.{query-best}
use protoprompt.Store.Isolation.{query-isolated}
use protoprompt.Tests.Scopes.{alice, plain_filter, pinned_filter, merge_where_runs}

-- Vectors and scores are numbers here.
abbrev nearness : ℕ → ℕ → ℕ
nearness a b = min a b

abbrev one_document : InMemStore ℕ
one_document = record {
  chunks =
      (
        codes "d",
        record {
          id = codes "d_chunk_0";
          document = codes "text";
          embedding = 7;
          metadata = pinned_filter;
        }
            ∷ record {
              id = codes "d_chunk_1";
              document = codes "more";
              embedding = 5;
              metadata = plain_filter;
            }
            ∷ [],
      )
      ∷ [];
  counter = 2;
}

one_document-Unique : Unique one_document.chunks
unfolding Dict.get text_eqb
one_document-Unique = (refl, tt)

query_runs : length (query nearness ltb one_document 9 5 (some pinned_filter) none) ≡ 1
unfolding query Dict.get text_eqb value_eqb flat_map
query_runs = refl

pub ltb-IsOrder : IsOrder ltb
ltb-IsOrder = record { asym = λ a b h. ground arith; le_trans = λ a b c h k. ground arith }

abbrev replaced : InMemStore ℕ
replaced =
    Store.add (Store.delete one_document (codes "d")) (codes "d") (codes "new" ∷ []) (3 ∷ []) []

get-replace_example :
    (Store.get replaced (codes "d")
      ≡ some (
        codes "new",
        Dict.put doc_id_key (str (codes "d")) (Dict.put chunk_index_key (int 0) []),
      ))
    × (codes "d" ≢ codes "e"
        → Dict.get (codes "e") replaced.chunks ≡ Dict.get (codes "e") one_document.chunks)
get-replace_example = get-replace one_document (codes "d") (codes "e") (codes "new") [] 3 [] []

query-best_example :
    (rest others : List (ℕ × Entry ℕ)) × Perm
      ((query nearness ltb one_document 9 1 (some pinned_filter) none ++ rest) ++ others)
      (map (λ e. (nearness 9 e.embedding, e)) (flat_map (λ kv. kv.1) one_document.chunks))
    × All
        (Qualifies ltb (some pinned_filter) none)
        (query nearness ltb one_document 9 1 (some pinned_filter) none ++ rest)
    × All (λ c. ¬ Qualifies ltb (some pinned_filter) none c) others
    × Descending ltb
        (λ c. c.0)
        (query nearness ltb one_document 9 1 (some pinned_filter) none ++ rest)
    × (0 < length rest → length (query nearness ltb one_document 9 1 (some pinned_filter) none) ≡ 1)
query-best_example = query-best nearness ltb ltb-IsOrder one_document 9 1 (some pinned_filter) none

query-isolated_example :
    All
      (λ c. Pinned (to_metadata alice) c.1.metadata)
      (query nearness ltb one_document 9 5 (some pinned_filter) none)
query-isolated_example =
    query-isolated nearness ltb alice plain_filter pinned_filter one_document 9 5 none
      merge_where_runs
