-- ===== src/Store.antt =====
-- InMemStore of protoprompt/store/memory.py. Embeddings and scores are floats, of which the model
-- knows nothing: their types, the similarity and its comparison `<` are parameters.
pub mod Contents
pub mod Qualifies
pub mod Query
pub mod Isolation
use protoprompt.Prelude.{
  ℕ, zero, suc, ◌+◌, Bool, true, false, ◌&&◌, ◌||◌, not, ◌≡◌, refl, nat_eq, Option, none, some,
  List, [], ◌∷◌, ◌++◌, map, Text, codes, text_eq, Eq, ◌==◌, length, take, select, any_of, sum_by,
  if◌then◌else◌, sort_desc,
}
use Prim.Native.Nat.{◌/◌, ◌%◌}
use mathlib.Core.List.{flat_map}
use protoprompt.PyText.{is_empty}
use protoprompt.Dict
use protoprompt.Dict.{Dict}
use protoprompt.Value.{Value, null, str, int, bool, one_of, Metadata, value_eqb}

-- str(n): the digits of `n`, with `fuel` for one more digit than there are
unfoldable pub digits : ℕ → ℕ → Text → Text
digits zero n acc = acc
digits (suc fuel) n acc =
    let more = digits fuel (n / 10) ((48 + n % 10) ∷ acc) in if n == 0 then acc else more

unfoldable pub decimal : ℕ → Text
unfolding digits
decimal n = if n == 0 then 48 ∷ [] else digits n n []

decimal_runs : decimal 1204 ≡ codes "1204"
unfolding decimal
decimal_runs = refl

pub record Entry (Vec : Type 0) : Type 0 where
  pub id : Text
  pub document : Text
  pub embedding : Vec
  pub metadata : Metadata

pub record InMemStore (Vec : Type 0) : Type 0 where
  pub chunks : Dict Text (List (Entry Vec))
  pub counter : ℕ

abbrev pub doc_id_key : Text
doc_id_key = codes "doc_id"

abbrev pub chunk_index_key : Text
chunk_index_key = codes "chunk_index"

-- metadata.get(key)
pub value_of : Text → Metadata → Value
value_of key m = elim (Dict.get key m) [ none ↦ null | some v ↦ v ]

-- actual in condition["$in"]
pub is_one_of : Value → List Text → Bool
is_one_of actual texts = any_of (λ t. value_eqb actual (str t)) texts

-- One round of the loop of _matches_where
pub meets : Value → Value → Bool
unfolding is_one_of
meets actual (one_of texts) = is_one_of actual texts
meets actual condition = value_eqb actual condition

-- _matches_where
pub matches_where : Metadata → Metadata → Bool
unfolding meets value_of
matches_where m [] = true
matches_where m ((key, condition) ∷ w) = meets (value_of key m) condition && matches_where m w

module _ {Vec : Type 0} where
  -- InMemStore.__init__
  abbrev pub empty : InMemStore Vec
  empty = record { chunks = []; counter = 0 }

  -- The entries that InMemStore.add makes of zip(chunks, embeddings), from the chunk index `i` and
  -- the counter `n` on
  pub new_entries : Text → Metadata → ℕ → ℕ → List Text → List Vec → List (Entry Vec)
  unfolding decimal
  new_entries doc_id meta i n (chunk ∷ chunks) (emb ∷ embs) =
      record {
        id = doc_id ++ (codes "_chunk_" ++ decimal n);
        document = chunk;
        embedding = emb;
        metadata = Dict.put doc_id_key (str doc_id) (Dict.put chunk_index_key (int i) meta);
      }
      ∷ new_entries doc_id meta (suc i) (suc n) chunks embs
  new_entries doc_id meta i n _ _ = []

  -- self._chunks[doc_id], or the empty list that `add` starts it with
  pub entries_of : Text → Dict Text (List (Entry Vec)) → List (Entry Vec)
  entries_of doc_id chunks = elim (Dict.get doc_id chunks) [ none ↦ [] | some es ↦ es ]

  -- InMemStore.add
  pub add : InMemStore Vec → Text → List Text → List Vec → Metadata → InMemStore Vec
  unfolding new_entries entries_of
  add s doc_id chunks embs meta =
      let entries = new_entries doc_id meta 0 s.counter chunks embs in
      record {
        chunks = Dict.put doc_id (entries_of doc_id s.chunks ++ entries) s.chunks;
        counter = s.counter + length entries;
      }

  -- InMemStore.get: the document and the metadata of the first entry
  pub get : InMemStore Vec → Text → Option (Text × Metadata)
  unfolding entries_of
  get s doc_id = elim (entries_of doc_id s.chunks) [
    | [] ↦ none
    | e ∷ es ↦ some (e.document, e.metadata)
  ]

  -- InMemStore.delete
  pub delete : InMemStore Vec → Text → InMemStore Vec
  delete s doc_id = record s { chunks = Dict.remove doc_id s.chunks }

  -- InMemStore.count
  pub count : InMemStore Vec → ℕ
  count s = sum_by length (Dict.values s.chunks)

  -- Every entry, in the order of the loops of `query`
  pub all_entries : InMemStore Vec → List (Entry Vec)
  all_entries s = flat_map (λ kv. kv.1) s.chunks

module _ {Vec S : Type 0} (similarity : Vec → Vec → S) (lt : S → S → Bool) where
  -- Whether a candidate passes the filter and the threshold of `query`
  pub passes : Option Metadata → Option S → S → Entry Vec → Bool
  unfolding matches_where
  passes filter threshold score entry =
      (elim filter [ none ↦ true | some w ↦ is_empty w || matches_where entry.metadata w ])
      && (elim threshold [ none ↦ true | some t ↦ not (lt score t) ])

  -- The (score, entry) pairs that pass
  pub candidates : Vec → Option Metadata → Option S → List (Entry Vec) → List (S × Entry Vec)
  unfolding passes
  candidates embedding filter threshold [] = []
  candidates embedding filter threshold (e ∷ es) =
      let score = similarity embedding e.embedding in
      let rest = candidates embedding filter threshold es in
      if passes filter threshold score e then (score, e) ∷ rest else rest

  -- InMemStore.query
  unfoldable pub query :
      InMemStore Vec → Vec → ℕ → Option Metadata → Option S → List (S × Entry Vec)
  unfolding candidates all_entries sort_desc
  query s embedding top_k filter threshold =
      take top_k (sort_desc lt (λ c. c.0) (candidates embedding filter threshold (all_entries s)))
