-- ===== src/Store/Contents.antt =====
-- What InMemStore (protoprompt/store/memory.py) holds after `add` and `delete`.
use protoprompt.Prelude.{
  ℕ, suc, ◌+◌, min, ◌≡◌, ◌≢◌, inl, inr, none, some, List, [], ◌∷◌, ◌++◌, Text, text_eq, length,
  length-append, arith, Option-cases,
}
use protoprompt.Dict
use protoprompt.Dict.{Dict, Unique}
use protoprompt.Dict.Laws.{get-put_self, get-put_ne, get-remove_self, get-remove_ne, remove_absent}
use protoprompt.Dict.Keys.{sum-put_fresh, sum-put_old, sum-remove}
use protoprompt.Value.{Metadata, str, int}
use protoprompt.Store.{
  InMemStore, doc_id_key, chunk_index_key, new_entries, entries_of, add, get, delete, count,
}

module _ {Vec : Type 0} where
  length-new_entries :
      (doc_id : Text) (meta : Metadata) (i n : ℕ) (chunks : List Text) (embs : List Vec)
      → length (new_entries doc_id meta i n chunks embs) ≡ min (length chunks) (length embs)
  unfolding new_entries
  length-new_entries d m i n [] embs = omega arith
  length-new_entries d m i n (c ∷ cs) [] = omega arith
  length-new_entries d m i n (c ∷ cs) (e ∷ es) =
      omega (arith, length-new_entries d m (suc i) (suc n) cs es)

  -- Adding a document adds one entry for each chunk that has an embedding, and no other.
  pub count-add :
      (s : InMemStore Vec) (doc_id : Text) (chunks : List Text) (embs : List Vec) (meta : Metadata)
      → count (add s doc_id chunks embs meta) ≡ count s + min (length chunks) (length embs)
  unfolding count add entries_of
  count-add s d cs es m = elim (Option-cases (Dict.get d s.chunks)) [
    | inl fresh ↦
        rw (fresh, entries_of)
          (omega (
            arith,
            sum-put_fresh length d (new_entries d m 0 s.counter cs es) s.chunks fresh,
            length-new_entries d m 0 s.counter cs es,
          ))
    | inr (old, found) ↦
        rw (found, entries_of)
          (omega (
            arith,
            sum-put_old length d (old ++ new_entries d m 0 s.counter cs es) old s.chunks found,
            length-append old (new_entries d m 0 s.counter cs es),
            length-new_entries d m 0 s.counter cs es,
          ))
  ]

  -- Deleting a document takes its entries, and no others, out of the count.
  pub count-delete :
      (s : InMemStore Vec) (doc_id : Text)
      → Unique s.chunks
      → count (delete s doc_id) + length (entries_of doc_id s.chunks) ≡ count s
  unfolding count delete entries_of
  count-delete s d u = elim (Option-cases (Dict.get d s.chunks)) [
    | inl absent ↦ rw (remove_absent d s.chunks absent, absent, entries_of) (omega arith)
    | inr (es, found) ↦ rw (found, entries_of) (sum-remove length d es s.chunks u found)
  ]

  -- A deleted document is gone, and every other document has the entries that it had.
  pub get-delete :
      (s : InMemStore Vec) (d j : Text)
      → (get (delete s d) d ≡ none) × (d ≢ j → get (delete s d) j ≡ get s j)
  unfolding get delete entries_of
  get-delete s d j = (
    ground (arith, get-remove_self d s.chunks),
    λ h. ground (arith, get-remove_ne d j s.chunks h),
  )

  -- Replacing a document (`delete`, then `add`) leaves the new first chunk, with its metadata and
  -- the index 0, as what `get` finds, and every other document with all the entries that it had.
  pub get-replace :
      (s : InMemStore Vec) (d j : Text) (c : Text) (cs : List Text) (e : Vec) (es : List Vec)
      (m : Metadata)
      → (get (add (delete s d) d (c ∷ cs) (e ∷ es) m) d
          ≡ some (c, Dict.put doc_id_key (str d) (Dict.put chunk_index_key (int 0) m)))
        × (d ≢ j → Dict.get j (add (delete s d) d (c ∷ cs) (e ∷ es) m).chunks ≡ Dict.get j s.chunks)
  unfolding get add delete entries_of new_entries
  get-replace s d j c cs e es m = (
    ground (
      arith,
      get-remove_self d s.chunks,
      get-put_self d (new_entries d m 0 s.counter (c ∷ cs) (e ∷ es)) (Dict.remove d s.chunks),
    ),
    λ h. ground (
      arith,
      get-remove_self d s.chunks,
      get-remove_ne d j s.chunks h,
      get-put_ne d j (new_entries d m 0 s.counter (c ∷ cs) (e ∷ es)) (Dict.remove d s.chunks) h,
    ),
  )
