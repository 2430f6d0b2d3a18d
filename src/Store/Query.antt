-- ===== src/Store/Query.antt =====
-- What InMemStore.query (protoprompt/store/memory.py) returns.
use protoprompt.Prelude.{
  true, map, text_eq, All-take, ℕ, ◌≤◌, ◌<◌, ◌≡◌, refl, inl, inr, Bool, true, Option, List, [], ◌∷◌,
  ◌++◌, length, drop, length-take, length-drop, take-append-drop, All, arith, Bool-cases, sort_desc,
  sort_desc-perm, sort_desc-All, sort_desc-Descending, Descending, IsOrder,
}
use mathlib.Core.List.{Perm, perm_middle, flat_map}
use mathlib.Core.List.Perm
use protoprompt.Value.{Metadata}
use protoprompt.Store.Qualifies.{Qualifies, passes_iff}
use protoprompt.Store.{Entry, InMemStore, all_entries, passes, candidates, query}

module _ {Vec S : Type 0} (similarity : Vec → Vec → S) (lt : S → S → Bool) where
  candidates-All :
      (embedding : Vec) (filter : Option Metadata) (threshold : Option S) (es : List (Entry Vec))
      → All
          (λ c.
            (passes similarity lt filter threshold c.0 c.1 ≡ true)
            × (c.0 ≡ similarity embedding c.1.embedding))
          (candidates similarity lt embedding filter threshold es)
  unfolding candidates
  candidates-All embedding filter threshold [] = tt
  candidates-All embedding filter threshold (e ∷ es) =
      elim (Bool-cases
        (passes similarity lt filter threshold (similarity embedding e.embedding) e)) [
          | inl kept ↦ rw kept ((kept, refl), candidates-All embedding filter threshold es)
          | inr dropped ↦ rw dropped (candidates-All embedding filter threshold es)
        ]

  -- Every hit passes the filter and the threshold and carries the similarity of its entry, and
  -- there are at most `top_k` hits.
  pub query_sound :
      (s : InMemStore Vec) (embedding : Vec) (top_k : ℕ) (filter : Option Metadata)
      (threshold : Option S)
      → All
          (λ c.
            (passes similarity lt filter threshold c.0 c.1 ≡ true)
            × (c.0 ≡ similarity embedding c.1.embedding))
          (query similarity lt s embedding top_k filter threshold)
        × (length (query similarity lt s embedding top_k filter threshold) ≤ top_k)
  unfolding query
  query_sound s embedding top_k filter threshold = (
    All-take _ top_k _ (
        sort_desc-All lt (λ c. c.0) _ _
          (candidates-All embedding filter threshold (all_entries s))),
    omega (
      arith,
      length-take top_k (
          sort_desc lt (λ c. c.0)
            (candidates similarity lt embedding filter threshold (all_entries s))),
    ),
  )

  candidates-pass :
      (embedding : Vec) (filter : Option Metadata) (threshold : Option S) (es : List (Entry Vec))
      → All
          (λ c. passes similarity lt filter threshold c.0 c.1 ≡ true)
          (candidates similarity lt embedding filter threshold es)
  unfolding candidates
  candidates-pass embedding filter threshold [] = tt
  candidates-pass embedding filter threshold (e ∷ es) =
      elim (Bool-cases
        (passes similarity lt filter threshold (similarity embedding e.embedding) e)) [
          | inl kept ↦ rw kept (kept, candidates-pass embedding filter threshold es)
          | inr dropped ↦ rw dropped (candidates-pass embedding filter threshold es)
        ]

  -- The candidates and the other entries, each with its score, are all the entries with their scores.
  candidates-split :
      (embedding : Vec) (filter : Option Metadata) (threshold : Option S) (es : List (Entry Vec))
      → (others : List (S × Entry Vec)) × Perm
          (candidates similarity lt embedding filter threshold es ++ others)
          (map (λ e. (similarity embedding e.embedding, e)) es)
        × All (λ c. ¬ Qualifies lt filter threshold c) others
  unfolding candidates
  candidates-split embedding filter threshold [] = ([], Perm.refl [], tt)
  candidates-split embedding filter threshold (e ∷ es) =
      let c : S × Entry Vec = (similarity embedding e.embedding, e) in
      let (others, same, all) = candidates-split embedding filter threshold es in
      elim (Bool-cases (passes similarity lt filter threshold c.0 e)) [
        | inl kept ↦ (others, rw kept (Perm.cons c same), all)
        | inr dropped ↦ (
          c ∷ others,
          rw dropped (
              Perm.trans
                (perm_middle (candidates similarity lt embedding filter threshold es) others)
                (Perm.cons c same)),
          ((λ q. let kept = (passes_iff similarity lt filter threshold c).1 q in cc), all),
        )
      ]

  Qualifies-All :
      (filter : Option Metadata) (threshold : Option S) (cs : List (S × Entry Vec))
      → All (λ c. passes similarity lt filter threshold c.0 c.1 ≡ true) cs
      → All (Qualifies lt filter threshold) cs
  Qualifies-All filter threshold [] all = tt
  Qualifies-All filter threshold (c ∷ cs) all = (
    (passes_iff similarity lt filter threshold c).0 all.0,
    Qualifies-All filter threshold cs all.1,
  )

  -- Under a total order of the scores, the hits are the best of all that qualify: with the others
  -- that qualify and with those that do not they are all the entries of the store with their scores,
  -- those that qualify are in descending order of score from the hits on, and one that qualifies is
  -- left over only if there are `top_k` hits. An entry qualifies if its metadata meet every condition
  -- of the filter and its score is not below the threshold.
  pub query-best :
      IsOrder lt
      → (s : InMemStore Vec) (embedding : Vec) (top_k : ℕ) (filter : Option Metadata)
        (threshold : Option S)
      → (rest others : List (S × Entry Vec)) × Perm
          ((query similarity lt s embedding top_k filter threshold ++ rest) ++ others)
          (map (λ e. (similarity embedding e.embedding, e)) (flat_map (λ kv. kv.1) s.chunks))
        × All
            (Qualifies lt filter threshold)
            (query similarity lt s embedding top_k filter threshold ++ rest)
        × All (λ c. ¬ Qualifies lt filter threshold c) others
        × Descending lt (λ c. c.0) (query similarity lt s embedding top_k filter threshold ++ rest)
        × (0 < length rest
            → length (query similarity lt s embedding top_k filter threshold) ≡ top_k)
  unfolding query all_entries
  query-best order s embedding top_k filter threshold =
      let found = candidates similarity lt embedding filter threshold (all_entries s) in
      let sorted = sort_desc lt (λ c. c.0) found in
      let (others, split, failing) = candidates-split embedding filter threshold (all_entries s) in
      (
        drop top_k sorted,
        others,
        rw take-append-drop
            (Perm.trans (Perm.append_right others (sort_desc-perm lt (λ c. c.0) found)) split),
        rw take-append-drop (
            sort_desc-All lt (λ c. c.0) _ _
              (Qualifies-All filter threshold found
                (candidates-pass embedding filter threshold (all_entries s)))),
        failing,
        rw take-append-drop (sort_desc-Descending lt (λ c. c.0) order found),
        λ h. omega (arith, length-take top_k sorted, length-drop top_k sorted),
      )
