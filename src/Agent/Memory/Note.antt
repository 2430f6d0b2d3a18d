-- ===== src/Agent/Memory/Note.antt =====
-- note (protoprompt/agent/working.py) and the near-duplicates of a live note.
use protoprompt.Prelude.{
  ℕ, ◌+◌, ◌<◌, ◌≡◌, refl, Bool, true, false, ◌&&◌, Option, none, some, List, [], ◌∷◌, Text, codes,
  text_eq, ◌==◌, All, length, arith, if◌then◌else◌, ltb, lt→ltb, pos, ok,
}
use protoprompt.Exec.{Exec}
use protoprompt.Dict
use protoprompt.Dict.Keys.{sum-put_old, length-put_old}
use protoprompt.Agent.Item.{MemoryItem}
use protoprompt.Agent.Memory.{Config, Memory, used_tokens, add}
use protoprompt.Agent.Memory.Count.{IsIndexed, Found, values-Found}

module _ {Vec S : Type 0} (c : Config Vec S) where
  -- Whether an item is a live note that is more similar than the best so far
  pub is_better : Vec → S → MemoryItem Vec → Bool
  is_better vec best_sim i =
      i.kind == codes "note"
      && elim i.vector [ none ↦ false | some v ↦ c.lt best_sim (c.similarity vec v) ]

  pub similarity_to : Vec → MemoryItem Vec → S
  similarity_to vec i = elim i.vector [ none ↦ c.zero_score | some v ↦ c.similarity vec v ]

  -- The loop of _find_duplicate_note
  pub best_note :
      Vec → Option (MemoryItem Vec) → S → List (MemoryItem Vec) → Option (MemoryItem Vec) × S
  unfolding is_better similarity_to
  best_note vec best best_sim [] = (best, best_sim)
  best_note vec best best_sim (i ∷ is) =
      best_note vec (if is_better vec best_sim i then some i else best)
        (if is_better vec best_sim i then similarity_to vec i else best_sim) is

  -- best_sim >= threshold, of the best note
  pub if_close : Option (MemoryItem Vec) × S → Option (MemoryItem Vec)
  if_close (none, sim) = none
  if_close (some i, sim) = if c.lt sim c.dedup_threshold then none else some i

  -- _find_duplicate_note
  unfoldable pub find_duplicate_note : (Text → Vec) → Text → Memory Vec → Option (MemoryItem Vec)
  unfolding best_note if_close
  find_duplicate_note f text s =
      if c.dedup_off
      then none
      else if_close (best_note (f text) none c.zero_score (Dict.values s.items))

  -- The note with the new text, if that is longer
  pub merged : MemoryItem Vec → Text → ℕ → MemoryItem Vec
  merged dup text now =
      if ltb (length dup.text) (length text)
      then record dup { last_touched = pos now; text = text; tokens = c.count text }
      else record dup { last_touched = pos now }

  -- WorkingMemory.note
  pub note : Text → Bool → Exec (Memory Vec) Text
  note text pinned s = elim c.embed [
    | none ↦ add c (codes "note") text [] pinned s
    | some f ↦ elim (find_duplicate_note f text s) [
      | none ↦ add c (codes "note") text [] pinned s
      | some dup ↦ (
        ok dup.id,
        record s {
          items = Dict.put dup.id (merged dup text (s.step + 1)) s.items;
          step = s.step + 1;
        },
      )
    ]
  ]

  abbrev HoldsIf : (MemoryItem Vec → Type 0) → Option (MemoryItem Vec) → Type 0
  HoldsIf P none = Unit
  HoldsIf P (some i) = P i

  best_note-All :
      (P : MemoryItem Vec → Type 0) (vec : Vec) (best : Option (MemoryItem Vec)) (sim : S)
      (is : List (MemoryItem Vec))
      → HoldsIf P best
      → All P is
      → HoldsIf P (best_note vec best sim is).0
  unfolding best_note
  best_note-All P vec best sim [] p all = p
  best_note-All P vec best sim (i ∷ is) p all =
      best_note-All P vec (if is_better vec sim i then some i else best)
        (if is_better vec sim i then similarity_to vec i else sim) is (chosen (is_better vec sim i))
        all.1
    where
      chosen : (b : Bool) → HoldsIf P (if b then some i else best)
      chosen true = all.0
      chosen false = p

  if_close-some :
      (r : Option (MemoryItem Vec) × S) (i : MemoryItem Vec) → if_close r ≡ some i → r.0 ≡ some i
  unfolding if_close
  if_close-some (none, sim) i h = h
  if_close-some (some j, sim) i h = ground arith

  -- A duplicate that is found is an item of the hot set.
  pub find_duplicate_note-Found :
      (f : Text → Vec) (text : Text) (s : Memory Vec) (dup : MemoryItem Vec)
      → IsIndexed s.items
      → find_duplicate_note f text s ≡ some dup
      → Found s.items dup
  unfolding find_duplicate_note
  find_duplicate_note-Found f text s dup h e =
      let best = best_note (f text) none c.zero_score (Dict.values s.items) in
      let is_best : best.0 ≡ some dup = if_close-some best dup (ground arith) in
      rw is_best at (
        best_note-All (Found s.items) (f text) none c.zero_score (Dict.values s.items) tt
          (values-Found s.items h))

  merged-longer :
      (dup : MemoryItem Vec) (text : Text) (now : ℕ)
      → length dup.text < length text
      → merged dup text now
        ≡ record dup { last_touched = pos now; text = text; tokens = c.count text }
  unfolding merged
  merged-longer dup text now h = rw (lt→ltb _ _ h) refl

  note-found :
      (f : Text → Vec) (text : Text) (pinned : Bool) (s : Memory Vec) (dup : MemoryItem Vec)
      → c.embed ≡ some f
      → find_duplicate_note f text s ≡ some dup
      → length dup.text < length text
      → note text pinned s ≡ (
        ok dup.id,
        record s {
          items =
              Dict.put dup.id
                (record dup { last_touched = pos (s.step + 1); text = text; tokens = c.count text })
                s.items;
          step = s.step + 1;
        },
      )
  unfolding note
  note-found f text pinned s dup e found longer =
      rw (e, note) (rw (found, note) (rw (merged-longer dup text (s.step + 1) longer) refl))

  -- Merging a longer text into a duplicate returns the duplicate's id. The duplicate stays where it
  -- stands with the new text, its tokens and the next step as its last touch, all else of the
  -- memory stays but the clock, and the new text's tokens take the place of the old one's. Nothing is
  -- evicted for it: the items are as many as they were, and the tokens in use may come to exceed
  -- the budget.
  pub note-merges :
      (f : Text → Vec) (text : Text) (pinned : Bool) (s : Memory Vec) (dup : MemoryItem Vec)
      → c.embed ≡ some f
      → IsIndexed s.items
      → find_duplicate_note f text s ≡ some dup
      → length dup.text < length text
      → (note text pinned s ≡ (
        ok dup.id,
        record s {
          items =
              Dict.put dup.id
                (record dup { last_touched = pos (s.step + 1); text = text; tokens = c.count text })
                s.items;
          step = s.step + 1;
        },
      ))
        × (used_tokens (note text pinned s).1 + dup.tokens ≡ used_tokens s + c.count text)
        × (length (note text pinned s).1.items ≡ length s.items)
  note-merges f text pinned s dup e h found longer =
      let there = find_duplicate_note-Found f text s dup h found in
      let after = record dup {
        last_touched = pos (s.step + 1);
        text = text;
        tokens = c.count text;
      } in
      let result = note-found f text pinned s dup e found longer in
      (
        result,
        rw result
            (unfold used_tokens in sum-put_old (λ i. i.tokens) dup.id after dup s.items there),
        rw result (length-put_old dup.id after dup s.items there),
      )
