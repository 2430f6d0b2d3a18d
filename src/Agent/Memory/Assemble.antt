-- ===== src/Agent/Memory/Assemble.antt =====
-- assemble (protoprompt/agent/working.py): packing the hottest items into the token budget. The
-- rounding of a score to three digits and the embedding of a batch come from outside.
use protoprompt.PyText.{is_empty, join}
use protoprompt.Prelude.{
  Result, ok, err, codes, ℕ, ◌+◌, ◌-◌, ◌≤◌, ◌<◌, ◌≡◌, none, some, List, [], ◌∷◌, ◌++◌, map, Text,
  text_eq, All, sum_by, if◌then◌else◌, leb, sort_desc,
}
use mathlib.Core.List.{Perm}
use mathlib.Core.List.Perm
use protoprompt.Exec.{Exec, gets, ◌>>◌}
use protoprompt.Dict
use protoprompt.Dict.{Dict}
use protoprompt.Agent.Item.{MemoryItem}
use protoprompt.Agent.Manifest.{lines}
use protoprompt.Agent.Memory.{Config, Memory}

pub record ContextBlock (S : Type 0) : Type 0 where
  pub item_id : Text
  pub kind : Text
  pub text : Text
  pub score : S

pub record AssembledContext (S : Type 0) : Type 0 where
  pub blocks : List (ContextBlock S)
  pub used_tokens : ℕ
  pub budget : ℕ
  pub skipped_ids : List Text
  pub manifest_lines : List Text

-- f"[{block.kind} · {block.item_id}]\n{block.text}"
pub render_block : {S : Type 0} → ContextBlock S → Text
render_block b = codes "[" ++ (b.kind ++ (codes " · " ++ (b.item_id ++ (codes "]\n" ++ b.text))))

-- AssembledContext.render
pub render : {S : Type 0} → AssembledContext S → Text
unfolding join render_block
render c =
    let listed =
      codes "[холодильник — доступно через recall]\n" ++ join (codes "\n") c.manifest_lines in
    join (codes "\n\n")
      (map render_block c.blocks ++ (if is_empty c.manifest_lines then [] else listed ∷ []))

-- The items that fit, those that are skipped, and the tokens left
pub record Packing (Vec : Type 0) : Type 0 where
  pub chosen : List (MemoryItem Vec)
  pub skipped : List (MemoryItem Vec)
  pub remaining : ℕ

module _ {Vec : Type 0} where
  -- The loop of `assemble`
  pub greedy : ℕ → List (MemoryItem Vec) → Packing Vec
  greedy remaining [] = record { chosen = []; skipped = []; remaining = remaining }
  greedy remaining (i ∷ is) =
      let fits = greedy (remaining - i.tokens) is in
      let skips = greedy remaining is in
      if leb i.tokens remaining
      then record fits { chosen = i ∷ fits.chosen }
      else record skips { skipped = i ∷ skips.skipped }

module _ {Vec S : Type 0} (c : Config Vec S) where
  -- The texts of [i for i in self._items.values() if i.vector is None]
  pub pending_texts : Dict Text (MemoryItem Vec) → List Text
  pending_texts [] = []
  pending_texts ((k, i) ∷ d) = elim i.vector [
    | none ↦ i.text ∷ pending_texts d
    | some v ↦ pending_texts d
  ]

  -- The loop over zip(pending, vectors)
  pub fill_from : List Vec → Dict Text (MemoryItem Vec) → Dict Text (MemoryItem Vec)
  fill_from [] d = d
  fill_from (v ∷ vs) [] = []
  fill_from (v ∷ vs) ((k, i) ∷ d) = elim i.vector [
    | none ↦ (k, record i { vector = some v }) ∷ fill_from vs d
    | some w ↦ (k, i) ∷ fill_from (v ∷ vs) d
  ]

  -- The vectors that the client returned, or what it raised
  pub filled : Result (List Vec) → Exec (Memory Vec) (Unit {0})
  unfolding fill_from
  filled (err e) s = (err e, s)
  filled (ok vs) s = (ok tt, record s { items = fill_from vs s.items })

  -- WorkingMemory._fill_missing_vectors
  pub fill_missing_vectors : Exec (Memory Vec) (Unit {0})
  unfolding pending_texts filled
  fill_missing_vectors s = elim c.embed [
    | none ↦ (ok tt, s)
    | some f ↦
        if is_empty (pending_texts s.items)
        then (ok tt, s)
        else filled (c.embed_all (pending_texts s.items)) s
  ]

  pub score_now : Memory Vec → MemoryItem Vec → S
  score_now s i = c.score i s.step s.goal

  -- The items by score, the hottest first
  pub scored_items : Memory Vec → List (MemoryItem Vec)
  unfolding sort_desc score_now
  scored_items s = sort_desc c.lt (score_now s) (Dict.values s.items)

  pub block_of : Memory Vec → MemoryItem Vec → ContextBlock S
  unfolding score_now
  block_of s i = record {
    item_id = i.id;
    kind = i.kind;
    text = i.text;
    score = c.round_score (score_now s i);
  }

  -- The packing of `assemble`
  pub packing : Memory Vec → Packing Vec
  unfolding greedy scored_items
  packing s = greedy c.max_tokens (scored_items s)

  -- The context of a memory whose vectors are filled in
  pub context_of : Memory Vec → AssembledContext S
  unfolding packing block_of lines
  context_of s =
      let packed = packing s in
      record {
        blocks = map (block_of s) packed.chosen;
        used_tokens = c.max_tokens - packed.remaining;
        budget = c.max_tokens;
        skipped_ids = map (λ i. i.id) packed.skipped;
        manifest_lines = lines s.manifest;
      }

  -- WorkingMemory.assemble
  pub assemble : Exec (Memory Vec) (AssembledContext S)
  unfolding fill_missing_vectors context_of
  assemble = fill_missing_vectors >> gets context_of

  -- The context that `assemble` returns: its blocks and its skipped ids are those of a split of the
  -- hot set; the blocks' tokens are the tokens used, within the budget; and nothing that is skipped
  -- would fit in the tokens left.
  pub record IsAssembled (s : Memory Vec) (r : AssembledContext S) : Type 0 where
    pub chosen : List (MemoryItem Vec)
    pub skipped : List (MemoryItem Vec)
    pub blocks : r.blocks ≡ map (block_of s) chosen
    pub skipped_ids : r.skipped_ids ≡ map (λ i. i.id) skipped
    pub partition : Perm (chosen ++ skipped) (Dict.values s.items)
    pub used : r.used_tokens ≡ sum_by (λ i. i.tokens) chosen
    pub within : r.used_tokens ≤ c.max_tokens
    pub maximal : All (λ i. c.max_tokens < r.used_tokens + i.tokens) skipped
