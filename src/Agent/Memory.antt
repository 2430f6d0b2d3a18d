-- ===== src/Agent/Memory.antt =====
-- WorkingMemory (protoprompt/agent/working.py): adding, pinning, touching and evicting items. What
-- the source takes from outside (token counts, embeddings, scores, the names in a text, a scope's
-- digest) is in `Config`; events and the trace change nothing here and are left out, but for the
-- label that they compute, which may raise.
pub mod Count
pub mod Evict
pub mod Demotion
pub mod Budget
pub mod PinCap
pub mod Assemble
pub mod Note
pub mod Snapshot
pub mod Goal
pub mod ColdWhere
use protoprompt.Prelude.{
  ℕ, zero, suc, ◌+◌, ◌-◌, Bool, true, false, not, ◌&&◌, ◌||◌, Option, none, some, List, [], ◌∷◌,
  ◌++◌, Text, codes, text_eq, nat_eq, Eq, ◌==◌, length, sum_by, select, ltb, leb, if◌then◌else◌, ℤ,
  pos, negsuc, Result, ok, err, sort_desc, min_from,
}
use protoprompt.Exec.{Exec, pure, lift, gets, modify, continue, ◌>>=◌, ◌>>◌}
use protoprompt.PyText.{text_ltb}
use protoprompt.Dict
use protoprompt.Dict.{Dict}
use protoprompt.Value.{Metadata, str, int, bool, texts}
use protoprompt.Scope.{MemoryScope, scoped_metadata, scoped_doc_id}
use protoprompt.Store
use protoprompt.Store.{InMemStore}
use protoprompt.Agent.Item.{MemoryItem, summary_or_label, lineage_or_id, is_important, item_id}
use protoprompt.Agent.Manifest.{ManifestEntry, Manifest, record_entry}
use protoprompt.Agent.References.{Owners, forget_item, on_add}

pub record Config (Vec S : Type 0) : Type 0 where
  pub count : Text → ℕ
  pub identifiers : Text → List Text
  pub definitions : Text → List Text
  pub embed : Option (Text → Vec)
  pub embed_all : List Text → Result (List Vec)
  pub is_empty_vector : Vec → Bool
  pub round_score : S → S
  pub similarity : Vec → Vec → S
  pub no_vector : Vec
  pub score : MemoryItem Vec → ℕ → Option Vec → S
  pub lt : S → S → Bool
  pub digest : List Text → Text
  pub max_tokens : ℕ
  pub namespace : Text
  pub scope : Option MemoryScope
  pub dedup_off : Bool
  pub dedup_threshold : S
  pub zero_score : S
  pub max_pinned_tokens : Option ℕ

pub record Memory (Vec : Type 0) : Type 0 where
  pub items : Dict Text (MemoryItem Vec)
  pub owners : Owners
  pub step : ℕ
  pub evictions : ℕ
  pub manifest : Manifest
  pub store : Option (InMemStore Vec)
  pub seq : ℕ
  pub goal : Option Vec
  pub goal_text : Text

-- sorted(texts)
unfoldable pub sorted : List Text → List Text
unfolding text_ltb sort_desc
sorted = sort_desc (λ a b. text_ltb b a) (λ t. t)

-- The bound of the `guard` counters
abbrev pub guard_limit : ℕ
guard_limit = 10000

module _ {Vec : Type 0} where
  -- WorkingMemory.used_tokens
  unfoldable pub used_tokens : Memory Vec → ℕ
  used_tokens s = sum_by (λ i. i.tokens) (Dict.values s.items)

  -- The loop of _next_id: the count of the first id that is not taken, of at most `fuel` that are.
  unfoldable pub fresh_from : ℕ → ℕ → Dict Text (MemoryItem Vec) → ℕ
  fresh_from zero n items = n
  fresh_from (suc fuel) n items =
      let later = fresh_from fuel (suc n) items in if Dict.has (item_id n) items then later else n

  -- WorkingMemory._next_id: there are as many taken ids as items.
  unfoldable pub next_seq : Memory Vec → ℕ
  unfolding fresh_from
  next_seq s = fresh_from (length s.items) s.seq s.items

  abbrev pub set_pinned : Bool → MemoryItem Vec → MemoryItem Vec
  set_pinned b i = record i { pinned = b }

  -- Writing a changed item back to where it stands
  unfoldable pub update : Text → (MemoryItem Vec → MemoryItem Vec) → Memory Vec → Bool × Memory Vec
  update id f s = elim (Dict.get id s.items) [
    | none ↦ (false, s)
    | some item ↦ (true, record s { items = Dict.put id (f item) s.items })
  ]

  -- WorkingMemory.pin
  pub pin : Text → Memory Vec → Bool × Memory Vec
  unfolding update
  pin id = update id (set_pinned true)

  -- WorkingMemory.unpin
  pub unpin : Text → Memory Vec → Bool × Memory Vec
  unfolding update
  unpin id = update id (set_pinned false)

  -- WorkingMemory.touch
  pub touch : Text → Memory Vec → Bool × Memory Vec
  unfolding update
  touch id s =
      let (found, s') = update id (λ i. record i { last_touched = pos (s.step + 1) }) s in
      (found, if found then record s' { step = s.step + 1 } else s')

  -- [i for i in self._items.values() if i.pinned], and those that are not
  unfoldable pub pinned_items : Memory Vec → List (MemoryItem Vec)
  pinned_items s = select (λ i. i.pinned) (Dict.values s.items)

  unfoldable pub unpinned_items : Memory Vec → List (MemoryItem Vec)
  unpinned_items s = select (λ i. not i.pinned) (Dict.values s.items)

  -- (i.step, i.id) < (j.step, j.id)
  unfoldable pub older : MemoryItem Vec → MemoryItem Vec → Bool
  unfolding text_ltb
  older i j = ltb i.step j.step || (i.step == j.step && text_ltb i.id j.id)

  -- The loop of _enforce_pin_cap, with the rounds that its guard allows
  unfoldable pub pin_cap_loop : ℕ → ℕ → Memory Vec → Memory Vec
  unfolding pinned_items older min_from update
  pin_cap_loop cap zero s = s
  pin_cap_loop cap (suc rounds) s =
      let pinned = pinned_items s in
      if leb (sum_by (λ i. i.tokens) pinned) cap then s else elim pinned [
        | [] ↦ s
        | p ∷ ps ↦
            pin_cap_loop cap rounds
              (update (min_from older (λ i. i) p ps).id (set_pinned false) s).1
      ]

  -- self._items.pop(item_id), self._index.forget(item_id), self.evictions += 1
  abbrev pub take_out : Text → Memory Vec → Memory Vec
  take_out id s = record s {
    items = Dict.remove id s.items;
    owners = forget_item id s.owners;
    evictions = s.evictions + 1;
  }

module _ {Vec S : Type 0} (c : Config Vec S) where
  -- WorkingMemory._enforce_pin_cap
  pub enforce_pin_cap : Memory Vec → Memory Vec
  unfolding pin_cap_loop
  enforce_pin_cap s = elim c.max_pinned_tokens [
    | none ↦ s
    | some cap ↦ pin_cap_loop cap guard_limit s
  ]

  -- _cold_logical_doc_id
  pub cold_logical_doc_id : Text → Text
  cold_logical_doc_id lineage = c.namespace ++ (codes ":cold:" ++ lineage)

  -- item.vector or [0.0]
  pub vector_or_none : Option Vec → Vec
  vector_or_none none = c.no_vector
  vector_or_none (some v) = if c.is_empty_vector v then c.no_vector else v

  -- The metadata of the cold copy of an item; item.defs | (item.refs & item.defs) is item.defs.
  pub cold_metadata : MemoryItem Vec → Text → ℕ → Text → Metadata
  cold_metadata i summary now reason =
      (codes "cold_ns", str c.namespace)
      ∷ (codes "orig_id", str i.id)
      ∷ (codes "kind", str i.kind)
      ∷ (codes "summary", str summary)
      ∷ (codes "evicted_at", int now)
      ∷ (codes "reason", str reason)
      ∷ (codes "refcount", int i.refcount)
      ∷ (codes "recall_count", int i.recall_count)
      ∷ (codes "orig_step", int i.step)
      ∷ (codes "lineage", str (lineage_or_id i))
      ∷ (codes "important", bool (is_important i))
      ∷ (codes "symbols", texts (sorted i.defs))
      ∷ []

  -- The part of _evict_item that writes the cold copy
  pub store_cold : MemoryItem Vec → Text → Exec (Memory Vec) (Unit {0})
  unfolding cold_logical_doc_id cold_metadata sorted vector_or_none
  store_cold i reason s = elim s.store [
    | none ↦ (ok tt, s)
    | some store ↦
        (do
          summary ← lift (summary_or_label i)
          let logical = cold_logical_doc_id (lineage_or_id i)
          meta ←
              lift (scoped_metadata c.scope (cold_metadata i summary s.step reason) (some logical))
          let doc_id = scoped_doc_id c.digest logical c.scope
          modify (λ t. record t {
            store = some (
                Store.add (Store.delete store doc_id) doc_id (i.text ∷ [])
                  (vector_or_none i.vector ∷ []) meta);
          }))
          s
  ]

  -- The manifest entry of an evicted item
  pub entry_of : MemoryItem Vec → Text → ℕ → ManifestEntry
  entry_of i summary now = record {
    item_id = i.id;
    kind = i.kind;
    summary = summary;
    tokens = i.tokens;
    evicted_at = now;
    symbols = i.defs;
    lineage = lineage_or_id i;
    important = is_important i;
  }

  -- The rest of _evict_item, once the item is out of the hot set
  pub evict_found : MemoryItem Vec → Text → Exec (Memory Vec) Bool
  unfolding store_cold entry_of
  evict_found i reason = do
    store_cold i reason
    summary ← lift (summary_or_label i)
    modify (λ t. record t { manifest = record_entry (entry_of i summary t.step) t.manifest })
    pure true

  -- WorkingMemory._evict_item
  pub evict_item : Text → Text → Exec (Memory Vec) Bool
  unfolding evict_found
  evict_item id reason s = elim (Dict.get id s.items) [
    | none ↦ (ok false, s)
    | some item ↦ evict_found item reason (take_out id s)
  ]

  -- WorkingMemory.forget
  pub forget : Text → Exec (Memory Vec) Bool
  unfolding evict_item
  forget id = evict_item id (codes "manual")

  -- The item that has the lowest score now
  pub victim_of : Memory Vec → MemoryItem Vec → List (MemoryItem Vec) → MemoryItem Vec
  unfolding min_from
  victim_of s = min_from c.lt (λ i. c.score i s.step s.goal)

  -- The loop of _enforce_budget, with the rounds that its guard allows
  pub budget_loop : ℕ → Exec (Memory Vec) (Unit {0})
  unfolding used_tokens unpinned_items victim_of evict_item
  budget_loop zero s = (ok tt, s)
  budget_loop (suc rounds) s = elim (ltb c.max_tokens (used_tokens s)) [
    | false ↦ (ok tt, s)
    | true ↦ elim (unpinned_items s) [
      | [] ↦ (ok tt, s)
      | v ∷ vs ↦
          let (r, s') = evict_item (victim_of s v vs).id (codes "over_budget") s in
          continue r (λ _. budget_loop rounds) s'
    ]
  ]

  -- WorkingMemory._enforce_budget
  pub enforce_budget : Exec (Memory Vec) (Unit {0})
  unfolding budget_loop
  enforce_budget = budget_loop guard_limit

  -- The item that `add` makes
  pub new_item : Memory Vec → Text → Text → Text → Bool → MemoryItem Vec
  unfolding next_seq
  new_item s kind text summary pinned = record {
    kind = kind;
    text = text;
    step = s.step + 1;
    id = item_id (next_seq s);
    tokens = c.count text;
    refs = c.identifiers text;
    defs = c.definitions text;
    pinned = pinned;
    summary = summary;
    refcount = 0;
    last_touched = negsuc 0;
    recall_count = 0;
    lineage = [];
    vector = elim c.embed [ none ↦ none | some f ↦ some (f text) ];
  }

  -- What `add` writes before it rebalances
  pub insert_item : MemoryItem Vec → Memory Vec → Memory Vec
  insert_item item s =
      let (owners, items) = on_add item s.owners s.items in
      record s {
        items = Dict.put item.id item items;
        owners = owners;
        step = item.step;
        seq = suc (next_seq s);
      }

  -- WorkingMemory.add
  pub add : Text → Text → Text → Bool → Exec (Memory Vec) Text
  unfolding new_item insert_item enforce_pin_cap enforce_budget
  add kind text summary pinned s =
      let item = new_item s kind text summary pinned in
      (do
        modify (insert_item item)
        lift (summary_or_label item)
        modify (λ t. if pinned then enforce_pin_cap t else t)
        enforce_budget
        pure item.id)
        s
