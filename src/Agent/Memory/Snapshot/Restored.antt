-- ===== src/Agent/Memory/Snapshot/Restored.antt =====
-- A restart (protoprompt/agent/working.py): what import_state makes of what export_state wrote.
use protoprompt.Prelude.{
  ◌≡◌, refl, sym, ap, ◌∙◌, Bool, true, false, ◌||◌, ◌&&◌, Option, none, some, List, [], ◌∷◌, ◌++◌,
  append_assoc, append-nil, map, Text, text_eq, text_eqb, text_eqb_iff, ◌==◌, any_of, All, arith, ℤ,
  if◌then◌else◌, Result, ok, sort_desc-perm,
}
use mathlib.Core.Path.{subst}
use mathlib.Core.List.{Perm}
use protoprompt.PyText.{text_ltb}
use protoprompt.Dict
use protoprompt.Dict.{Dict, Unique}
use protoprompt.Dict.Laws.{get-append}
use protoprompt.Agent.Item.{MemoryItem}
use protoprompt.Agent.Manifest.{ManifestEntry, Manifest, record_entry}
use protoprompt.Agent.References.{Owners, register_defs, owners_of}
use protoprompt.Agent.References.Owners.{owns, owns-register_defs}
use protoprompt.Agent.Memory.{Memory, sorted}
use protoprompt.Agent.Memory.Count.{Items, Keyed, IsIndexed}
use protoprompt.Agent.Memory.Snapshot.{
  vector_state, item_state, entry_state, export_state, need, get_or, as_vector, item_from,
  entry_from, take_in, import_items, import_entries, import_state,
}

sorted-Perm : (ns : List Text) → Perm (sorted ns) ns
unfolding sorted
sorted-Perm ns = sort_desc-perm (λ a b. text_ltb b a) (λ t. t) ns

normal_entry : ManifestEntry → ManifestEntry
normal_entry e = record e { symbols = sorted e.symbols }

-- An entry and what a restart makes of it
pub record SameEntry (e e' : ManifestEntry) : Type 0 where
  pub item_id : e'.item_id ≡ e.item_id
  pub kind : e'.kind ≡ e.kind
  pub summary : e'.summary ≡ e.summary
  pub tokens : e'.tokens ≡ e.tokens
  pub evicted_at : e'.evicted_at ≡ e.evicted_at
  pub symbols : Perm e'.symbols e.symbols
  pub lineage : e'.lineage ≡ e.lineage
  pub important : e'.important ≡ e.important

abbrev pub SameEntries : Manifest → Manifest → Type 0
SameEntries [] [] = Unit
SameEntries (e ∷ es) (e' ∷ es') = SameEntry e e' × SameEntries es es'
SameEntries _ _ = ⊥

normal-SameEntries : (es : Manifest) → SameEntries es (map normal_entry es)
unfolding normal_entry
normal-SameEntries [] = tt
normal-SameEntries (e ∷ es) = (
  record {
    item_id = refl;
    kind = refl;
    summary = refl;
    tokens = refl;
    evicted_at = refl;
    symbols = sorted-Perm e.symbols;
    lineage = refl;
    important = refl;
  },
  normal-SameEntries es,
)

module _ {Vec : Type 0} (is_empty_vector : Vec → Bool) (int_of : Text → Result ℤ) where
  -- A vector that is empty is written as one and read as None.
  abbrev pub kept : Option Vec → Option Vec
  kept none = none
  kept (some v) = if is_empty_vector v then none else some v

  -- An item and what a restart makes of it
  pub record SameItem (i i' : MemoryItem Vec) : Type 0 where
    pub id : i'.id ≡ i.id
    pub kind : i'.kind ≡ i.kind
    pub text : i'.text ≡ i.text
    pub step : i'.step ≡ i.step
    pub tokens : i'.tokens ≡ i.tokens
    pub refs : Perm i'.refs i.refs
    pub defs : Perm i'.defs i.defs
    pub pinned : i'.pinned ≡ i.pinned
    pub summary : i'.summary ≡ i.summary
    pub refcount : i'.refcount ≡ i.refcount
    pub last_touched : i'.last_touched ≡ i.last_touched
    pub recall_count : i'.recall_count ≡ i.recall_count
    pub lineage : i'.lineage ≡ i.lineage
    pub vector : i'.vector ≡ kept i.vector

  -- The same keys in the same order, with the same items
  abbrev pub SameItems : Items Vec → Items Vec → Type 0
  SameItems [] [] = Unit
  SameItems ((k, i) ∷ d) ((k', i') ∷ d') = (k' ≡ k) × SameItem i i' × SameItems d d'
  SameItems _ _ = ⊥

  normal : MemoryItem Vec → MemoryItem Vec
  normal i = record i { refs = sorted i.refs; defs = sorted i.defs; vector = kept i.vector }

  normal-SameItems : (d : Items Vec) → SameItems d (map (λ kv. (kv.0, normal kv.1)) d)
  unfolding normal
  normal-SameItems [] = tt
  normal-SameItems ((k, i) ∷ d) = (
    refl,
    record {
      id = refl;
      kind = refl;
      text = refl;
      step = refl;
      tokens = refl;
      refs = sorted-Perm i.refs;
      defs = sorted-Perm i.defs;
      pinned = refl;
      summary = refl;
      refcount = refl;
      last_touched = refl;
      recall_count = refl;
      lineage = refl;
      vector = refl;
    },
    normal-SameItems d,
  )

  as_vector-vector_state :
      (v : Option Vec) → as_vector is_empty_vector int_of (vector_state v) ≡ ok (kept v)
  as_vector-vector_state none = refl
  as_vector-vector_state (some v) = refl

  item_from-item_state :
      (i : MemoryItem Vec) → item_from is_empty_vector int_of (item_state i) ≡ ok (normal i)
  unfolding item_from item_state normal need get_or Dict.get text_eqb
  item_from-item_state i = rw (as_vector-vector_state i.vector) refl

  entry_from-entry_state :
      (e : ManifestEntry)
      → entry_from is_empty_vector int_of (entry_state {Vec = Vec} e) ≡ ok (normal_entry e)
  unfolding entry_from entry_state normal_entry need get_or Dict.get text_eqb
  entry_from-entry_state e = refl

  -- The index and the hot set after the loop over the items
  replay : List (MemoryItem Vec) → Owners → Items Vec → Owners × Items Vec
  replay [] owners items = (owners, items)
  replay (i ∷ is) owners items =
      replay is (register_defs i.id i.defs owners) (Dict.put i.id i items)

  import_items-replay :
      (is : List (MemoryItem Vec)) (s : Memory Vec)
      → import_items is_empty_vector int_of (map item_state is) s ≡ (
        ok tt,
        record s {
          items = (replay (map normal is) s.owners s.items).1;
          owners = (replay (map normal is) s.owners s.items).0;
        },
      )
  unfolding import_items replay
  import_items-replay [] s = refl
  import_items-replay (i ∷ is) s =
      rw (item_from-item_state i)
        (import_items-replay is (take_in is_empty_vector int_of (normal i) s))

  import_entries-append :
      (es : Manifest) (s : Memory Vec)
      → import_entries is_empty_vector int_of (map entry_state es) s
        ≡ (ok tt, record s { manifest = s.manifest ++ map normal_entry es })
  unfolding import_entries record_entry
  import_entries-append [] s = ap (λ m. (ok tt, record s { manifest = m })) (sym (append-nil _))
  import_entries-append (e ∷ es) s = rw (entry_from-entry_state e) (
      import_entries-append es (record s { manifest = s.manifest ++ normal_entry e ∷ [] })
      ∙ ap (λ m. (ok tt, record s { manifest = m }))
          (append_assoc s.manifest (normal_entry e ∷ []) (map normal_entry es)))

  put_last :
      (k : Text) (v : MemoryItem Vec) (d : Items Vec)
      → Dict.get k d ≡ none
      → Dict.put k v d ≡ d ++ (k, v) ∷ []
  unfolding Dict.put Dict.get
  put_last k v [] h = refl
  put_last k v ((j, w) ∷ d) h = ground (arith, put_last k v d)

  -- No key of the first stands in the second.
  abbrev Disjoint : Items Vec → Items Vec → Type 0
  Disjoint d acc = All (λ kv. Dict.get kv.0 acc ≡ none) d

  Disjoint-snoc :
      (k : Text) (v : MemoryItem Vec) (d acc : Items Vec)
      → Dict.get k d ≡ none
      → Disjoint d acc
      → Disjoint d (acc ++ (k, v) ∷ [])
  unfolding Dict.get
  Disjoint-snoc k v [] acc h all = tt
  Disjoint-snoc k v ((j, w) ∷ d) acc h all = (
    ground (arith, get-append j acc ((k, v) ∷ []), all.0, text_eqb_iff j k, text_eqb_iff k j),
    Disjoint-snoc k v d acc (ground arith) all.1,
  )

  replay-lem :
      (d acc : Items Vec) (owners : Owners)
      → Unique d
      → Keyed d
      → Disjoint d acc
      → (replay (map normal (Dict.values d)) owners acc).1
        ≡ acc ++ map (λ kv. (kv.0, normal kv.1)) d
  unfolding replay normal
  replay-lem [] acc owners u k all = sym (append-nil acc)
  replay-lem ((j, i) ∷ d) acc owners u k all =
      let i' = normal i in
      let fresh : Dict.get i'.id acc ≡ none = subst (λ t. Dict.get t acc ≡ none) k.0 all.0 in
      let absent : Dict.get i'.id d ≡ none = subst (λ t. Dict.get t d ≡ none) k.0 u.0 in
      let owners' = register_defs i'.id i'.defs owners in
      let rest = map (λ kv. (kv.0, normal kv.1)) d in
      ap (λ a. (replay (map normal (Dict.values d)) owners' a).1) (put_last i'.id i' acc fresh)
      ∙ replay-lem d (acc ++ (i'.id, i') ∷ []) owners' u.1 k.1
          (Disjoint-snoc i'.id i' d acc absent all.1)
      ∙ append_assoc acc ((i'.id, i') ∷ []) rest
      ∙ ap (λ t. acc ++ (t, i') ∷ rest) (sym k.0)

  -- Whether one of the items is of this id and defines the name
  abbrev pub defines : Text → Text → List (MemoryItem Vec) → Bool
  defines id name = any_of (λ i. i.id == id && any_of (λ n. n == name) i.defs)

  owns-replay :
      (j name : Text) (is : List (MemoryItem Vec)) (owners : Owners) (items : Items Vec)
      → owns j name (replay is owners items).0 ≡ (defines j name is || owns j name owners)
  unfolding replay
  owns-replay j name [] owners items = refl
  owns-replay j name (i ∷ is) owners items = ground (
    arith,
    owns-replay j name is (register_defs i.id i.defs owners) (Dict.put i.id i items),
    owns-register_defs i.id j name i.defs owners,
  )

  values-normal :
      (d : Items Vec) → Dict.values (map (λ kv. (kv.0, normal kv.1)) d) ≡ map normal (Dict.values d)
  values-normal [] = refl
  values-normal ((k, i) ∷ d) = ap (◌∷◌ (normal i)) (values-normal d)

  none_yet : (d : Items Vec) → Disjoint d []
  unfolding Dict.get
  none_yet [] = tt
  none_yet (kv ∷ d) = (refl, none_yet d)

  -- What a restart keeps of the memory `s`
  pub record Restored (s s' : Memory Vec) : Type 0 where
    pub step : s'.step ≡ s.step
    pub evictions : s'.evictions ≡ s.evictions
    pub goal_text : s'.goal_text ≡ s.goal_text
    pub goal : s'.goal ≡ kept s.goal
    pub items : SameItems s.items s'.items
    pub manifest : SameEntries s.manifest s'.manifest
    pub owners : (id name : Text) → owns id name s'.owners ≡ defines id name (Dict.values s'.items)

  restored : Memory Vec → Memory Vec → Memory Vec
  restored s t = record t {
    step = s.step;
    evictions = s.evictions;
    goal_text = s.goal_text;
    goal = kept s.goal;
    items = (replay (map normal (Dict.values s.items)) [] []).1;
    owners = (replay (map normal (Dict.values s.items)) [] []).0;
    manifest = map normal_entry s.manifest;
  }

  import_state-restored :
      (namespace : Text) (s t : Memory Vec)
      → import_state is_empty_vector int_of (export_state namespace s) t ≡ (ok tt, restored s t)
  unfolding import_state export_state restored get_or Dict.get text_eqb
  import_state-restored namespace s t =
      rw
        (
          as_vector-vector_state s.goal,
          import_items-replay (Dict.values s.items),
          import_entries-append,
        )
        refl

  -- Importing what a memory with its items under their own ids exported, under any namespace and into
  -- any memory, does not raise and gives: the clock, the evictions and the text of the goal; the
  -- goal's vector, if it is not empty; the items under the same ids, in the same order, each field
  -- as it was but for the order of its names and for an empty vector, which is gone; the manifest, in
  -- its order, each field as it was but for the order of the symbols; and an index by which an item
  -- owns exactly the names that it defines.
  pub import_state-export_state :
      (namespace : Text) (s t : Memory Vec)
      → IsIndexed s.items
      → (s' : Memory Vec) × (import_state is_empty_vector int_of (export_state namespace s) t
          ≡ (ok tt, s'))
        × Restored s s'
  unfolding restored owners_of Dict.get
  import_state-export_state namespace s t h =
      let same : (restored s t).items ≡ map (λ kv. (kv.0, normal kv.1)) s.items =
        replay-lem s.items [] [] h.unique h.keyed (none_yet s.items) in
      (
        restored s t,
        import_state-restored namespace s t,
        record {
          step = refl;
          evictions = refl;
          goal_text = refl;
          goal = refl;
          items = rw same (normal-SameItems s.items);
          manifest = normal-SameEntries s.manifest;
          owners = λ id name.
              owns-replay id name (map normal (Dict.values s.items)) [] []
              ∙ no_owner _
              ∙ ap (defines id name) (sym (ap Dict.values same ∙ values-normal s.items));
        },
      )
    where
      no_owner : (b : Bool) → (b || false) ≡ b
      no_owner true = refl
      no_owner false = refl
