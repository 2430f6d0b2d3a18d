-- ===== src/Agent/Memory/Snapshot.antt =====
-- export_state and import_state (protoprompt/agent/working.py): the snapshot as the dictionaries that
-- JSON keeps. An attribute that has another type than the code gives it is outside the model, as are
-- negative counts: reading one into a field of the model ends in `not_modelled`. What int() reads
-- from a text is a parameter, and a list of names in a snapshot has no repetition, since it was
-- written from a set.
pub mod Restored
use protoprompt.Prelude.{
  ℕ, Bool, true, false, not, ◌==◌, nat_eq, Option, none, some, List, [], ◌∷◌, map, Text, String,
  codes, text_eq, ℤ, pos, negsuc, if◌then◌else◌, Result, ok, err, key_error, type_error,
  runtime_error, ◌>>=◌,
}
use protoprompt.PyText.{is_empty}
use protoprompt.Exec.{Exec, pure, continue}
use protoprompt.Dict
use protoprompt.Dict.{Dict}
use protoprompt.Agent.Item.{MemoryItem}
use protoprompt.Agent.Manifest.{ManifestEntry, record_entry}
use protoprompt.Agent.References.{register_defs}
use protoprompt.Agent.Memory.{Config, Memory, sorted}

pub data Json (Vec : Type 0) : Type 0 where
  json_null : Json Vec
  json_text : Text → Json Vec
  json_int : ℤ → Json Vec
  json_bool : Bool → Json Vec
  json_names : List Text → Json Vec
  json_vector : Vec → Json Vec

-- The dictionary of export_state: its lists of objects stand apart from its other fields.
pub record Snapshot (Vec : Type 0) : Type 0 where
  pub fields : Dict Text (Json Vec)
  pub items : List (Dict Text (Json Vec))
  pub manifest : List (Dict Text (Json Vec))

abbrev pub not_modelled : {A : Type 0} → Result A
not_modelled = err (runtime_error "outside the model")

abbrev pub as_natural : ℤ → Result ℕ
as_natural (pos n) = ok n
as_natural (negsuc n) = not_modelled

module _ {Vec : Type 0} where
  abbrev pub vector_state : Option Vec → Json Vec
  vector_state none = json_null
  vector_state (some v) = json_vector v

  -- The dictionary of an item
  unfoldable pub item_state : MemoryItem Vec → Dict Text (Json Vec)
  unfolding sorted
  item_state i =
      (codes "id", json_text i.id)
      ∷ (codes "kind", json_text i.kind)
      ∷ (codes "text", json_text i.text)
      ∷ (codes "step", json_int (pos i.step))
      ∷ (codes "tokens", json_int (pos i.tokens))
      ∷ (codes "refs", json_names (sorted i.refs))
      ∷ (codes "defs", json_names (sorted i.defs))
      ∷ (codes "pinned", json_bool i.pinned)
      ∷ (codes "summary", json_text i.summary)
      ∷ (codes "refcount", json_int (pos i.refcount))
      ∷ (codes "last_touched", json_int i.last_touched)
      ∷ (codes "recall_count", json_int (pos i.recall_count))
      ∷ (codes "lineage", json_text i.lineage)
      ∷ (codes "vector", vector_state i.vector)
      ∷ []

  -- The dictionary of a manifest entry
  unfoldable pub entry_state : ManifestEntry → Dict Text (Json Vec)
  unfolding sorted
  entry_state e =
      (codes "item_id", json_text e.item_id)
      ∷ (codes "kind", json_text e.kind)
      ∷ (codes "summary", json_text e.summary)
      ∷ (codes "tokens", json_int (pos e.tokens))
      ∷ (codes "evicted_at", json_int (pos e.evicted_at))
      ∷ (codes "symbols", json_names (sorted e.symbols))
      ∷ (codes "lineage", json_text e.lineage)
      ∷ (codes "important", json_bool e.important)
      ∷ []

  -- WorkingMemory.export_state
  unfoldable pub export_state : Text → Memory Vec → Snapshot Vec
  unfolding item_state entry_state
  export_state namespace s = record {
    fields =
        (codes "step", json_int (pos s.step))
        ∷ (codes "evictions", json_int (pos s.evictions))
        ∷ (codes "namespace", json_text namespace)
        ∷ (codes "goal_text", json_text s.goal_text)
        ∷ (codes "goal_vector", vector_state s.goal)
        ∷ [];
    items = map item_state (Dict.values s.items);
    manifest = map entry_state s.manifest;
  }

  abbrev pub or_else : Json Vec → Option (Json Vec) → Json Vec
  or_else default none = default
  or_else default (some v) = v

  abbrev pub or_raise : Option (Json Vec) → Result (Json Vec)
  or_raise none = err (key_error "key")
  or_raise (some v) = ok v

  -- raw[key] and raw.get(key, default)
  unfoldable pub need : Text → Dict Text (Json Vec) → Result (Json Vec)
  unfolding Dict.get
  need key raw = or_raise (Dict.get key raw)

  unfoldable pub get_or : Text → Json Vec → Dict Text (Json Vec) → Json Vec
  unfolding Dict.get
  get_or key default raw = or_else default (Dict.get key raw)

  -- A text as it is, or under str()
  abbrev pub as_text : Json Vec → Result Text
  as_text (json_text t) = ok t
  as_text _ = not_modelled

  -- frozenset(value)
  abbrev pub as_names : Json Vec → Result (List Text)
  as_names (json_names ns) = ok ns
  as_names _ = not_modelled

module _ {Vec : Type 0} (is_empty_vector : Vec → Bool) (int_of : Text → Result ℤ) where
  -- int(value)
  abbrev pub as_int : Json Vec → Result ℤ
  as_int (json_int i) = ok i
  as_int (json_bool true) = ok (pos 1)
  as_int (json_bool false) = ok (pos 0)
  as_int (json_text t) = int_of t
  as_int json_null = err (type_error "int() argument must be a string or a number")
  as_int (json_names ns) = err (type_error "int() argument must be a string or a number")
  as_int (json_vector v) = err (type_error "int() argument must be a string or a number")

  abbrev pub as_count : Json Vec → Result ℕ
  as_count v = as_int v >>= as_natural

  -- bool(value)
  abbrev pub as_bool : Json Vec → Bool
  as_bool json_null = false
  as_bool (json_text t) = not (is_empty t)
  as_bool (json_int (pos n)) = not (n == 0)
  as_bool (json_int (negsuc n)) = true
  as_bool (json_bool b) = b
  as_bool (json_names ns) = not (is_empty ns)
  as_bool (json_vector v) = not (is_empty_vector v)

  -- list(value) if value else None
  abbrev pub as_vector : Json Vec → Result (Option Vec)
  as_vector json_null = ok none
  as_vector (json_vector v) = ok (if is_empty_vector v then none else some v)
  as_vector _ = not_modelled

  -- The item of a dictionary
  unfoldable pub item_from : Dict Text (Json Vec) → Result (MemoryItem Vec)
  unfolding need get_or
  item_from raw = do
    kind ← need (codes "kind") raw >>= as_text
    text ← need (codes "text") raw >>= as_text
    step ← need (codes "step") raw >>= as_count
    id ← need (codes "id") raw >>= as_text
    tokens ← need (codes "tokens") raw >>= as_count
    refs ← need (codes "refs") raw >>= as_names
    defs ← need (codes "defs") raw >>= as_names
    pinned ← need (codes "pinned") raw
    summary ← as_text (get_or (codes "summary") (json_text []) raw)
    refcount ← as_count (get_or (codes "refcount") (json_int (pos 0)) raw)
    last_touched ← as_int (get_or (codes "last_touched") (json_int (negsuc 0)) raw)
    recall_count ← as_count (get_or (codes "recall_count") (json_int (pos 0)) raw)
    lineage ← as_text (get_or (codes "lineage") (json_text []) raw)
    vector ← as_vector (get_or (codes "vector") json_null raw)
    ok (record {
      kind = kind;
      text = text;
      step = step;
      id = id;
      tokens = tokens;
      refs = refs;
      defs = defs;
      pinned = as_bool pinned;
      summary = summary;
      refcount = refcount;
      last_touched = last_touched;
      recall_count = recall_count;
      lineage = lineage;
      vector = vector;
    })

  -- The manifest entry of a dictionary
  unfoldable pub entry_from : Dict Text (Json Vec) → Result ManifestEntry
  unfolding need get_or
  entry_from raw = do
    item_id ← need (codes "item_id") raw >>= as_text
    kind ← need (codes "kind") raw >>= as_text
    summary ← as_text (get_or (codes "summary") (json_text []) raw)
    tokens ← as_count (get_or (codes "tokens") (json_int (pos 0)) raw)
    evicted_at ← as_count (get_or (codes "evicted_at") (json_int (pos 0)) raw)
    symbols ← as_names (get_or (codes "symbols") (json_names []) raw)
    lineage ← as_text (get_or (codes "lineage") (json_text []) raw)
    ok (record {
      item_id = item_id;
      kind = kind;
      summary = summary;
      tokens = tokens;
      evicted_at = evicted_at;
      symbols = symbols;
      lineage = lineage;
      important = as_bool (get_or (codes "important") (json_bool false) raw);
    })

  -- A value that is read, what it changes, and what follows
  abbrev pub load :
      {A : Type 0}
      → Result A
      → (A → Memory Vec → Memory Vec)
      → Exec (Memory Vec) (Unit {0})
      → Exec (Memory Vec) (Unit {0})
  load (ok a) change rest s = rest (change a s)
  load (err e) change rest s = (err e, s)

  -- self._items[item.id] = item, and the names of the item in the index
  abbrev pub take_in : MemoryItem Vec → Memory Vec → Memory Vec
  take_in i s = record s {
    items = Dict.put i.id i s.items;
    owners = register_defs i.id i.defs s.owners;
  }

  -- The loop of import_state over the items
  unfoldable pub import_items : List (Dict Text (Json Vec)) → Exec (Memory Vec) (Unit {0})
  unfolding item_from
  import_items [] = pure tt
  import_items (raw ∷ raws) = load (item_from raw) take_in (import_items raws)

  -- Its loop over the manifest
  unfoldable pub import_entries : List (Dict Text (Json Vec)) → Exec (Memory Vec) (Unit {0})
  unfolding entry_from record_entry
  import_entries [] = pure tt
  import_entries (raw ∷ raws) =
      load (entry_from raw) (λ e s. record s { manifest = record_entry e s.manifest })
        (import_entries raws)

  -- The second loop follows the first, unless that raised.
  abbrev pub before_entries :
      Exec (Memory Vec) (Unit {0}) → Exec (Memory Vec) (Unit {0}) → Exec (Memory Vec) (Unit {0})
  before_entries first second s = let (r, s') = first s in continue r (λ _. second) s'

  -- WorkingMemory.import_state. The index starts empty, as the items and the manifest do.
  unfoldable pub import_state : Snapshot Vec → Exec (Memory Vec) (Unit {0})
  unfolding get_or import_items import_entries
  import_state state =
      load (as_count (get_or (codes "step") (json_int (pos 0)) state.fields))
        (λ n s. record s { step = n })
        (load (as_count (get_or (codes "evictions") (json_int (pos 0)) state.fields))
          (λ n s. record s { evictions = n })
          (load (as_text (get_or (codes "goal_text") (json_text []) state.fields))
            (λ t s. record s { goal_text = t })
            (load (as_vector (get_or (codes "goal_vector") json_null state.fields))
              (λ v s. record s { goal = v; items = []; owners = []; manifest = [] })
              (before_entries (import_items state.items) (import_entries state.manifest)))))
