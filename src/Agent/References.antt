-- ===== src/Agent/References.antt =====
-- The reference index (protoprompt/agent/references.py): who defines which name, and what a new
-- item's mentions do to the items that define them. The touched names that `on_add` returns go to
-- the event trace only and are left out.
pub mod Owners
use protoprompt.Prelude.{
  ℕ, zero, suc, ◌+◌, Bool, true, false, not, Option, none, some, List, [], ◌∷◌, ◌++◌, map, Text,
  text_eq, Eq, ◌==◌, any_of, select, if◌then◌else◌, ℤ, pos,
}
use protoprompt.Dict
use protoprompt.Dict.{Dict}
use protoprompt.Agent.Item.{MemoryItem}

-- ReferenceIndex._owners; each set of ids is a list without repetition.
abbrev pub Owners : Type 0
Owners = Dict Text (List Text)

-- s.add(id)
unfoldable pub add_to_set : Text → List Text → List Text
add_to_set id ids = if any_of (λ i. i == id) ids then ids else ids ++ id ∷ []

-- self._owners.get(name, ())
unfoldable pub owners_of : Text → Owners → List Text
owners_of name owners = elim (Dict.get name owners) [ none ↦ [] | some ids ↦ ids ]

-- ReferenceIndex.register_defs
unfoldable pub register_defs : Text → List Text → Owners → Owners
unfolding add_to_set owners_of
register_defs id [] owners = owners
register_defs id (name ∷ names) owners =
    register_defs id names (Dict.put name (add_to_set id (owners_of name owners)) owners)

-- ReferenceIndex.forget
unfoldable pub forget_item : Text → Owners → Owners
forget_item id = map (λ kv. (kv.0, select (λ i. not (i == id)) kv.1))

module _ {Vec : Type 0} where
  -- owner.refcount += 1; owner.last_touched = item.step
  abbrev pub bump : ℕ → MemoryItem Vec → MemoryItem Vec
  bump step owner = record owner { refcount = owner.refcount + 1; last_touched = pos step }

  -- What `on_add` does to one owner of one name
  unfoldable pub bump_owner :
      MemoryItem Vec → Text → Dict Text (MemoryItem Vec) → Dict Text (MemoryItem Vec)
  bump_owner item owner_id items =
      if owner_id == item.id then items else elim (Dict.get owner_id items) [
        | none ↦ items
        | some owner ↦ Dict.put owner_id (bump item.step owner) items
      ]

  -- The inner loop of `on_add`
  unfoldable pub bump_owners :
      MemoryItem Vec → List Text → Dict Text (MemoryItem Vec) → Dict Text (MemoryItem Vec)
  unfolding bump_owner
  bump_owners item [] items = items
  bump_owners item (id ∷ ids) items = bump_owners item ids (bump_owner item id items)

  -- The outer loop of `on_add`, over the names that the item mentions
  unfoldable pub bump_names :
      MemoryItem Vec → Owners → List Text → Dict Text (MemoryItem Vec) → Dict Text (MemoryItem Vec)
  unfolding bump_owners owners_of
  bump_names item owners [] items = items
  bump_names item owners (name ∷ names) items =
      bump_names item owners names (bump_owners item (owners_of name owners) items)

  -- ReferenceIndex.on_add: the new index, and the items with their counts
  unfoldable pub on_add :
      MemoryItem Vec → Owners → Dict Text (MemoryItem Vec) → Owners × Dict Text (MemoryItem Vec)
  unfolding bump_names register_defs
  on_add item owners items =
      (register_defs item.id item.defs owners, bump_names item owners item.refs items)
