-- ===== src/Agent/Memory/Count.antt =====
-- The hot set of protoprompt/agent/working.py as a dictionary by id, and what is counted of it.
use protoprompt.Prelude.{
  ◌≡◌, inl, inr, Bool, true, not, ok, none, some, List, [], ◌∷◌, Text, text_eq, text_eqb,
  text_eqb_iff, All, select, arith, Bool-cases,
}
use mathlib.Core.Path.{subst}
use protoprompt.Dict
use protoprompt.Dict.{Dict, Unique}
use protoprompt.Dict.Keys.{put-Unique, remove-Unique}
use protoprompt.Agent.Item.{MemoryItem, summary_or_label}
use protoprompt.Agent.Memory.{Memory, unpinned_items, pinned_items}

abbrev pub Items : Type 0 → Type 0
Items Vec = Dict Text (MemoryItem Vec)

module _ {Vec : Type 0} where
  abbrev pub Keyed : Items Vec → Type 0
  Keyed items = All (λ kv. kv.0 ≡ kv.1.id) items

  pub record IsIndexed (items : Items Vec) : Type 0 where
    pub unique : Unique items
    pub keyed : Keyed items

  remove-Keyed : (k : Text) (items : Items Vec) → Keyed items → Keyed (Dict.remove k items)
  unfolding Dict.remove
  remove-Keyed k [] h = tt
  remove-Keyed k ((j, i) ∷ items) h = ground (arith, remove-Keyed k items)

  put-Keyed :
      (k : Text) (i : MemoryItem Vec) (items : Items Vec)
      → k ≡ i.id
      → Keyed items
      → Keyed (Dict.put k i items)
  unfolding Dict.put
  put-Keyed k i [] e h = (e, tt)
  put-Keyed k i ((j, i') ∷ items) e h = ground (arith, put-Keyed k i items, text_eqb_iff j k)

  pub remove-IsIndexed :
      (k : Text) {items : Items Vec} → IsIndexed items → IsIndexed (Dict.remove k items)
  remove-IsIndexed k {items} h = record {
    unique = remove-Unique k items h.unique;
    keyed = remove-Keyed k items h.keyed;
  }

  pub put-IsIndexed :
      (k : Text) (i : MemoryItem Vec) {items : Items Vec}
      → k ≡ i.id
      → IsIndexed items
      → IsIndexed (Dict.put k i items)
  put-IsIndexed k i {items} e h = record {
    unique = put-Unique k i items h.unique;
    keyed = put-Keyed k i items e h.keyed;
  }

  -- The item is found under its id.
  abbrev pub Found : Items Vec → MemoryItem Vec → Type 0
  Found items i = Dict.get i.id items ≡ some i

  Found-cons :
      (k : Text) (v : MemoryItem Vec) (items : Items Vec) (is : List (MemoryItem Vec))
      → Dict.get k items ≡ none
      → All (Found items) is
      → All (Found ((k, v) ∷ items)) is
  unfolding Dict.get
  Found-cons k v items [] h all = tt
  Found-cons k v items (i ∷ is) h all =
      (ground (arith, text_eqb_iff k i.id, all.0), Found-cons k v items is h all.1)

  pub values-Found : (items : Items Vec) → IsIndexed items → All (Found items) (Dict.values items)
  unfolding Dict.get
  values-Found [] h = tt
  values-Found ((k, i) ∷ items) h = (
    ground (arith, text_eqb_iff k i.id, h.keyed.0),
    Found-cons k i items (Dict.values items) h.unique.0
        (values-Found items (record { unique = h.unique.1; keyed = h.keyed.1 })),
  )

  select-All :
      (P : MemoryItem Vec → Type 0) (p : MemoryItem Vec → Bool) (is : List (MemoryItem Vec))
      → All P is
      → All (λ i. P i × (p i ≡ true)) (select p is)
  select-All P p [] all = tt
  select-All P p (i ∷ is) all = elim (Bool-cases (p i)) [
    | inl kept ↦ rw kept ((all.0, kept), select-All P p is all.1)
    | inr dropped ↦ rw dropped (select-All P p is all.1)
  ]

  pub unpinned-Found :
      (s : Memory Vec)
      → IsIndexed s.items
      → All (λ i. Found s.items i × (not i.pinned ≡ true)) (unpinned_items s)
  unfolding unpinned_items
  unpinned-Found s h = select-All (Found s.items) (λ i. not i.pinned) _ (values-Found s.items h)

  pub pinned-Found :
      (s : Memory Vec)
      → IsIndexed s.items
      → All (λ i. Found s.items i × (i.pinned ≡ true)) (pinned_items s)
  unfolding pinned_items
  pinned-Found s h = select-All (Found s.items) (λ i. i.pinned) _ (values-Found s.items h)

-- Every item has a summary or a label.
pub record IsLabelled {Vec : Type 0} (items : Items Vec) : Type 0 where
  pub at :
      (k : Text) (i : MemoryItem Vec)
      → Dict.get k items ≡ some i
      → (t : Text) × (summary_or_label i ≡ ok t)

-- Whatever all items have, an item that is found has.
pub get-All :
    {Vec : Type 0} (P : MemoryItem Vec → Type 0) (items : Items Vec) (k : Text) (i : MemoryItem Vec)
    → All P (Dict.values items)
    → Dict.get k items ≡ some i
    → P i
unfolding Dict.get
get-All P [] k i all h = cc
get-All P ((j, v) ∷ items) k i all h = elim (Bool-cases (text_eqb j k)) [
  | inl here ↦ let e : v ≡ i = ground arith in subst P e all.0
  | inr later ↦ get-All P items k i all.1 (ground arith)
]

pub IsLabelled-of_All :
    {Vec : Type 0} (items : Items Vec)
    → All (λ i. (t : Text) × (summary_or_label i ≡ ok t)) (Dict.values items)
    → IsLabelled items
IsLabelled-of_All items all = record { at = λ k i h. get-All _ items k i all h }
