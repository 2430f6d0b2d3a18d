-- ===== src/Agent/References/Owners.antt =====
-- ReferenceIndex.register_defs and ReferenceIndex.forget (protoprompt/agent/references.py): which
-- items own a name.
use protoprompt.Prelude.{
  ◌≡◌, refl, ◌≢◌, inl, inr, Bool, true, false, not, ◌||◌, ◌&&◌, List, [], ◌∷◌, ◌++◌, Text, text_eq,
  text_eqb_iff, ◌==◌, any_of, select, arith, if◌then◌else◌, Bool-cases,
}
use protoprompt.Dict
use protoprompt.Dict.Laws.{get-put}
use protoprompt.Agent.References.{Owners, add_to_set, owners_of, register_defs, forget_item}

-- Whether the item owns the name
abbrev pub owns : Text → Text → Owners → Bool
owns id name owners = any_of (λ i. i == id) (owners_of name owners)

owners-forget_item :
    (id name : Text) (owners : Owners)
    → owners_of name (forget_item id owners) ≡ select (λ i. not (i == id)) (owners_of name owners)
unfolding owners_of forget_item Dict.get
owners-forget_item id name [] = refl
owners-forget_item id name ((k, ids) ∷ owners) = elim (Bool-cases (k == name)) [
  | inl here ↦ rw (here, owners_of) refl
  | inr later ↦ rw (later, owners_of) (unfold owners_of in owners-forget_item id name owners)
]

any-select :
    (id j : Text) (ids : List Text)
    → (any_of (λ i. i == id) (select (λ i. not (i == id)) ids) ≡ false)
      × (id ≢ j → any_of (λ i. i == j) (select (λ i. not (i == id)) ids) ≡ any_of (λ i. i == j) ids)
any-select id j [] = (refl, λ h. refl)
any-select id j (x ∷ ids) = ground (arith, any-select id j ids, text_eqb_iff x id, text_eqb_iff x j)

-- Forgetting an item leaves it no name, and every other item the names that it had.
pub owns-forget_item :
    (id j name : Text) (owners : Owners)
    → (owns id name (forget_item id owners) ≡ false)
      × (id ≢ j → owns j name (forget_item id owners) ≡ owns j name owners)
owns-forget_item id j name owners =
    rw (owners-forget_item id name owners) (any-select id j (owners_of name owners))

any-add_to_set :
    (id j : Text) (ids : List Text)
    → any_of (λ i. i == j) (add_to_set id ids) ≡ (id == j || any_of (λ i. i == j) ids)
unfolding add_to_set
any-add_to_set id j ids = elim (Bool-cases (any_of (λ i. i == id) ids)) [
  | inl there ↦ rw there (known ids there)
  | inr absent ↦ rw absent (appended ids)
]
  where
    known :
        (is : List Text)
        → any_of (λ i. i == id) is ≡ true
        → any_of (λ i. i == j) is ≡ (id == j || any_of (λ i. i == j) is)
    known [] h = ground arith
    known (x ∷ is) h =
        ground (arith, known is, text_eqb_iff x id, text_eqb_iff id j, text_eqb_iff x j)

    appended :
        (is : List Text)
        → any_of (λ i. i == j) (is ++ id ∷ []) ≡ (id == j || any_of (λ i. i == j) is)
    appended [] = ground arith
    appended (x ∷ is) = ground (arith, appended is)

owners-put :
    (name k : Text) (ids : List Text) (owners : Owners)
    → owners_of name (Dict.put k ids owners) ≡ (if k == name then ids else owners_of name owners)
unfolding owners_of
owners-put name k ids owners = ground (arith, get-put k name ids owners)

-- Registering an item's definitions makes it an owner of each of them, and changes no other
-- ownership.
pub owns-register_defs :
    (id j name : Text) (names : List Text) (owners : Owners)
    → owns j name (register_defs id names owners)
      ≡ (id == j && any_of (λ n. n == name) names || owns j name owners)
unfolding register_defs
owns-register_defs id j name [] owners = ground arith
owns-register_defs id j name (n ∷ names) owners =
    let owners' = Dict.put n (add_to_set id (owners_of n owners)) owners in
    ground (
      arith,
      owns-register_defs id j name names owners',
      owners-put name n (add_to_set id (owners_of n owners)) owners,
      any-add_to_set id j (owners_of n owners),
      text_eqb_iff n name,
    )
