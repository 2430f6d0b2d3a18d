-- ===== src/Scope/Fresh.antt =====
-- Metadata that has none of the scope's keys (protoprompt/scope.py).
use protoprompt.Prelude.{
  ◌≡◌, refl, ◌∙◌, inl, inr, Bool, not, Option, none, some, List, [], ◌∷◌, Text, text_eq, text_eqb,
  All, select, ok, Bool-cases,
}
use protoprompt.PyText.{is_empty}
use protoprompt.Dict
use protoprompt.Value.{Metadata, str}
use protoprompt.Scope.{
  MemoryScope, scope_fields, to_metadata, conflicts, merge_metadata, mark_logical, scoped_metadata,
  logical_doc_id_key, scope_is_empty,
}
use protoprompt.Scope.Merge.{Compatible, merge_metadata-total, merge_metadata-pins, get-select}

-- None of the keys of the scope stands in the metadata.
abbrev pub NoScopeKey : MemoryScope → Metadata → Type 0
NoScopeKey s m = All (λ kv. Dict.get kv.0 m ≡ none) (scope_fields s)

select-Compatible :
    (p : Text × Text → Bool) (fields : List (Text × Text)) (m : Metadata)
    → All (λ kv. Dict.get kv.0 m ≡ none) fields
    → Compatible (select p fields) m
unfolding conflicts
select-Compatible p [] m all = tt
select-Compatible p (f ∷ fields) m all = elim (Bool-cases (p f)) [
  | inl kept ↦ rw kept (inl all.0, select-Compatible p fields m all.1)
  | inr dropped ↦ rw dropped (select-Compatible p fields m all.1)
]

merge_metadata-fresh :
    (s : MemoryScope) (m : Metadata)
    → NoScopeKey s m
    → (m' : Metadata) × (merge_metadata s m ≡ ok m')
unfolding to_metadata
merge_metadata-fresh s m fresh = elim (merge_metadata-total s m) [
  | inl (m', merged, _) ↦ (m', merged)
  | inr (_, clash) ↦
      absurd (clash (select-Compatible (λ kv. not (is_empty kv.1)) (scope_fields s) m fresh))
]

logical-no_field : (s : MemoryScope) → Dict.get logical_doc_id_key (to_metadata s) ≡ none
unfolding to_metadata
logical-no_field s =
    get-select (λ kv. not (is_empty kv.1)) logical_doc_id_key (scope_fields s)
      (unfold Dict.get text_eqb in refl)

pub scoped_metadata-fresh :
    (s : Option MemoryScope) (m : Metadata) (logical : Text)
    → ((t : MemoryScope) → NoScopeKey t m)
    → Dict.get logical_doc_id_key m ≡ none
    → (m' : Metadata) × (scoped_metadata s m (some logical) ≡ ok m')
unfolding scoped_metadata
scoped_metadata-fresh none m logical fresh absent = (m, refl)
scoped_metadata-fresh (some s) m logical fresh absent =
    let (merged, returned) = merge_metadata-fresh s m (fresh s) in
    let same =
      (merge_metadata-pins s m merged returned).1 logical_doc_id_key (logical-no_field s)
      ∙ absent in
    elim (Bool-cases (scope_is_empty s)) [
      | inl empty ↦ (merged, rw (returned, empty))
      | inr scoped ↦ (
        Dict.put logical_doc_id_key (str logical) merged,
        rw (returned, scoped, mark_logical, same, conflicts),
      )
    ]
