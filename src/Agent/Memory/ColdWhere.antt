-- ===== src/Agent/Memory/ColdWhere.antt =====
-- _cold_where (protoprompt/agent/working.py): the filter with which the cold store is searched.
use protoprompt.Prelude.{
  ◌≡◌, refl, ◌∙◌, not, Option, none, some, [], ◌∷◌, codes, text_eq, text_eqb, Result, ok, ap, sym,
}
use protoprompt.PyText.{is_empty}
use protoprompt.Dict
use protoprompt.Value.{Metadata, str}
use protoprompt.Scope.{MemoryScope, scope_fields, to_metadata, merge_where}
use protoprompt.Scope.Merge.{Pinned, merge_where-pins, get-select}
use protoprompt.Agent.Memory.{Config}

abbrev pub namespace_where : {Vec S : Type 0} → Config Vec S → Metadata
namespace_where c = (codes "cold_ns", str c.namespace) ∷ []

abbrev pub scoped_where : Option MemoryScope → Metadata → Result Metadata
scoped_where none w = ok w
scoped_where (some s) w = merge_where s w

-- WorkingMemory._cold_where
pub cold_where : {Vec S : Type 0} → Config Vec S → Result Metadata
cold_where c = scoped_where c.scope (namespace_where c)

no_namespace : (s : MemoryScope) → Dict.get (codes "cold_ns") (to_metadata s) ≡ none
unfolding to_metadata
no_namespace s =
    get-select (λ kv. not (is_empty kv.1)) (codes "cold_ns") (scope_fields s)
      (unfold Dict.get text_eqb in refl)

-- With a scope, the filter holds the namespace and every non-empty field of the scope.
pub cold_where-Pinned :
    {Vec S : Type 0} (c : Config Vec S) (s : MemoryScope) (w : Metadata)
    → c.scope ≡ some s
    → cold_where c ≡ ok w
    → Pinned (to_metadata s) w × (Dict.get (codes "cold_ns") w ≡ some (str c.namespace))
unfolding cold_where
cold_where-Pinned c s w scoped h =
    let merged : merge_where s (namespace_where c) ≡ ok w =
      ap (λ o. scoped_where o (namespace_where c)) (sym scoped) ∙ h in
    let pins = merge_where-pins s (namespace_where c) w merged in
    (pins.0, pins.1 (codes "cold_ns") (no_namespace s) ∙ (unfold Dict.get text_eqb in refl))
