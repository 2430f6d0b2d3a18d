-- ===== src/Tests/Scopes.antt =====
-- Runs of the memory scope (protoprompt/scope.py).
use protoprompt.Prelude.{
  ◌≡◌, refl, ◌⊎◌, false, [], ◌∷◌, codes, text_eq, text_eqb, ok, err, value_error,
}
use protoprompt.Dict
use protoprompt.Value.{str, int, Metadata, value_eqb}
use protoprompt.Scope.{
  MemoryScope, scope_is_empty, to_metadata, merge_where, from_metadata, tenant_key,
}
use protoprompt.Scope.Merge.{Compatible, merge_where-total}
use protoprompt.Scope.Identity.{storage_doc_id-injective}
use protoprompt.Scope.Roundtrip.{own_metadata, from_metadata-to_metadata}
use protoprompt.Tests.Encoding.{scope_digest, length-scope_digest, scope_digest-injective}

abbrev pub alice : MemoryScope
alice = record { tenant = codes "t"; user = codes "alice"; thread = []; kind = [] }

abbrev nobody : MemoryScope
nobody = record { tenant = []; user = []; thread = []; kind = [] }

abbrev pub plain_filter : Metadata
plain_filter = (codes "n", int 1) ∷ []

-- The filter that the scope makes of it
abbrev pub pinned_filter : Metadata
pinned_filter =
    (codes "n", int 1)
    ∷ (tenant_key, str (codes "t"))
    ∷ (codes "scope_user", str (codes "alice"))
    ∷ []

pub merge_where_runs : merge_where alice plain_filter ≡ ok pinned_filter
unfolding merge_where Dict.get Dict.put text_eqb
merge_where_runs = refl

merge_where_raises :
    merge_where alice ((tenant_key, str (codes "u")) ∷ [])
    ≡ err (value_error "where field conflicts with the host MemoryScope")
unfolding merge_where Dict.get Dict.put text_eqb value_eqb
merge_where_raises = refl

merge_where-total_example :
    ((w' : Metadata) × (merge_where alice plain_filter ≡ ok w')
      × Compatible (to_metadata alice) plain_filter)
    ⊎ ((merge_where alice plain_filter
          ≡ err (value_error "where field conflicts with the host MemoryScope"))
        × (¬ Compatible (to_metadata alice) plain_filter))
merge_where-total_example = merge_where-total alice plain_filter

alice_not_empty : scope_is_empty alice ≡ false
unfolding scope_is_empty
alice_not_empty = refl

storage_doc_id-injective_example : (alice ≡ alice) × (codes "doc" ≡ codes "doc")
storage_doc_id-injective_example =
    storage_doc_id-injective scope_digest length-scope_digest scope_digest-injective alice alice
      (codes "doc") (codes "doc") alice_not_empty alice_not_empty refl

from_metadata-to_metadata_example : from_metadata (own_metadata alice) ≡ ok alice
from_metadata-to_metadata_example = from_metadata-to_metadata alice
