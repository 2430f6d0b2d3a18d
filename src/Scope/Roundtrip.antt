-- ===== src/Scope/Roundtrip.antt =====
-- A scope and its own metadata (protoprompt/scope.py).
use protoprompt.Prelude.{◌≡◌, map, Text, text_eq, text_eqb, ok, arith}
use protoprompt.Dict
use protoprompt.Value.{str, Metadata}
use protoprompt.Scope.{MemoryScope, to_metadata, from_metadata}

-- The metadata that a scope alone gives
abbrev pub own_metadata : MemoryScope → Metadata
own_metadata s = map (λ kv. (kv.0, str kv.1)) (to_metadata s)

abbrev scope_of : Text → Text → Text → Text → MemoryScope
scope_of a b c d = record { tenant = a; user = b; thread = c; kind = d }

by_fields :
    (a b c d : Text) → from_metadata (own_metadata (scope_of a b c d)) ≡ ok (scope_of a b c d)
unfolding from_metadata to_metadata Dict.get text_eqb
by_fields a b c d = ground arith

-- Reading back what a scope writes gives the scope, whichever of its fields are empty.
pub from_metadata-to_metadata : (s : MemoryScope) → from_metadata (own_metadata s) ≡ ok s
from_metadata-to_metadata s = by_fields s.tenant s.user s.thread s.kind
