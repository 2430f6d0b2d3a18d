-- ===== src/Scope.antt =====
-- The host-owned memory scope of protoprompt/scope.py. The digest of a list of texts
-- (BLAKE2b of its JSON, in hexadecimal) is a parameter. The proofs are in the modules below.
pub mod Merge
pub mod Identity
pub mod Roundtrip
pub mod Fresh
use protoprompt.Prelude.{
  ◌≡◌, Bool, true, false, not, ◌&&◌, Option, none, some, List, [], ◌∷◌, ◌++◌, map, Text, codes,
  text_eq, select, Result, ok, err, value_error, type_error, ◌>>=◌, String, if◌then◌else◌, Eq, ◌==◌,
}
use protoprompt.PyText.{is_empty}
use protoprompt.Dict
use protoprompt.Dict.{Dict}
use protoprompt.Value.{Value, null, str, Metadata, value_eqb}

pub record MemoryScope : Type 0 where
  pub tenant : Text
  pub user : Text
  pub thread : Text
  pub kind : Text

abbrev pub tenant_key : Text
tenant_key = codes "scope_tenant"

abbrev pub user_key : Text
user_key = codes "scope_user"

abbrev pub thread_key : Text
thread_key = codes "scope_thread"

abbrev pub kind_key : Text
kind_key = codes "scope_kind"

abbrev pub logical_doc_id_key : Text
logical_doc_id_key = codes "logical_doc_id"

-- (key, getattr(self, name)) for name, key in _SCOPE_FIELDS
abbrev pub scope_fields : MemoryScope → List (Text × Text)
scope_fields s =
    (tenant_key, s.tenant) ∷ (user_key, s.user) ∷ (thread_key, s.thread) ∷ (kind_key, s.kind) ∷ []

-- MemoryScope.is_empty
unfoldable pub scope_is_empty : MemoryScope → Bool
scope_is_empty s = is_empty s.tenant && is_empty s.user && is_empty s.thread && is_empty s.kind

-- MemoryScope.to_metadata, and MemoryScope.to_where
unfoldable pub to_metadata : MemoryScope → List (Text × Text)
to_metadata s = select (λ kv. not (is_empty kv.1)) (scope_fields s)

-- existing is not None and existing != value
pub conflicts : Option Value → Text → Bool
conflicts none value = false
conflicts (some null) value = false
conflicts (some existing) value = not (value_eqb existing (str value))

-- The loop of MemoryScope.merge_metadata and of MemoryScope.merge_where
pub merge_fields : String → List (Text × Text) → Metadata → Result Metadata
unfolding conflicts
merge_fields message [] merged = ok merged
merge_fields message ((key, value) ∷ fields) merged =
    let rest = merge_fields message fields (Dict.put key (str value) merged) in
    if conflicts (Dict.get key merged) value then err (value_error message) else rest

-- MemoryScope.merge_metadata
pub merge_metadata : MemoryScope → Metadata → Result Metadata
unfolding merge_fields to_metadata
merge_metadata s = merge_fields "metadata field conflicts with the host MemoryScope" (to_metadata s)

-- MemoryScope.merge_where
unfoldable pub merge_where : MemoryScope → Metadata → Result Metadata
unfolding merge_fields to_metadata
merge_where s = merge_fields "where field conflicts with the host MemoryScope" (to_metadata s)

-- MemoryScope.correlation_id
pub correlation_id : (List Text → Text) → MemoryScope → Text
unfolding scope_is_empty
correlation_id digest s =
    if scope_is_empty s then [] else digest (s.tenant ∷ s.user ∷ s.thread ∷ s.kind ∷ [])

-- MemoryScope.storage_doc_id
pub storage_doc_id : (List Text → Text) → MemoryScope → Text → Text
unfolding correlation_id
storage_doc_id digest s doc_id =
    if scope_is_empty s
    then doc_id
    else codes "ppscope_" ++ (correlation_id digest s ++ (codes "__" ++ doc_id))

-- metadata.get(key, ""), which must be a `str`
pub field_from : Option Value → Result Text
field_from none = ok []
field_from (some (str value)) = ok value
field_from (some v) = err (type_error "metadata field must be a string")

-- MemoryScope.from_metadata
pub from_metadata : Metadata → Result MemoryScope
unfolding field_from
from_metadata metadata = do
  tenant ← field_from (Dict.get tenant_key metadata)
  user ← field_from (Dict.get user_key metadata)
  thread ← field_from (Dict.get thread_key metadata)
  kind ← field_from (Dict.get kind_key metadata)
  ok (record { tenant = tenant; user = user; thread = thread; kind = kind })

-- The logical-id marker of scoped_metadata
pub mark_logical : Text → Metadata → Result Metadata
unfolding conflicts
mark_logical logical merged =
    if conflicts (Dict.get logical_doc_id_key merged) logical
    then err (value_error "metadata field 'logical_doc_id' conflicts with doc_id")
    else ok (Dict.put logical_doc_id_key (str logical) merged)

-- scoped_metadata
pub scoped_metadata : Option MemoryScope → Metadata → Option Text → Result Metadata
unfolding merge_metadata mark_logical scope_is_empty
scoped_metadata none metadata logical = ok metadata
scoped_metadata (some s) metadata none = merge_metadata s metadata
scoped_metadata (some s) metadata (some logical) = do
  merged ← merge_metadata s metadata
  if scope_is_empty s then ok merged else mark_logical logical merged

-- scoped_doc_id
pub scoped_doc_id : (List Text → Text) → Text → Option MemoryScope → Text
unfolding storage_doc_id
scoped_doc_id digest doc_id none = doc_id
scoped_doc_id digest doc_id (some s) = storage_doc_id digest s doc_id
