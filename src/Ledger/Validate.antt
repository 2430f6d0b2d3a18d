-- ===== src/Ledger/Validate.antt =====
-- What the ledger asks of identifiers, references and contents (protoprompt/ledger/types.py), and of
-- the arguments that its commands share (sqlite.py).
use protoprompt.Prelude.{
  ℕ, Bool, false, not, ◌||◌, Option, none, some, List, [], ◌∷◌, Text, length, any_of, ltb, text_eq,
  ◌==◌, if◌then◌else◌, Result, ok, value_error, raise_if, ◌>>=◌, ◌>>◌,
}
use protoprompt.PyText.{strip, is_space, is_empty}
use protoprompt.Ledger.{Time, Host}

-- char.isspace() or ord(char) < 32
abbrev pub is_forbidden : ℕ → Bool
is_forbidden c = is_space c || ltb c 32

-- The body that `validate_identifier` and `validate_reference` share, with their limit.
unfoldable pub validate_opaque : ℕ → Text → Result Text
unfolding strip is_space
validate_opaque limit value =
    let normalized = strip value in
    raise_if (is_empty normalized) (value_error "must not be empty")
    >> (raise_if (ltb limit (length normalized)) (value_error "must be at most the limit")
        >> (raise_if (any_of is_forbidden normalized)
              (value_error "must be an opaque identifier without whitespace")
            >> ok normalized))

abbrev pub validate_identifier : Text → Result Text
validate_identifier = validate_opaque 128

abbrev pub validate_reference : Text → Result Text
validate_reference = validate_opaque 512

-- tuple(validate_reference(value) for value in values)
unfoldable pub validate_each : List Text → Result (List Text)
unfolding validate_opaque
validate_each [] = ok []
validate_each (v ∷ vs) = validate_reference v >>= λ n. (validate_each vs >>= λ ns. ok (n ∷ ns))

-- len(set(values)) != len(values)
unfoldable pub has_duplicates : List Text → Bool
has_duplicates [] = false
has_duplicates (v ∷ vs) = any_of (λ w. v == w) vs || has_duplicates vs

unfoldable pub validate_references : List Text → Result (List Text)
unfolding validate_each has_duplicates
validate_references values = validate_each values >>= λ normalized.
    (raise_if (ltb 32 (length normalized)) (value_error "supports at most 32 values")
      >> (raise_if (has_duplicates normalized) (value_error "must not contain duplicates")
          >> ok normalized))

unfoldable pub validate_content : Text → Result Text
unfolding strip
validate_content value =
    let normalized = strip value in
    raise_if (is_empty normalized) (value_error "content must not be empty")
    >> (raise_if (ltb 16000 (length normalized))
          (value_error "content must be at most 16000 characters")
        >> ok normalized)

-- _expected_revision: the revision is a natural number, so only 0 is below 1.
abbrev pub validate_revision : ℕ → Result ℕ
validate_revision value =
    raise_if (ltb value 1) (value_error "expected_revision must be a positive integer") >> ok value

-- _retention_policy
unfoldable pub validate_retention : Text → Result Text
unfolding strip is_space
validate_retention value =
    let normalized = strip value in
    raise_if (is_empty normalized) (value_error "retention_policy must not be empty")
    >> (raise_if (ltb 128 (length normalized) || any_of is_forbidden normalized)
          (value_error "retention_policy must be a short opaque policy identifier")
        >> ok normalized)

-- _confidence
abbrev pub validate_confidence : {F : Type 0} → Host F → F → Result F
validate_confidence host value =
    raise_if (not (host.in_unit value)) (value_error "confidence must be between 0 and 1")
    >> ok value

-- validate_identifier(value) if value is not None else None
unfoldable pub validate_optional : Option Text → Result (Option Text)
unfolding validate_opaque
validate_optional none = ok none
validate_optional (some value) = validate_identifier value >>= λ n. ok (some n)

-- _event_id, with what `uuid.uuid4().hex` would give
unfoldable pub choose_event_id : Option Text → Text → Result Text
unfolding validate_opaque
choose_event_id none fresh = ok fresh
choose_event_id (some value) fresh = if is_empty value then ok fresh else validate_identifier value

-- The arguments that the commands on a record share.
pub record Request : Type 0 where
  pub record_id : Text
  pub expected_revision : ℕ
  pub actor : Text
  pub event_id : Option Text
  pub fresh_id : Text
  pub occurred_at : Time

-- The same arguments, validated.
pub record Checked : Type 0 where
  pub record_id : Text
  pub expected_revision : ℕ
  pub related : Option Text
  pub reason : Option Text
  pub event_id : Text
  pub actor : Text
  pub occurred_at : Time

-- The lines with which `_transition` and `forget` begin.
unfoldable pub check_request : Request → Option Text → Option Text → Result Checked
unfolding validate_opaque validate_optional choose_event_id
check_request request related reason = do
  identity ← validate_identifier request.record_id
  revision ← validate_revision request.expected_revision
  related' ← validate_optional related
  reason' ← validate_optional reason
  event_id ← choose_event_id request.event_id request.fresh_id
  actor ← validate_identifier request.actor
  ok (record {
    record_id = identity;
    expected_revision = revision;
    related = related';
    reason = reason';
    event_id = event_id;
    actor = actor;
    occurred_at = request.occurred_at;
  })
