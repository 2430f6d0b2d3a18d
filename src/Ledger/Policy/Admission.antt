-- ===== src/Ledger/Policy/Admission.antt =====
-- MemoryAdmissionPolicy (protoprompt/ledger/admission.py): its constructor and what it decides of a
-- candidate.
use protoprompt.Prelude.{
  ℕ, not, ◌&&◌, ◌||◌, List, [], ◌∷◌, Text, codes, ◌==◌, nat_eq, if◌then◌else◌, Result, ok,
  value_error, raise_if, ◌>>=◌, ◌>>◌,
}
use protoprompt.PyText.{is_empty}
use protoprompt.Ledger.{
  MemoryKind, fact, decision, preference, MemoryOrigin, host_assertion, MemoryRecord,
}
use protoprompt.Ledger.Validate.{validate_identifier, validate_opaque}
use protoprompt.Ledger.Transition.{is_raw_origin}
use protoprompt.Ledger.Policy.{Floats, kind_eq, origin_eq, is_among, do_overlap, has_repeats}

pub data MemoryAdmissionAction : Type 0 where
  allow quarantine reject : MemoryAdmissionAction

-- Its constructor checks the reason, which is a literal wherever a policy makes one.
pub record MemoryAdmissionDecision : Type 0 where
  pub action : MemoryAdmissionAction
  pub reason_code : Text

pub record MemoryAdmissionPolicy (F : Type 0) : Type 0 where
  pub schema_version : ℕ
  pub policy_id : Text
  pub policy_version : Text
  pub allowed_origins : List MemoryOrigin
  pub rejected_origins : List MemoryOrigin
  pub allowed_kinds : List MemoryKind
  pub minimum_confidence : F

abbrev pub safe_kinds : List MemoryKind
safe_kinds = fact ∷ decision ∷ preference ∷ []

module _ {F : Type 0} (floats : Floats F) where
  -- _finite_confidence
  abbrev pub finite_confidence : F → Result F
  finite_confidence value =
      raise_if
        (not (floats.is_finite value)
          || not (floats.le (floats.hundredths 0) value && floats.le value (floats.hundredths 100)))
        (value_error "minimum_confidence must be between 0 and 1")
      >> ok value

  -- The constructor, from the values of the fields
  unfoldable pub admission_init : MemoryAdmissionPolicy F → Result (MemoryAdmissionPolicy F)
  unfolding validate_opaque do_overlap has_repeats
  admission_init p = do
    raise_if (not (p.schema_version == 1))
        (value_error "unsupported memory admission policy schema version")
    policy_id ← validate_identifier p.policy_id
    policy_version ← validate_identifier p.policy_version
    raise_if (has_repeats p.allowed_origins)
        (value_error "allowed_origins must not contain duplicates")
    raise_if (has_repeats p.rejected_origins)
        (value_error "rejected_origins must not contain duplicates")
    raise_if (do_overlap p.allowed_origins p.rejected_origins)
        (value_error "allowed_origins and rejected_origins must not overlap")
    raise_if (is_empty p.allowed_kinds) (value_error "allowed_kinds must not be empty")
    raise_if (has_repeats p.allowed_kinds) (value_error "allowed_kinds must not contain duplicates")
    minimum ← finite_confidence p.minimum_confidence
    ok (record p {
      policy_id = policy_id;
      policy_version = policy_version;
      minimum_confidence = minimum;
    })

  -- MemoryAdmissionPolicy.safe_default
  unfoldable pub admission_safe_default : Result (MemoryAdmissionPolicy F)
  unfolding admission_init
  admission_safe_default = admission_init (record {
    schema_version = 1;
    policy_id = codes "ledger-admission-safe-v1";
    policy_version = codes "1";
    allowed_origins = host_assertion ∷ [];
    rejected_origins = [];
    allowed_kinds = safe_kinds;
    minimum_confidence = floats.hundredths 75;
  })

  -- MemoryAdmissionPolicy.evaluate
  unfoldable pub evaluate : MemoryAdmissionPolicy F → MemoryRecord F → MemoryAdmissionDecision
  unfolding is_among
  evaluate p candidate =
      if is_raw_origin candidate.origin
      then record { action = quarantine; reason_code = codes "origin_unverified" }
      else if is_among candidate.origin p.rejected_origins
      then record { action = reject; reason_code = codes "origin_rejected" }
      else if not (is_among candidate.origin p.allowed_origins)
      then record { action = quarantine; reason_code = codes "origin_requires_review" }
      else if not (is_among candidate.row.kind p.allowed_kinds)
      then record { action = quarantine; reason_code = codes "kind_requires_review" }
      else if floats.lt candidate.row.confidence p.minimum_confidence
      then record { action = quarantine; reason_code = codes "below_confidence" }
      else record { action = allow; reason_code = codes "policy_allowed" }
