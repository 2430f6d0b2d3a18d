-- ===== src/Ledger/Policy/Composed.antt =====
-- MemoryPolicy (protoprompt/ledger/policy.py): one contract over an admission and a recall policy.
use protoprompt.Prelude.{
  ℕ, true, not, Option, none, some, List, [], ◌∷◌, Text, codes, any_of, ◌==◌, nat_eq, Result, ok,
  err, value_error, raise_if, ◌>>=◌, ◌>>◌,
}
use protoprompt.Ledger.{MemoryOrigin, host_assertion}
use protoprompt.Ledger.Validate.{validate_identifier, validate_opaque}
use protoprompt.Ledger.Transition.{is_raw_origin}
use protoprompt.Ledger.Policy.{Floats, kind_eq, origin_eq, is_subset}
use protoprompt.Ledger.Policy.Admission.{MemoryAdmissionPolicy, safe_kinds, admission_safe_default}
use protoprompt.Ledger.Policy.Recall.{LedgerRecallPolicy, recall_defaults, recall_init}

pub record MemoryPolicy (F : Type 0) : Type 0 where
  pub schema_version : ℕ
  pub policy_id : Text
  pub policy_version : Text
  pub admission : MemoryAdmissionPolicy F
  pub recall : LedgerRecallPolicy F

abbrev pub declared_origins : Option (List MemoryOrigin) → Result (List MemoryOrigin)
declared_origins none =
    err (value_error "recall must declare concrete origins instead of legacy compatibility recall")
declared_origins (some origins) = ok origins

module _ {F : Type 0} (floats : Floats F) where
  -- The constructor, from the values of the fields
  unfoldable pub policy_init : MemoryPolicy F → Result (MemoryPolicy F)
  unfolding validate_opaque is_subset
  policy_init p = do
    raise_if (not (p.schema_version == 1)) (value_error "unsupported memory policy schema version")
    policy_id ← validate_identifier p.policy_id
    policy_version ← validate_identifier p.policy_version
    raise_if (not p.recall.require_admission_audit)
        (value_error "recall must require immutable admission audit evidence")
    origins ← declared_origins p.recall.allowed_origins
    raise_if (any_of is_raw_origin origins)
        (value_error "recall allowed_origins must exclude unknown and legacy_unknown origins")
    raise_if (not (is_subset origins p.admission.allowed_origins))
        (value_error "recall allowed_origins must be a subset of admission allowed_origins")
    raise_if (not (is_subset p.recall.allowed_kinds p.admission.allowed_kinds))
        (value_error "recall allowed_kinds must be a subset of admission allowed_kinds")
    raise_if (floats.lt p.recall.minimum_confidence p.admission.minimum_confidence)
        (value_error "recall minimum_confidence must not be lower than that of the admission")
    ok (record p { policy_id = policy_id; policy_version = policy_version })

  -- _safe_recall_policy
  unfoldable pub safe_recall_policy : Result (LedgerRecallPolicy F)
  unfolding recall_init
  safe_recall_policy = recall_init floats (record (recall_defaults floats) {
    policy_id = codes "memory-policy-safe-recall-v1";
    allowed_kinds = safe_kinds;
    allowed_origins = some (host_assertion ∷ []);
    minimum_confidence = floats.hundredths 75;
    require_admission_audit = true;
  })

  -- MemoryPolicy.safe_default
  unfoldable pub policy_safe_default : Result (MemoryPolicy F)
  unfolding policy_init safe_recall_policy admission_safe_default
  policy_safe_default = do
    admission ← admission_safe_default floats
    recall ← safe_recall_policy
    policy_init (record {
      schema_version = 1;
      policy_id = codes "memory-policy-safe-v1";
      policy_version = codes "1";
      admission = admission;
      recall = recall;
    })
