-- ===== src/Ledger/Policy/Recall.antt =====
-- LedgerRecallPolicy (protoprompt/ledger/recall/policy.py) and the records that a plan considers
-- under it (recall/planner.py). Integers are natural numbers, so only 0 is below 1.
use protoprompt.Prelude.{
  ℕ, Bool, true, false, not, ◌&&◌, ◌||◌, Option, none, some, List, [], ◌∷◌, ◌++◌, map, Text, codes,
  ◌==◌, nat_eq, ltb, if◌then◌else◌, Result, ok, value_error, raise_if, ◌>>=◌, ◌>>◌, take, drop,
}
use protoprompt.PyText.{is_empty}
use protoprompt.Ledger.{MemoryKind, episode, MemoryOrigin, host_assertion, MemoryRecord}
use protoprompt.Ledger.Validate.{validate_identifier, validate_opaque}
use protoprompt.Ledger.Transition.{is_raw_origin}
use protoprompt.Ledger.Policy.{Floats, kind_eq, origin_eq, is_among, has_repeats}
use protoprompt.Ledger.Policy.Admission.{safe_kinds}

pub record LedgerRecallPolicy (F : Type 0) : Type 0 where
  pub schema_version : ℕ
  pub policy_id : Text
  pub allowed_kinds : List MemoryKind
  pub minimum_confidence : F
  pub active_read_limit : ℕ
  pub candidate_limit : ℕ
  pub candidate_scan_byte_budget : ℕ
  pub relevance_weight : F
  pub confidence_weight : F
  pub recency_weight : F
  pub require_admission_audit : Bool
  pub allowed_origins : Option (List MemoryOrigin)

-- MAX_ACTIVE_READ_LIMIT and MAX_CANDIDATE_LIMIT
abbrev pub max_limit : ℕ
max_limit = 10000

-- _positive_int
abbrev pub positive_int : Option ℕ → ℕ → Result ℕ
positive_int none value = raise_if (ltb value 1) (value_error "must be at least 1") >> ok value
positive_int (some maximum) value =
    raise_if (ltb value 1 || ltb maximum value) (value_error "must be from 1 to the maximum")
    >> ok value

-- The last check of the constructor
abbrev pub check_origins : Option (List MemoryOrigin) → Result (Unit {0})
unfolding has_repeats
check_origins none = ok tt
check_origins (some origins) =
    raise_if (is_empty origins) (value_error "allowed_origins must not be empty when configured")
    >> raise_if (has_repeats origins) (value_error "allowed_origins must not contain duplicates")

pub data RecallDecision : Type 0 where
  selected excluded : RecallDecision

-- Its constructor checks the reason, which is a literal wherever the planner makes one.
pub record LedgerRecallDecision (F : Type 0) : Type 0 where
  pub kind : MemoryKind
  pub decision : RecallDecision
  pub reason : Text
  pub token_cost : ℕ
  pub byte_cost : ℕ
  pub candidate_tokens : Option ℕ
  pub candidate_bytes : Option ℕ
  pub score : Option F

-- self._policy.allowed_origins is not None and record.origin not in self._policy.allowed_origins
abbrev pub is_foreign : Option (List MemoryOrigin) → MemoryOrigin → Bool
unfolding is_among
is_foreign none origin = false
is_foreign (some origins) origin = not (is_among origin origins)

abbrev pub is_missing : Option Text → Bool
is_missing none = true
is_missing (some content) = false

module _ {F : Type 0} where
  abbrev pub left_out : Text → MemoryRecord F → LedgerRecallDecision F
  left_out reason r = record {
    kind = r.row.kind;
    decision = excluded;
    reason = reason;
    token_cost = 0;
    byte_cost = 0;
    candidate_tokens = none;
    candidate_bytes = none;
    score = none;
  }

  -- Where one record goes, with those after it
  abbrev pub file_record :
      Option Text
      → MemoryRecord F
      → List (LedgerRecallDecision F) × List (MemoryRecord F)
      → List (LedgerRecallDecision F) × List (MemoryRecord F)
  file_record (some reason) r rest = (left_out reason r ∷ rest.0, rest.1)
  file_record none r rest = (rest.0, r ∷ rest.1)

module _ {F : Type 0} (floats : Floats F) where
  -- _finite_non_negative
  abbrev pub finite_non_negative : F → Result F
  finite_non_negative value =
      raise_if (not (floats.is_finite value) || floats.lt value (floats.hundredths 0))
        (value_error "must be a finite non-negative number")
      >> ok value

  abbrev is_zero : F → Bool
  is_zero value = floats.same value (floats.hundredths 0)

  -- The constructor, from the values of the fields
  unfoldable pub recall_init : LedgerRecallPolicy F → Result (LedgerRecallPolicy F)
  unfolding validate_opaque has_repeats
  recall_init p = do
    raise_if (not (p.schema_version == 1))
        (value_error "unsupported ledger recall policy schema version")
    policy_id ← validate_identifier p.policy_id
    raise_if (is_empty p.allowed_kinds) (value_error "allowed_kinds must not be empty")
    raise_if (has_repeats p.allowed_kinds) (value_error "allowed_kinds must not contain duplicates")
    minimum ← finite_non_negative p.minimum_confidence
    raise_if (floats.lt (floats.hundredths 100) minimum)
        (value_error "minimum_confidence must be between 0 and 1")
    read_limit ← positive_int (some max_limit) p.active_read_limit
    limit ← positive_int (some max_limit) p.candidate_limit
    raise_if (ltb read_limit limit)
        (value_error "candidate_limit must not exceed active_read_limit")
    bytes ← positive_int none p.candidate_scan_byte_budget
    relevance ← finite_non_negative p.relevance_weight
    confidence ← finite_non_negative p.confidence_weight
    recency ← finite_non_negative p.recency_weight
    raise_if (is_zero relevance && (is_zero confidence && is_zero recency))
        (value_error "at least one recall ranking weight must be non-zero")
    check_origins p.allowed_origins
    ok (record p {
      policy_id = policy_id;
      minimum_confidence = minimum;
      active_read_limit = read_limit;
      candidate_limit = limit;
      candidate_scan_byte_budget = bytes;
      relevance_weight = relevance;
      confidence_weight = confidence;
      recency_weight = recency;
    })

  -- The defaults of the fields
  abbrev pub recall_defaults : LedgerRecallPolicy F
  recall_defaults = record {
    schema_version = 1;
    policy_id = codes "ledger-recall-safe-v1";
    allowed_kinds = safe_kinds;
    minimum_confidence = floats.hundredths 50;
    active_read_limit = 1000;
    candidate_limit = 100;
    candidate_scan_byte_budget = 1048576;
    relevance_weight = floats.hundredths 10000;
    confidence_weight = floats.hundredths 1000;
    recency_weight = floats.hundredths 100;
    require_admission_audit = false;
    allowed_origins = none;
  }

  -- LedgerRecallPolicy.safe_default
  unfoldable pub recall_safe_default : Result (LedgerRecallPolicy F)
  unfolding recall_init
  recall_safe_default = recall_init recall_defaults

  -- LedgerRecallPolicy.admission_safe_default
  unfoldable pub recall_admission_default : Result (LedgerRecallPolicy F)
  unfolding recall_init
  recall_admission_default = recall_init (record recall_defaults {
    policy_id = codes "ledger-recall-admission-safe-v1";
    require_admission_audit = true;
  })

  -- LedgerRecallPolicy.task_resume_safe_default
  unfoldable pub recall_resume_default : Result (LedgerRecallPolicy F)
  unfolding recall_init
  recall_resume_default = recall_init (record recall_defaults {
    policy_id = codes "ledger-recall-task-resume-safe-v1";
    allowed_kinds = episode ∷ [];
    allowed_origins = some (host_assertion ∷ []);
    minimum_confidence = floats.hundredths 75;
    require_admission_audit = true;
  })

  -- Why the planner excludes a record, if it does
  unfoldable pub exclusion : LedgerRecallPolicy F → MemoryRecord F → Option Text
  unfolding is_among
  exclusion p r =
      if is_missing r.content
      then some (codes "missing_content")
      else if p.require_admission_audit && is_raw_origin r.origin
      then some (codes "admission_required")
      else if is_foreign p.allowed_origins r.origin
      then some (codes "origin_excluded")
      else if not (is_among r.row.kind p.allowed_kinds)
      then some (codes "policy_excluded")
      else if floats.lt r.row.confidence p.minimum_confidence
      then some (codes "below_confidence")
      else none

  -- The loop of the planner over the active records: the decisions and the eligible records
  unfoldable pub sort_out :
      LedgerRecallPolicy F
      → List (MemoryRecord F)
      → List (LedgerRecallDecision F) × List (MemoryRecord F)
  unfolding exclusion
  sort_out p [] = ([], [])
  sort_out p (r ∷ rs) = file_record (exclusion p r) r (sort_out p rs)

  -- The decisions once the limit is applied, and the considered records
  unfoldable pub consider :
      LedgerRecallPolicy F
      → List (MemoryRecord F)
      → List (LedgerRecallDecision F) × List (MemoryRecord F)
  unfolding sort_out
  consider p records =
      let (decisions, eligible) = sort_out p records in
      (
        decisions ++ map (left_out (codes "candidate_limit")) (drop p.candidate_limit eligible),
        take p.candidate_limit eligible,
      )
