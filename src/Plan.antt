-- ===== src/Plan.antt =====
-- The receipts of a planned request (protoprompt/context_plan.py): what their constructors check,
-- and the metadata that they explain. A score is a float, whose finiteness is a parameter.
use protoprompt.Prelude.{
  ◌+◌, ◌≡◌, refl, Bool, true, false, not, Option, none, some, List, [], ◌∷◌, ◌++◌, Text, codes,
  String, ltb, nat_eq, ◌==◌, if◌then◌else◌, Result, ok, err, value_error, ℤ, pos, pos_part, int_ltb,
  All,
}
use protoprompt.PyText.{is_empty}

pub record ContextBlockDecision (S : Type 0) : Type 0 where
  pub block_id : Text
  pub origin : Text
  pub decision : Text
  pub reason : Text
  pub token_cost : ℤ
  pub candidate_tokens : Option ℤ
  pub source_id : Option Text
  pub score : Option S

pub record ContextRequestReceipt : Type 0 where
  pub trace_id : Text
  pub max_tokens : ℤ
  pub input_tokens : ℤ
  pub output_reserve_tokens : ℤ
  pub remaining_tokens : ℤ
  pub context_tokens : ℤ
  pub history_tokens : ℤ
  pub final_input_tokens : ℤ

pub record ContextDataLaneReceipt : Type 0 where
  pub lane_id : Text
  pub origin : Text
  pub media_type : Text
  pub message_count : ℤ
  pub input_tokens : ℤ
  pub data_tokens : ℤ
  pub data_bytes : ℤ
  pub record_count : ℤ

-- Raises the message of the first condition that holds, as a sequence of `if`s does.
unfoldable pub raise_first : List (Bool × String) → Result (Unit {0})
raise_first [] = ok tt
raise_first ((b, message) ∷ rest) = if b then err (value_error message) else raise_first rest

abbrev pub negative : ℤ → Bool
negative i = int_ltb i (pos 0)

-- value is not None and value < 0
pub negative_if_any : Option ℤ → Bool
negative_if_any none = false
negative_if_any (some i) = negative i

-- ContextBlockDecision.__post_init__
pub check_decision : {S : Type 0} → (S → Bool) → ContextBlockDecision S → Result (Unit {0})
unfolding raise_first negative_if_any
check_decision is_finite d = raise_first (
    (is_empty d.block_id, "block_id must not be empty")
    ∷ (is_empty d.origin, "origin must not be empty")
    ∷ (is_empty d.reason, "reason must not be empty")
    ∷ (negative d.token_cost, "token_cost must be non-negative")
    ∷ (negative_if_any d.candidate_tokens, "candidate_tokens must be non-negative")
    ∷ (
      (elim d.score [ none ↦ false | some s ↦ not (is_finite s) ]),
      "score must be finite when provided",
    )
    ∷ [])

-- The conditions of ContextRequestReceipt.__post_init__: the sums count once no field is negative.
abbrev pub receipt_checks : ContextRequestReceipt → List (Bool × String)
receipt_checks r =
    (is_empty r.trace_id, "trace_id must not be empty")
    ∷ (negative r.max_tokens, "max_tokens must be non-negative")
    ∷ (negative r.input_tokens, "input_tokens must be non-negative")
    ∷ (negative r.output_reserve_tokens, "output_reserve_tokens must be non-negative")
    ∷ (negative r.remaining_tokens, "remaining_tokens must be non-negative")
    ∷ (negative r.context_tokens, "context_tokens must be non-negative")
    ∷ (negative r.history_tokens, "history_tokens must be non-negative")
    ∷ (negative r.final_input_tokens, "final_input_tokens must be non-negative")
    ∷ (
      ltb (pos_part r.max_tokens) (pos_part r.input_tokens + pos_part r.output_reserve_tokens),
      "request exceeds its configured token budget",
    )
    ∷ (
      not (
          pos_part r.input_tokens + pos_part r.output_reserve_tokens + pos_part r.remaining_tokens
          == pos_part r.max_tokens),
      "receipt token totals must reconcile to max_tokens",
    )
    ∷ []

-- ContextRequestReceipt.__post_init__
unfoldable pub check_receipt : ContextRequestReceipt → Result (Unit {0})
unfolding raise_first
check_receipt r = raise_first (receipt_checks r)

-- ContextDataLaneReceipt.__post_init__
pub check_lane : ContextDataLaneReceipt → Result (Unit {0})
unfolding raise_first
check_lane r = raise_first (
    (is_empty r.lane_id, "lane_id must be a non-empty string")
    ∷ (is_empty r.origin, "origin must be a non-empty string")
    ∷ (is_empty r.media_type, "media_type must be a non-empty string")
    ∷ (negative r.message_count, "message_count must be a non-negative integer")
    ∷ (negative r.input_tokens, "input_tokens must be a non-negative integer")
    ∷ (negative r.data_tokens, "data_tokens must be a non-negative integer")
    ∷ (negative r.data_bytes, "data_bytes must be a non-negative integer")
    ∷ (negative r.record_count, "record_count must be a non-negative integer")
    ∷ (int_ltb r.message_count (pos 1), "message_count must be at least one")
    ∷ [])

-- A value of an explanation
pub data Field (S : Type 0) : Type 0 where
  text_field : Text → Field S
  int_field : ℤ → Field S
  score_field : S → Field S

-- result[key] = value, where there is a value
pub if_some : {A S : Type 0} → String → (A → Field S) → Option A → List (Text × Field S)
if_some key field none = []
if_some key field (some a) = (codes key, field a) ∷ []

-- ContextBlockDecision.explain
pub explain_decision : {S : Type 0} → ContextBlockDecision S → List (Text × Field S)
unfolding if_some
explain_decision d =
    (codes "block_id", text_field d.block_id)
    ∷ (codes "origin", text_field d.origin)
    ∷ (codes "decision", text_field d.decision)
    ∷ (codes "reason", text_field d.reason)
    ∷ (codes "token_cost", int_field d.token_cost)
    ∷ (if_some "candidate_tokens" int_field d.candidate_tokens
        ++ (if_some "source_id" text_field d.source_id ++ if_some "score" score_field d.score))

-- ContextRequestReceipt.explain
pub explain_receipt : {S : Type 0} → ContextRequestReceipt → List (Text × Field S)
explain_receipt r =
    (codes "trace_id", text_field r.trace_id)
    ∷ (codes "max_tokens", int_field r.max_tokens)
    ∷ (codes "input_tokens", int_field r.input_tokens)
    ∷ (codes "output_reserve_tokens", int_field r.output_reserve_tokens)
    ∷ (codes "remaining_tokens", int_field r.remaining_tokens)
    ∷ (codes "context_tokens", int_field r.context_tokens)
    ∷ (codes "history_tokens", int_field r.history_tokens)
    ∷ (codes "final_input_tokens", int_field r.final_input_tokens)
    ∷ []

-- ContextDataLaneReceipt.explain
pub explain_lane : {S : Type 0} → ContextDataLaneReceipt → List (Text × Field S)
explain_lane r =
    (codes "lane_id", text_field r.lane_id)
    ∷ (codes "origin", text_field r.origin)
    ∷ (codes "media_type", text_field r.media_type)
    ∷ (codes "message_count", int_field r.message_count)
    ∷ (codes "input_tokens", int_field r.input_tokens)
    ∷ (codes "data_tokens", int_field r.data_tokens)
    ∷ (codes "data_bytes", int_field r.data_bytes)
    ∷ (codes "record_count", int_field r.record_count)
    ∷ []

pub raise_first-All :
    (checks : List (Bool × String))
    → raise_first checks ≡ ok tt
    → All (λ check. check.0 ≡ false) checks
unfolding raise_first
raise_first-All [] h = tt
raise_first-All ((true, message) ∷ rest) h = cc
raise_first-All ((false, message) ∷ rest) h = (refl, raise_first-All rest h)

pub raise_first-none :
    (checks : List (Bool × String))
    → All (λ check. check.0 ≡ false) checks
    → raise_first checks ≡ ok tt
unfolding raise_first
raise_first-none [] h = refl
raise_first-none ((true, message) ∷ rest) h = cc h.0
raise_first-none ((false, message) ∷ rest) h = raise_first-none rest h.1
