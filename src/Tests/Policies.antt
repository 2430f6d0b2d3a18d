-- ===== src/Tests/Policies.antt =====
-- Runs of the ledger's policies (protoprompt/ledger/policy.py).
use protoprompt.Prelude.{
  Option, none, Text, length, map, ◌++◌, ◌≤◌, ℕ, ◌≡◌, refl, true, false, some, List, [], ◌∷◌, codes,
  text_eq, All, leb, ltb, nat_eqb, ok, arith,
}
use protoprompt.Ledger.{MemoryKind, active, user_input, host_assertion, MemoryOrigin, MemoryRecord}
use protoprompt.Ledger.Policy.{Floats}
use protoprompt.Ledger.Policy.Admission.{safe_kinds, allow, admission_init, evaluate}
use protoprompt.Ledger.Policy.Recall.{recall_defaults, recall_init, consider}
use protoprompt.Ledger.Policy.Composed.{MemoryPolicy, policy_init, policy_safe_default}
use protoprompt.Ledger.Policy.Admitted.{consider-Allowed}
use protoprompt.Ledger.Policy.Packing.{
  Printer, Packing, ScoredCandidate, pack_plan, render_data, utf8_size, selection_of,
  chosen_decision, too_large,
}
use protoprompt.Ledger.Policy.Packing.Fits.{pack_plan-WithinBudget}
use protoprompt.Tests.Ledgers.{row_in, plain_record}

abbrev whole_floats : Floats ℕ
whole_floats = record {
  is_finite = λ n. leb n 1000000;
  lt = ltb;
  le = leb;
  same = nat_eqb;
  hundredths = λ n. n;
}

whole_order :
    (a b c : ℕ) → leb b 1000000 ≡ true → ltb a b ≡ false → ltb b c ≡ false → ltb a c ≡ false
whole_order a b c finite h k = ground arith

abbrev safe_contract : MemoryPolicy ℕ
safe_contract = record {
  schema_version = 1;
  policy_id = codes "memory-policy-safe-v1";
  policy_version = codes "1";
  admission = record {
    schema_version = 1;
    policy_id = codes "ledger-admission-safe-v1";
    policy_version = codes "1";
    allowed_origins = host_assertion ∷ [];
    rejected_origins = [];
    allowed_kinds = safe_kinds;
    minimum_confidence = 75;
  };
  recall = record (recall_defaults whole_floats) {
    policy_id = codes "memory-policy-safe-recall-v1";
    allowed_origins = some (host_assertion ∷ []);
    minimum_confidence = 75;
    require_admission_audit = true;
  };
}

-- The default contract is accepted.
safe_default_runs : policy_safe_default whole_floats ≡ ok safe_contract
unfolding policy_safe_default
safe_default_runs = refl

abbrev record_from : MemoryOrigin → ℕ → MemoryRecord ℕ
record_from origin confidence = record plain_record {
  origin = origin;
  row = record (row_in active) { confidence = confidence };
}

abbrev three_records : List (MemoryRecord ℕ)
three_records =
    record_from host_assertion 80 ∷ record_from host_assertion 70 ∷ record_from user_input 90 ∷ []

-- Of the sample records, the plan considers the first.
considered_run :
    (consider whole_floats safe_contract.recall three_records).1
    ≡ record_from host_assertion 80 ∷ []
unfolding consider
considered_run = refl

consider-Allowed_example :
    All
      (λ x.
        evaluate whole_floats safe_contract.admission x
        ≡ record { action = allow; reason_code = codes "policy_allowed" })
      (consider whole_floats safe_contract.recall three_records).1
unfolding admission_init recall_init policy_init
consider-Allowed_example =
    consider-Allowed whole_floats whole_order safe_contract.admission safe_contract.recall
      safe_contract safe_contract three_records refl refl refl

-- Sample texts in place of JSON: each record takes its content and a code point for its end.
abbrev flat_texts : List (Option Text × MemoryKind) → Text
flat_texts [] = codes "#"
flat_texts ((none, k) ∷ rest) = flat_texts rest
flat_texts ((some content, k) ∷ rest) = content ++ 44 ∷ flat_texts rest

abbrev flat_printer : Printer
flat_printer = record {
  json_record = λ shape. [];
  json_envelope = flat_texts;
  count = length;
  is_regex = false;
}

abbrev scored_record : MemoryOrigin → ScoredCandidate ℕ
scored_record origin = record {
  entry = record_from origin 80;
  score = 1;
  relevance = 1;
  confidence_signal = 80;
  recency_signal = 0;
  scan_bytes = 3;
}

abbrev two_scored : List (ScoredCandidate ℕ)
two_scored = scored_record host_assertion ∷ scored_record user_input ∷ []

-- A budget of six tokens has room for the first of the two.
abbrev packed : Packing ℕ
packed = record {
  chosen = record_from host_assertion 80 ∷ [];
  selections = selection_of (record_from host_assertion 80) ∷ [];
  decisions =
      chosen_decision (scored_record host_assertion) 4 4
      ∷ too_large "over_token_budget" (scored_record user_input) 4 4
      ∷ [];
  used_tokens = 5;
  used_bytes = 5;
}

pack_plan-WithinBudget_example :
    (length (render_data flat_printer packed.chosen) ≡ 5)
    × (5 ≤ 6)
    × (utf8_size (render_data flat_printer packed.chosen) ≡ some 5)
    × (5 ≤ 100)
    × (packed.selections ≡ map selection_of packed.chosen)
unfolding pack_plan
pack_plan-WithinBudget_example = pack_plan-WithinBudget flat_printer 6 100 [] two_scored packed refl
