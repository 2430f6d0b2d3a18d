-- ===== src/Tests/Plans.antt =====
-- A receipt that its constructor refuses (protoprompt/context_plan.py).
use protoprompt.Prelude.{◌≡◌, refl, codes, err, value_error, pos, negsuc}
use protoprompt.Plan.{ContextRequestReceipt, check_receipt}

abbrev receipt : ContextRequestReceipt
receipt = record {
  trace_id = codes "t";
  max_tokens = pos 10;
  input_tokens = pos 6;
  output_reserve_tokens = pos 3;
  remaining_tokens = pos 1;
  context_tokens = pos 2;
  history_tokens = pos 2;
  final_input_tokens = pos 2;
}

check_receipt_raises :
    check_receipt (record receipt { remaining_tokens = negsuc 0 })
    ≡ err (value_error "remaining_tokens must be non-negative")
unfolding check_receipt
check_receipt_raises = refl
