-- ===== src/Tests/Forgetting.antt =====
-- Runs of the operations that forget and erase (protoprompt/ledger/sqlite.py).
use protoprompt.Tests.Ledgers.{
  plain_host, one_past, row_in, one_record, command, result_or, record_or, plain_record, two_calls,
}
use protoprompt.Prelude.{
  ℕ, text_eq, ◌≡◌, refl, true, false, none, List, [], codes, text_eqb, ok, err, state_error,
}
use protoprompt.Dict
use protoprompt.Ledger.{
  fact, active, retracted, unknown, on_observed, Ledger, MemoryRecord, ErasureReceipt,
}
use protoprompt.Ledger.Validate.{validate_opaque}
use protoprompt.Ledger.Load.{load_record}
use protoprompt.Ledger.Create.{Draft, create_checked, is_tombstoned}
use protoprompt.Ledger.Forget.{forget_locked, forget_source_request}
use protoprompt.Ledger.Erase.{erase_checked}
use protoprompt.Ledger.Trace.{no_rows, run_calls}
use protoprompt.Ledger.Trace.Final.{Holds}
use protoprompt.Ledger.Trace.Forgotten.{
  run_calls-retracted, forget_locked-forgotten, erase_checked-permanent,
}
use protoprompt.Ledger.Trace.Revoked.{forget_source_request-permanent}

run_calls-retracted_example :
    Holds plain_host
      (codes "r")
      (λ r p. r.state ≡ retracted)
      (run_calls plain_host two_calls (one_record retracted))
unfolding Dict.get text_eqb
run_calls-retracted_example =
    run_calls-retracted plain_host two_calls (one_record retracted) (codes "r") (row_in retracted)
      refl refl

abbrev no_receipt : ErasureReceipt
no_receipt = record {
  record_id = [];
  state = none;
  payload_deleted = false;
  source_refs_deleted = 0;
  relations_deleted = 0;
  events_deleted = 0;
}

abbrev forgot : ErasureReceipt × Ledger ℕ
forgot =
    result_or (no_receipt, no_rows)
      (forget_locked plain_host (codes "asked") command (one_record active))

abbrev after_forget : MemoryRecord ℕ
after_forget = record_or plain_record (result_or none (load_record forgot.1 (codes "r")))

forget_locked-forgotten_example :
    (after_forget.row.state ≡ retracted) × (after_forget.content ≡ none)
unfolding Dict.get forget_locked run_calls
forget_locked-forgotten_example =
    forget_locked-forgotten plain_host [] (codes "asked") command (one_record active) forgot.1
      forgot.0 after_forget refl refl refl refl

abbrev erased_out : ErasureReceipt × Ledger ℕ
erased_out =
    result_or (no_receipt, no_rows)
      (erase_checked plain_host (codes "r") 1 (codes "e") one_past (one_record active))

erase_checked-permanent_example :
    (load_record (run_calls plain_host two_calls erased_out.1) (codes "r") ≡ ok none)
    × (is_tombstoned plain_host (run_calls plain_host two_calls erased_out.1) (codes "r") ≡ true)
unfolding Dict.get erase_checked
erase_checked-permanent_example =
    erase_checked-permanent plain_host two_calls (codes "r") (codes "e") 1 one_past
      (one_record active) erased_out.1 erased_out.0 refl refl

abbrev revoked_out : List ErasureReceipt × Ledger ℕ
revoked_out =
    result_or ([], no_rows)
      (forget_source_request plain_host (codes " s ") (codes "asked") (codes "host") one_past
        (λ n. codes "e") (one_record active))

abbrev draft : Draft ℕ
draft = record {
  event_type = on_observed;
  origin = unknown;
  kind = fact;
  content = codes "milk";
  source_ref = codes "s";
  evidence_refs = [];
  confidence = 50;
  requested = none;
  fresh_record_id = codes "q";
  retention_policy = codes "default";
  valid_from = none;
  valid_until = none;
  actor = codes "host";
  event_id = codes "e3";
  occurred_at = one_past;
}

forget_source_request-permanent_example :
    create_checked plain_host draft (run_calls plain_host two_calls revoked_out.1)
    ≡ err (state_error "source_ref was revoked in this scope and cannot be ingested")
unfolding validate_opaque forget_source_request
forget_source_request-permanent_example =
    forget_source_request-permanent plain_host two_calls (codes " s ") (codes "s") (codes "asked")
      (codes "host") one_past (λ n. codes "e") (one_record active) revoked_out.1 revoked_out.0 draft
      refl refl refl
