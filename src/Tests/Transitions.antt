-- ===== src/Tests/Transitions.antt =====
-- Runs of `_transition` and the due test (protoprompt/ledger/sqlite.py).
use protoprompt.Tests.Ledgers.{plain_host, row_in, one_record, command, result_or, plain_record}
use protoprompt.Prelude.{ℕ, text_eq, ◌≡◌, refl, true, false, some, codes, arith, ok}
use protoprompt.Ledger.{Time, candidate, active, on_confirmed, Ledger, MemoryRecord}
use protoprompt.Ledger.Load.{has_ended, load_record}
use protoprompt.Ledger.Transition.{transition_checked, ensure_no_receipt}
use protoprompt.Ledger.Lifecycle.{allowed}
use protoprompt.Ledger.Active.{is_due}
use protoprompt.Ledger.Active.Due.{is_due-missed}
use protoprompt.Ledger.Trace.{no_rows}
use protoprompt.Ledger.Answers.{transition_checked-idempotent}
use protoprompt.Ledger.Answers.Succeeds.{transition_checked-succeeds}

abbrev confirmed_out : MemoryRecord ℕ × Ledger ℕ
confirmed_out =
    result_or (plain_record, no_rows)
      (transition_checked plain_host on_confirmed active true command (one_record candidate))

transition_checked-idempotent_example :
    transition_checked plain_host on_confirmed active true command confirmed_out.1
    ≡ ok (confirmed_out.0, confirmed_out.1)
unfolding transition_checked
transition_checked-idempotent_example =
    transition_checked-idempotent plain_host on_confirmed active true command (one_record candidate)
      confirmed_out.1 confirmed_out.0 refl

transition_checked-succeeds_example :
    (r' : MemoryRecord ℕ) × (s' : Ledger ℕ) × (transition_checked plain_host on_confirmed active
        true command
        (one_record candidate)
      ≡ ok (r', s'))
    × (r'.row.state ≡ active)
    × (r'.row.revision ≡ 2)
unfolding load_record allowed ensure_no_receipt
transition_checked-succeeds_example =
    transition_checked-succeeds plain_host on_confirmed true command (one_record candidate)
      plain_record refl refl refl refl refl refl refl refl

abbrev half_past_twenty : Time
half_past_twenty = record { second = 20; micro = 500000 }

is_due-missed_example :
    (is_due half_past_twenty (codes "r", row_in active) ≡ false)
    × (has_ended (some (record { second = 20; micro = 0 })) half_past_twenty ≡ true)
is_due-missed_example =
    is_due-missed (codes "r") (row_in active) (record { second = 20; micro = 0 }) half_past_twenty
      refl refl refl refl (omega arith) (omega arith)
