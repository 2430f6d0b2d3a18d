-- ===== src/Tests/Ledgers.antt =====
-- A sample ledger and its runs (protoprompt/ledger/sqlite.py).
use protoprompt.Prelude.{
  ℕ, text_eq, ◌≡◌, refl, Option, none, some, List, [], ◌∷◌, Text, codes, leb, nat_eqb, Result, ok,
  err,
}
use protoprompt.Dict
use protoprompt.Ledger.{
  Time, fact, MemoryState, candidate, active, host_confirmed, unknown, on_observed, MemoryRow,
  Ledger, MemoryRecord, Host, Command, transition_command, supersede_command, forget_command,
  erase_command, candidate_command, record_barrier, event_barrier, source_barrier, erased_relation,
}
use protoprompt.Ledger.Validate.{Checked}
use protoprompt.Ledger.Create.{create_candidate, Proposal}
use protoprompt.Ledger.Invariant.{IsLedger, Separates}
use protoprompt.Ledger.Trace.{
  Call, call_create, call_confirm, no_rows, run_calls, run_calls-IsLedger,
}

abbrev plain_hash : Command ℕ → Text
plain_hash (transition_command e t i n r q a) = 1 ∷ i
plain_hash (supersede_command i j m n a) = 2 ∷ i
plain_hash (forget_command i n q a) = 3 ∷ i
plain_hash (erase_command i n) = 4 ∷ i
plain_hash (candidate_command e i k x t f u a o) = 5 ∷ t
plain_hash (record_barrier i) = 6 ∷ i
plain_hash (event_barrier i) = 7 ∷ i
plain_hash (source_barrier i) = 8 ∷ i
plain_hash erased_relation = 9 ∷ []

abbrev pub plain_host : Host ℕ
plain_host = record {
  command_hash = plain_hash;
  content_hash = λ content. content;
  in_unit = λ x. leb x 100;
  same_float = nat_eqb;
}

plain_host-Separates : Separates plain_host
plain_host-Separates i j same = cc

abbrev noon : Time
noon = record { second = 12; micro = 0 }

abbrev pub one_past : Time
one_past = record { second = 13; micro = 0 }

abbrev pub row_in : MemoryState → MemoryRow ℕ
row_in state = record {
  kind = fact;
  state = state;
  trust = host_confirmed;
  content_hash = codes "tea";
  confidence = 50;
  valid_from = none;
  valid_until = some (record { second = 20; micro = 0 });
  retention_policy = codes "default";
  created_at = noon;
  updated_at = noon;
  revision = 1;
  last_event_sequence = 1;
  superseded_by = none;
  retracted_at = none;
  expired_at = none;
}

-- A ledger with one record
abbrev pub one_record : MemoryState → Ledger ℕ
one_record state = record no_rows {
  records = (codes "r", row_in state) ∷ [];
  payloads =
      (
        codes "r",
        record { content = codes "tea"; source_refs = codes "s" ∷ []; evidence_refs = [] },
      )
      ∷ [];
  origins = (codes "r", unknown) ∷ [];
  sources = record { source_ref = codes "s"; record_id = codes "r" } ∷ [];
}

abbrev pub command : Checked
command = record {
  record_id = codes "r";
  expected_revision = 1;
  related = none;
  reason = none;
  event_id = codes "e";
  actor = codes "host";
  occurred_at = one_past;
}

abbrev pub result_or : {A : Type 0} → A → Result A → A
result_or a (ok b) = b
result_or a (err e) = a

abbrev pub record_or : {A : Type 0} → A → Option A → A
record_or a (some b) = b
record_or a none = a

abbrev pub plain_record : MemoryRecord ℕ
plain_record = record {
  record_id = codes "r";
  row = row_in candidate;
  origin = unknown;
  content = some (codes "tea");
  source_refs = codes "s" ∷ [];
  evidence_refs = [];
  relations = [];
}

abbrev proposal : Proposal ℕ
proposal = record {
  event_type = on_observed;
  origin = unknown;
  kind = fact;
  content = codes "tea";
  source_ref = codes "s";
  evidence_refs = [];
  confidence = 50;
  record_id = some (codes "r");
  fresh_record_id = codes "f";
  retention_policy = codes "default";
  valid_from = none;
  valid_until = none;
  actor = codes "host";
  event_id = none;
  fresh_event_id = codes "e1";
  occurred_at = noon;
}

abbrev pub two_calls : List (Call ℕ)
two_calls =
    call_create proposal
    ∷ call_confirm (record {
      record_id = codes "r";
      expected_revision = 1;
      actor = codes "host";
      event_id = none;
      fresh_id = codes "e2";
      occurred_at = one_past;
    })
    ∷ []

-- The sample calls leave an active record of revision 2.
two_calls_run :
    record_or
      (row_in candidate)
      (Dict.get (codes "r") (run_calls plain_host two_calls no_rows).records)
    ≡ record (row_in active) {
      valid_until = none;
      updated_at = one_past;
      revision = 2;
      last_event_sequence = 2;
    }
unfolding Dict.get run_calls create_candidate
two_calls_run = refl

run_calls-IsLedger_example : IsLedger plain_host (run_calls plain_host two_calls no_rows)
run_calls-IsLedger_example = run_calls-IsLedger plain_host two_calls plain_host-Separates
