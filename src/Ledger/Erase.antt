-- ===== src/Ledger/Erase.antt =====
-- The hard erasure of a record (protoprompt/ledger/sqlite.py).
use protoprompt.Prelude.{
  ℕ, ◌+◌, not, ◌&&◌, ◌||◌, Option, none, some, List, [], ◌∷◌, ◌++◌, map, Text, text_eq, ◌==◌,
  if◌then◌else◌, Result, ok, conflict_error, raise_if, ◌>>=◌, ◌>>◌, length, select,
}
use protoprompt.Dict
use protoprompt.Dict.{Dict}
use protoprompt.Ledger.{
  Time, MemoryEvent, ErasureReceipt, HardReceipt, MemoryRow, Ledger, Host, erase_command,
  record_barrier, event_barrier, erased_relation,
}
use protoprompt.Ledger.Validate.{
  validate_opaque, validate_identifier, validate_revision, choose_event_id, Request,
}
use protoprompt.Ledger.Load.{load_record, check_revision}
use protoprompt.Ledger.Transition.{commit, ensure_no_receipt, require}
use protoprompt.Ledger.Lifecycle.{invalidate}
use protoprompt.Ledger.Forget.{insert_ignore, points_to, touches, count_pointing}

-- d.keys()
abbrev pub keys_of : {V : Type 0} → Dict Text V → List Text
keys_of = map (λ kv. kv.0)

-- An event after `_redact_erased_relation_references_locked`
unfoldable pub redact_event : Text → Text → MemoryEvent → MemoryEvent
redact_event digest identity e =
    if not (e.record_id == identity) && points_to identity e.related_record_id
    then record e { related_record_id = none; payload_hash = digest }
    else e

-- superseded_by = NULL, where it names the record
abbrev pub clear_pointing : {F : Type 0} → Text → MemoryRow F → MemoryRow F
clear_pointing identity r =
    if points_to identity r.superseded_by then record r { superseded_by = none } else r

module _ {F : Type 0} (host : Host F) where
  -- The INSERTs into memory_erased_event_tombstones
  unfoldable pub bar_events : List Text → List Text → List Text
  unfolding insert_ignore
  bar_events [] keys = keys
  bar_events (event_id ∷ ids) keys =
      bar_events ids (insert_ignore (host.command_hash (event_barrier event_id)) keys)

  -- prior_event_ids
  unfoldable pub prior_event_ids : Ledger F → Text → List Text
  unfolding Dict.keep
  prior_event_ids s identity =
      keys_of (Dict.keep (λ k e. e.record_id == identity) s.events)
      ++ keys_of (Dict.keep (λ k r. r.receipt.record_id == identity) s.erasure_receipts)

  -- The receipt that `erase` builds from the rows it deletes
  unfoldable pub hard_receipt_of : Ledger F → Text → ErasureReceipt
  unfolding count_pointing Dict.keep
  hard_receipt_of s identity = record {
    record_id = identity;
    state = none;
    payload_deleted = Dict.has identity s.payloads;
    source_refs_deleted = length (select (λ r. r.record_id == identity) s.sources);
    relations_deleted =
        length (select (touches identity) s.relations) + count_pointing identity s.records;
    events_deleted = length (Dict.keep (λ k e. e.record_id == identity) s.events);
  }

  -- The writes of `erase` but the receipt. The metadata of the record goes with its row, by ON
  -- DELETE CASCADE.
  unfoldable pub erase_rows : Ledger F → Text → Time → Ledger F
  unfolding invalidate redact_event bar_events prior_event_ids insert_ignore Dict.update Dict.keep
      Dict.remove
  erase_rows s identity now = record s {
    checkpoints = Dict.update (λ k. invalidate identity "selected_record_erased" now) s.checkpoints;
    events =
        Dict.keep (λ k e. not (e.record_id == identity))
          (Dict.update (λ k. redact_event (host.command_hash erased_relation) identity) s.events);
    payloads = Dict.remove identity s.payloads;
    sources = select (λ r. not (r.record_id == identity)) s.sources;
    erasure_receipts = Dict.keep (λ k r. not (r.receipt.record_id == identity)) s.erasure_receipts;
    tombstones = insert_ignore (host.command_hash (record_barrier identity)) s.tombstones;
    event_tombstones = bar_events (prior_event_ids s identity) s.event_tombstones;
    relations = select (λ r. not (touches identity r)) s.relations;
    records = Dict.remove identity (Dict.update (λ k. clear_pointing identity) s.records);
    origins = Dict.remove identity s.origins;
  }

  -- _hard_erase_receipt_locked
  unfoldable pub hard_receipt : Ledger F → Text → Text → Text → Result (Option ErasureReceipt)
  unfolding Dict.get
  hard_receipt s event_id record_id payload_hash = elim (Dict.get event_id s.hard_receipts) [
    | none ↦ ok none
    | some r ↦
        raise_if
          (not (r.record_key == host.command_hash (record_barrier record_id))
            || not (r.payload_hash == payload_hash))
          (conflict_error "event_id was already used for a different command")
        >> ok (
            some (record {
              record_id = record_id;
              state = none;
              payload_deleted = r.payload_deleted;
              source_refs_deleted = r.source_refs_deleted;
              relations_deleted = r.relations_deleted;
              events_deleted = r.events_deleted;
            }))
  ]

  -- The row of `_store_hard_erase_receipt_locked`
  abbrev pub stored_hard : ErasureReceipt → Text → HardReceipt
  stored_hard receipt payload_hash = record {
    record_key = host.command_hash (record_barrier receipt.record_id);
    payload_hash = payload_hash;
    payload_deleted = receipt.payload_deleted;
    source_refs_deleted = receipt.source_refs_deleted;
    relations_deleted = receipt.relations_deleted;
    events_deleted = receipt.events_deleted;
  }

  unfoldable pub write_erase : Ledger F → Text → Text → Text → Time → ErasureReceipt × Ledger F
  unfolding hard_receipt_of erase_rows
  write_erase s identity event_id payload_hash now =
      let receipt = hard_receipt_of s identity in
      (
        receipt,
        record (erase_rows s identity now) {
          hard_receipts = s.hard_receipts ++ (event_id, stored_hard receipt payload_hash) ∷ [];
        },
      )

  -- The part of `erase` that follows the search for a stored receipt
  unfoldable pub erase_fresh :
      Text → ℕ → Text → Text → Time → Ledger F → Result (ErasureReceipt × Ledger F)
  unfolding ensure_no_receipt load_record check_revision write_erase Dict.get
  erase_fresh identity revision event_id payload_hash now s = do
    raise_if (Dict.has event_id s.events)
        (conflict_error "event_id was already used for a lifecycle command")
    ensure_no_receipt host s event_id
    found ← load_record s identity
    r ← require "record_id" found
    check_revision r revision
    ok (write_erase s identity event_id payload_hash now)

  -- A stored receipt is the answer.
  abbrev pub answer_erase :
      Text
      → ℕ
      → Text
      → Text
      → Time
      → Ledger F
      → Option ErasureReceipt
      → Result (ErasureReceipt × Ledger F)
  answer_erase identity revision event_id payload_hash now s (some receipt) = ok (receipt, s)
  answer_erase identity revision event_id payload_hash now s none =
      erase_fresh identity revision event_id payload_hash now s

  -- The transaction of `erase`, with validated arguments
  unfoldable pub erase_checked :
      Text → ℕ → Text → Time → Ledger F → Result (ErasureReceipt × Ledger F)
  unfolding hard_receipt erase_fresh
  erase_checked identity revision event_id now s =
      let payload_hash = host.command_hash (erase_command identity revision) in
      (do
        existing ← hard_receipt s event_id identity payload_hash
        answer_erase identity revision event_id payload_hash now s existing)

  -- The body of `erase`, which takes no actor
  unfoldable pub erase_request : Request → Ledger F → Result (ErasureReceipt × Ledger F)
  unfolding validate_opaque choose_event_id erase_checked
  erase_request request s = do
    identity ← validate_identifier request.record_id
    revision ← validate_revision request.expected_revision
    event_id ← choose_event_id request.event_id request.fresh_id
    erase_checked identity revision event_id request.occurred_at s

  unfoldable pub erase : Request → Ledger F → Result ErasureReceipt × Ledger F
  unfolding erase_request
  erase request s = commit (erase_request request s) s
