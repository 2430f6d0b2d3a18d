-- ===== src/Ledger/Forget.antt =====
-- Forgetting a record and revoking a source (protoprompt/ledger/sqlite.py).
use protoprompt.Prelude.{
  ℕ, ◌+◌, Bool, false, not, ◌||◌, Option, none, some, List, [], ◌∷◌, ◌++◌, map, Text, codes,
  text_eq, ◌==◌, if◌then◌else◌, Result, ok, conflict_error, raise_if, ◌>>=◌, ◌>>◌, any_of, length,
  select, sort_desc,
}
use protoprompt.PyText.{text_ltb}
use protoprompt.Dict
use protoprompt.Dict.{Dict}
use protoprompt.Ledger.{
  Time, retracted, on_forgotten, MemoryRow, SourceRow, RelationRow, ErasureReceipt, Ledger,
  MemoryRecord, Host, forget_command, source_barrier,
}
use protoprompt.Ledger.Validate.{
  validate_opaque, validate_identifier, validate_reference, Request, Checked, check_request,
}
use protoprompt.Ledger.Load.{load_record, check_revision}
use protoprompt.Ledger.Transition.{
  commit, idempotent_event, ensure_no_receipt, require, transition_locked,
}

-- INSERT OR IGNORE of a key
unfoldable pub insert_ignore : Text → List Text → List Text
insert_ignore k keys = if any_of (λ j. j == k) keys then keys else keys ++ k ∷ []

-- superseded_by = ?
abbrev pub points_to : Text → Option Text → Bool
points_to identity none = false
points_to identity (some other) = other == identity

-- Whether a relation starts or ends at the record
abbrev pub touches : Text → RelationRow → Bool
touches identity r = r.from_record_id == identity || r.to_record_id == identity

-- _REDACTED_CONTENT_HASH
abbrev pub redacted_hash : Text
redacted_hash = codes "0000000000000000000000000000000000000000000000000000000000000000"

-- The SELECT of `forget_by_source`
unfoldable pub records_of_source : Text → List SourceRow → List Text
unfolding sort_desc text_ltb
records_of_source source rows =
    sort_desc (λ a b. text_ltb b a) (λ identity. identity)
      (map (λ r. r.record_id) (select (λ r. r.source_ref == source) rows))

module _ {F : Type 0} where
  -- The UPDATEs of memory_records in `_forget_locked`
  unfoldable pub redact_row : Text → Text → MemoryRow F → MemoryRow F
  redact_row identity k r =
      if k == identity
      then record r { content_hash = redacted_hash; superseded_by = none }
      else (if points_to identity r.superseded_by then record r { superseded_by = none } else r)

  -- The number of rows whose `superseded_by` names the record
  unfoldable pub count_pointing : Text → Dict Text (MemoryRow F) → ℕ
  count_pointing identity rows =
      length (select (λ r. points_to identity r.superseded_by) (Dict.values rows))

  -- The DELETEs and UPDATEs of `_forget_locked`
  unfoldable pub redact : Ledger F → Text → Ledger F
  unfolding redact_row Dict.update Dict.remove
  redact s identity = record s {
    payloads = Dict.remove identity s.payloads;
    records = Dict.update (redact_row identity) s.records;
    sources = select (λ r. not (r.record_id == identity)) s.sources;
    relations = select (λ r. not (touches identity r)) s.relations;
  }

  -- The receipt that `_forget_locked` builds from the rows it deletes
  unfoldable pub receipt_of : Ledger F → Text → ErasureReceipt
  unfolding count_pointing
  receipt_of s identity = record {
    record_id = identity;
    state = some retracted;
    payload_deleted = Dict.has identity s.payloads;
    source_refs_deleted = length (select (λ r. r.record_id == identity) s.sources);
    relations_deleted =
        length (select (touches identity) s.relations) + count_pointing identity s.records;
    events_deleted = 0;
  }

  -- _erasure_receipt_locked
  unfoldable pub erasure_receipt : Ledger F → Text → Text → Text → Result (Option ErasureReceipt)
  unfolding Dict.get
  erasure_receipt s event_id record_id payload_hash = elim (Dict.get event_id s.erasure_receipts) [
    | none ↦ ok none
    | some r ↦
        raise_if (not (r.receipt.record_id == record_id) || not (r.payload_hash == payload_hash))
          (conflict_error "event_id was already used for a different command")
        >> ok (some r.receipt)
  ]

  -- The deletions and the receipt with which `_forget_locked` ends
  unfoldable pub write_forget : Ledger F → Checked → Text → ErasureReceipt × Ledger F
  unfolding redact receipt_of
  write_forget s c payload_hash =
      let receipt = receipt_of s c.record_id in
      (
        receipt,
        record (redact s c.record_id) {
          erasure_receipts =
              s.erasure_receipts
              ++ (c.event_id, record { payload_hash = payload_hash; receipt = receipt }) ∷ [];
        },
      )

  -- The transition to a forgotten record, unless its event is stored already
  unfoldable pub forget_transition : Ledger F → MemoryRecord F → Checked → Text → Result (Ledger F)
  unfolding idempotent_event check_revision transition_locked
  forget_transition s r c payload_hash = do
    duplicate ← idempotent_event s c.event_id c.record_id payload_hash
    if duplicate then ok s else (do
      check_revision r c.expected_revision
      out ← transition_locked s r.row c on_forgotten retracted payload_hash
      ok out.1)

  -- The arguments of one `_forget_locked` of `forget_by_source`
  abbrev pub source_command : Text → Text → Time → Text → MemoryRecord F → Text → Checked
  source_command reason actor now fresh r identity = record {
    record_id = identity;
    expected_revision = r.row.revision;
    related = none;
    reason = some reason;
    event_id = fresh;
    actor = actor;
    occurred_at = now;
  }

abbrev pub reason_or_empty : Option Text → Text
reason_or_empty none = []
reason_or_empty (some reason) = reason

module _ {F : Type 0} (host : Host F) where
  -- The part of `_forget_locked` that follows the search for a stored receipt
  unfoldable pub forget_fresh : Checked → Text → Ledger F → Result (ErasureReceipt × Ledger F)
  unfolding ensure_no_receipt load_record forget_transition write_forget
  forget_fresh c payload_hash s = do
    ensure_no_receipt host s c.event_id
    found ← load_record s c.record_id
    r ← require "record_id" found
    after ← forget_transition s r c payload_hash
    ok (write_forget after c payload_hash)

  -- A stored receipt is the answer.
  abbrev pub answer_forget :
      Checked → Text → Ledger F → Option ErasureReceipt → Result (ErasureReceipt × Ledger F)
  answer_forget c payload_hash s (some receipt) = ok (receipt, s)
  answer_forget c payload_hash s none = forget_fresh c payload_hash s

  -- _forget_locked, with the hash of `_forget_command_hash`
  unfoldable pub forget_locked : Text → Checked → Ledger F → Result (ErasureReceipt × Ledger F)
  unfolding erasure_receipt forget_fresh
  forget_locked reason c s =
      let payload_hash =
        host.command_hash (forget_command c.record_id c.expected_revision reason c.actor) in
      (do
        existing ← erasure_receipt s c.event_id c.record_id payload_hash
        elim existing [ some receipt ↦ ok (receipt, s) | none ↦ forget_fresh c payload_hash s ])

  -- The body of `forget`
  unfoldable pub forget_request : Text → Request → Ledger F → Result (ErasureReceipt × Ledger F)
  unfolding check_request forget_locked
  forget_request reason request s = do
    c ← check_request request none (some reason)
    forget_locked (reason_or_empty c.reason) c s

  unfoldable pub forget : Text → Request → Ledger F → Result ErasureReceipt × Ledger F
  unfolding forget_request
  forget reason request s = commit (forget_request reason request s) s

  -- One row of the loop of `forget_by_source`, before the rest of the loop
  abbrev pub forget_found :
      Text
      → Text
      → Time
      → Text
      → Text
      → (Ledger F → Result (List ErasureReceipt × Ledger F))
      → Ledger F
      → Option (MemoryRecord F)
      → Result (List ErasureReceipt × Ledger F)
  forget_found reason actor now fresh_id identity rest s none = rest s
  forget_found reason actor now fresh_id identity rest s (some r) = do
    out ← forget_locked reason (source_command reason actor now fresh_id r identity) s
    later ← rest out.1
    ok (out.0 ∷ later.0, later.1)

  -- The loop of `forget_by_source`: `fresh i` is the identifier that uuid gives with `i` rows to go.
  unfoldable pub forget_each :
      Text
      → Text
      → Time
      → (ℕ → Text)
      → List Text
      → Ledger F
      → Result (List ErasureReceipt × Ledger F)
  unfolding load_record forget_locked
  forget_each reason actor now fresh [] s = ok ([], s)
  forget_each reason actor now fresh (identity ∷ rows) s =
      load_record s identity
      >>= forget_found reason actor now (fresh (length rows)) identity
          (forget_each reason actor now fresh rows) s

  -- The INSERT OR IGNORE of `forget_by_source`
  abbrev pub revoke : Text → Ledger F → Ledger F
  revoke source s = record s {
    revoked_sources = insert_ignore (host.command_hash (source_barrier source)) s.revoked_sources;
  }

  -- The body of `forget_by_source`
  unfoldable pub forget_source_request :
      Text → Text → Text → Time → (ℕ → Text) → Ledger F → Result (List ErasureReceipt × Ledger F)
  unfolding validate_opaque forget_each records_of_source insert_ignore
  forget_source_request source_ref reason_code actor now fresh s = do
    source ← validate_reference source_ref
    reason ← validate_identifier reason_code
    host_actor ← validate_identifier actor
    forget_each reason host_actor now fresh (records_of_source source s.sources) (revoke source s)

  unfoldable pub forget_by_source :
      Text → Text → Text → Time → (ℕ → Text) → Ledger F → Result (List ErasureReceipt) × Ledger F
  unfolding forget_source_request
  forget_by_source source_ref reason_code actor now fresh s =
      commit (forget_source_request source_ref reason_code actor now fresh s) s
