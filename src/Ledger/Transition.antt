-- ===== src/Ledger/Transition.antt =====
-- The life cycle of a record (protoprompt/ledger/sqlite.py): the idempotency of event identifiers,
-- the transition that confirm, quarantine, expire and retract share.
use protoprompt.Ledger.Lifecycle.{allowed, is_confirmation, invalidate, next_row}
use protoprompt.Prelude.{
  ◌+◌, Bool, true, false, not, ◌&&◌, ◌||◌, Option, none, some, [], ◌∷◌, ◌++◌, Text, String, text_eq,
  ◌==◌, if◌then◌else◌, Result, ok, err, key_error, runtime_error, conflict_error, state_error,
  raise_if, ◌>>=◌, ◌>>◌, any_of,
}
use protoprompt.Dict
use protoprompt.Dict.{Dict}
use protoprompt.Ledger.{
  time_ltb, MemoryState, active, retracted, expired, quarantined, MemoryOrigin, unknown,
  legacy_unknown, MemoryEventType, on_confirmed, on_retracted, on_expired, on_quarantined,
  MemoryRow, MemoryEvent, Ledger, MemoryRecord, Host, transition_command, event_barrier,
}
use protoprompt.Ledger.Validate.{Request, Checked, check_request}
use protoprompt.Ledger.Load.{load_record, check_revision, has_ended}

-- What a transaction leaves: a raise rolls every write back.
abbrev pub commit : {A F : Type 0} → Result (A × Ledger F) → Ledger F → Result A × Ledger F
commit (ok (a, after)) before = (ok a, after)
commit (err e) before = (err e, before)

abbrev pub is_raw_origin : MemoryOrigin → Bool
is_raw_origin unknown = true
is_raw_origin legacy_unknown = true
is_raw_origin _ = false

module _ {F : Type 0} where
  -- _event_for_id_locked and _idempotent_event_locked
  unfoldable pub idempotent_event : Ledger F → Text → Text → Text → Result Bool
  unfolding Dict.get
  idempotent_event s event_id record_id payload_hash = elim (Dict.get event_id s.events) [
    | none ↦ ok false
    | some e ↦
        raise_if (not (e.record_id == record_id) || not (e.payload_hash == payload_hash))
          (conflict_error "event_id was already used for a different command")
        >> ok true
  ]

  -- The event that `_append_event_locked` inserts for a transition
  abbrev pub event_of : MemoryRow F → Checked → MemoryEventType → Text → MemoryEvent
  event_of row c event_type payload_hash = record {
    record_id = c.record_id;
    event_type = event_type;
    revision = row.revision + 1;
    occurred_at = c.occurred_at;
    actor = c.actor;
    related_record_id = c.related;
    reason_code = c.reason;
    payload_hash = payload_hash;
  }

  -- The writes of `_transition_locked`
  unfoldable pub write_transition :
      Ledger F → MemoryRow F → Checked → MemoryEventType → MemoryState → Text → Ledger F
  unfolding invalidate next_row Dict.update
  write_transition s row c event_type target payload_hash = record s {
    events = s.events ++ (c.event_id, event_of row c event_type payload_hash) ∷ [];
    records =
        Dict.update (λ k r. if k == c.record_id then next_row row c event_type target else r)
          s.records;
    checkpoints =
        Dict.update (λ k. invalidate c.record_id "selected_record_changed" c.occurred_at)
          s.checkpoints;
  }

  -- assert updated is not None
  abbrev pub assert_found : Ledger F → Option (MemoryRecord F) → Result (MemoryRecord F × Ledger F)
  assert_found s none = err (runtime_error "AssertionError")
  assert_found s (some r) = ok (r, s)

  -- The second read of a record that was written
  unfoldable pub reload : Ledger F → Text → Result (MemoryRecord F × Ledger F)
  unfolding load_record
  reload s record_id = load_record s record_id >>= assert_found s

  -- _transition_locked
  unfoldable pub transition_locked :
      Ledger F
      → MemoryRow F
      → Checked
      → MemoryEventType
      → MemoryState
      → Text
      → Result (MemoryRecord F × Ledger F)
  unfolding allowed time_ltb write_transition reload
  transition_locked s row c event_type target payload_hash =
      raise_if (not (allowed event_type row.state))
        (state_error "cannot apply the event to a record in this state")
      >> (raise_if (is_confirmation event_type && has_ended row.valid_until c.occurred_at)
            (state_error "cannot confirm a record whose validity already ended")
          >> reload (write_transition s row c event_type target payload_hash) c.record_id)

  -- _assert_raw_confirmation_eligible
  abbrev pub assert_raw_eligible : Bool → MemoryRecord F → Result (Unit {0})
  assert_raw_eligible raw r =
      raise_if (raw && not (is_raw_origin r.origin))
        (state_error "concrete-origin candidate must be confirmed through MemoryReviewGate")

  abbrev pub answer : Ledger F → Bool → Option (MemoryRecord F) → Result (MemoryRecord F × Ledger F)
  answer s raw none = err (conflict_error "event_id belongs to an erased record")
  answer s raw (some r) = assert_raw_eligible raw r >> ok (r, s)

  -- The answer to a command whose event is stored already
  unfoldable pub replay : Ledger F → Text → Bool → Result (MemoryRecord F × Ledger F)
  unfolding load_record
  replay s record_id raw = load_record s record_id >>= answer s raw

  abbrev pub require : String → Option (MemoryRecord F) → Result (MemoryRecord F)
  require message none = err (key_error message)
  require message (some r) = ok r

module _ {F : Type 0} (host : Host F) where
  -- _ensure_no_erasure_receipt_event_id_locked
  unfoldable pub ensure_no_receipt : Ledger F → Text → Result (Unit {0})
  unfolding Dict.get
  ensure_no_receipt s event_id =
      raise_if (Dict.has event_id s.erasure_receipts)
        (conflict_error "event_id was already used for an erasure command")
      >> (raise_if (Dict.has event_id s.hard_receipts)
            (conflict_error "event_id was already used for a hard erase command")
          >> raise_if
              (any_of (λ k. k == host.command_hash (event_barrier event_id)) s.event_tombstones)
              (state_error "event_id belongs to a hard-erased record"))

  -- The part of the transaction of `_transition` for an event that is new
  unfoldable pub transition_fresh :
      MemoryEventType
      → MemoryState
      → Bool
      → Checked
      → Text
      → Ledger F
      → Result (MemoryRecord F × Ledger F)
  unfolding ensure_no_receipt transition_locked load_record check_revision
  transition_fresh event_type target raw c payload_hash s = do
    ensure_no_receipt s c.event_id
    found ← load_record s c.record_id
    r ← require "record_id" found
    check_revision r c.expected_revision
    assert_raw_eligible raw r
    transition_locked s r.row c event_type target payload_hash

  -- The transaction of `_transition`, with validated arguments
  unfoldable pub transition_checked :
      MemoryEventType → MemoryState → Bool → Checked → Ledger F → Result (MemoryRecord F × Ledger F)
  unfolding idempotent_event transition_fresh replay
  transition_checked event_type target raw c s =
      let payload_hash = host.command_hash (
        transition_command event_type target c.record_id c.expected_revision c.related c.reason
          c.actor) in
      (do
        duplicate ← idempotent_event s c.event_id c.record_id payload_hash
        if duplicate
            then replay s c.record_id raw
            else transition_fresh event_type target raw c payload_hash s)

  -- _transition
  unfoldable pub transition :
      MemoryEventType
      → MemoryState
      → Bool
      → Option Text
      → Request
      → Ledger F
      → Result (MemoryRecord F × Ledger F)
  unfolding check_request transition_checked
  transition event_type target raw reason request s =
      check_request request none reason >>= λ c. transition_checked event_type target raw c s

  unfoldable pub confirm : Request → Ledger F → Result (MemoryRecord F) × Ledger F
  unfolding transition
  confirm request s = commit (transition on_confirmed active true none request s) s

  unfoldable pub quarantine : Text → Request → Ledger F → Result (MemoryRecord F) × Ledger F
  unfolding transition
  quarantine reason request s =
      commit (transition on_quarantined quarantined false (some reason) request s) s

  unfoldable pub expire : Request → Ledger F → Result (MemoryRecord F) × Ledger F
  unfolding transition
  expire request s = commit (transition on_expired expired false none request s) s

  unfoldable pub retract : Text → Request → Ledger F → Result (MemoryRecord F) × Ledger F
  unfolding transition
  retract reason request s =
      commit (transition on_retracted retracted false (some reason) request s) s
