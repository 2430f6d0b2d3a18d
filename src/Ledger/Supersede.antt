-- ===== src/Ledger/Supersede.antt =====
-- The operation `supersede` (protoprompt/ledger/sqlite.py).
use protoprompt.Ledger.Transition.{
  commit, idempotent_event, transition_locked, replay, require, ensure_no_receipt,
}
use protoprompt.Prelude.{
  ℕ, false, not, none, some, [], ◌∷◌, ◌++◌, Text, text_eq, ◌==◌, if◌then◌else◌, Result, ok,
  state_error, raise_if, ◌>>=◌, ◌>>◌,
}
use protoprompt.Ledger.{
  superseded, on_superseded, supersedes, Ledger, MemoryRecord, Host, supersede_command,
}
use protoprompt.Ledger.Validate.{
  validate_opaque, validate_identifier, validate_revision, choose_event_id, Request, Checked,
}
use protoprompt.Ledger.Load.{load_record, check_revision, is_recallable, is_active}

module _ {F : Type 0} where
  -- The INSERT into memory_relations of `supersede`
  abbrev pub add_supersedes : Text → Checked → Ledger F → Ledger F
  add_supersedes replacement_id c s = record s {
    relations =
        s.relations
        ++ record {
          from_record_id = replacement_id;
          to_record_id = c.record_id;
          relation = supersedes;
          created_at = c.occurred_at;
        }
          ∷ [];
  }

module _ {F : Type 0} (host : Host F) where
  -- The part of the transaction of `supersede` for an event that is new
  unfoldable pub supersede_fresh :
      Text → ℕ → Checked → Text → Ledger F → Result (MemoryRecord F × Ledger F)
  unfolding ensure_no_receipt transition_locked load_record check_revision is_recallable
  supersede_fresh replacement_id expected_replacement c payload_hash s = do
    ensure_no_receipt host s c.event_id
    source ← load_record s c.record_id
    replacement ← load_record s replacement_id
    a ← require "both records must exist in the pinned scope" source
    b ← require "both records must exist in the pinned scope" replacement
    check_revision a c.expected_revision
    check_revision b expected_replacement
    raise_if (not (is_active a.row.state)) (state_error "only an active record can be superseded")
    raise_if (not (is_recallable b c.occurred_at))
        (state_error "replacement must be an active, currently recallable record")
    out ← transition_locked s a.row c on_superseded superseded payload_hash
    ok (out.0, add_supersedes replacement_id c out.1)

  -- The transaction of `supersede`, with validated arguments; `c.related` names the replacement.
  unfoldable pub supersede_checked :
      Text → ℕ → Checked → Ledger F → Result (MemoryRecord F × Ledger F)
  unfolding idempotent_event supersede_fresh replay
  supersede_checked replacement_id expected_replacement c s =
      let payload_hash = host.command_hash (
        supersede_command c.record_id replacement_id c.expected_revision expected_replacement
          c.actor) in
      (do
        duplicate ← idempotent_event s c.event_id c.record_id payload_hash
        if duplicate
            then replay s c.record_id false
            else supersede_fresh replacement_id expected_replacement c payload_hash s)

  -- The body of `supersede`
  unfoldable pub supersede_request :
      Text → ℕ → Request → Ledger F → Result (MemoryRecord F × Ledger F)
  unfolding validate_opaque choose_event_id supersede_checked
  supersede_request replacement expected_replacement request s = do
    source_id ← validate_identifier request.record_id
    replacement_id ← validate_identifier replacement
    raise_if (source_id == replacement_id) (state_error "a record cannot supersede itself")
    revision ← validate_revision request.expected_revision
    replacement_revision ← validate_revision expected_replacement
    event_id ← choose_event_id request.event_id request.fresh_id
    actor ← validate_identifier request.actor
    supersede_checked replacement_id replacement_revision
        (record {
          record_id = source_id;
          expected_revision = revision;
          related = some replacement_id;
          reason = none;
          event_id = event_id;
          actor = actor;
          occurred_at = request.occurred_at;
        })
        s

  unfoldable pub supersede : Text → ℕ → Request → Ledger F → Result (MemoryRecord F) × Ledger F
  unfolding supersede_request
  supersede replacement expected_replacement request s =
      commit (supersede_request replacement expected_replacement request s) s
