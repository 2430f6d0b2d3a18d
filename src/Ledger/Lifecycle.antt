-- ===== src/Ledger/Lifecycle.antt =====
-- What a transition writes in a row of the ledger (protoprompt/ledger/sqlite.py): the table of the
-- allowed states, and the columns that the UPDATE of `_transition_locked` sets.
use protoprompt.Prelude.{
  ◌+◌, Bool, true, false, ◌&&◌, Option, none, some, [], Text, String, codes, text_eq, ◌==◌,
  if◌then◌else◌, any_of,
}
use protoprompt.Ledger.{
  Time, MemoryState, candidate, active, retracted, host_confirmed, MemoryEventType, on_confirmed,
  on_superseded, on_retracted, on_forgotten, on_expired, on_quarantined, MemoryTrust, MemoryRow,
  Checkpoint,
}
use protoprompt.Ledger.Validate.{Checked}

-- The table `allowed_states` of `_transition_locked`.
unfoldable pub allowed : MemoryEventType → MemoryState → Bool
allowed on_confirmed candidate = true
allowed on_superseded active = true
allowed on_retracted retracted = false
allowed on_retracted _ = true
allowed on_forgotten _ = true
allowed on_expired candidate = true
allowed on_expired active = true
allowed on_quarantined candidate = true
allowed on_quarantined active = true
allowed _ _ = false

-- The trust, `superseded_by`, `retracted_at` and `expired_at` that an UPDATE of a transition writes
abbrev pub next_trust : MemoryEventType → MemoryTrust → MemoryTrust
next_trust on_confirmed trust = host_confirmed
next_trust _ trust = trust

abbrev pub next_superseded_by : MemoryEventType → Option Text → Option Text → Option Text
next_superseded_by on_superseded related old = related
next_superseded_by _ related old = old

abbrev pub next_retracted_at : MemoryEventType → Time → Option Time → Option Time
next_retracted_at on_retracted now old = some now
next_retracted_at on_forgotten now none = some now
next_retracted_at _ now old = old

abbrev pub next_expired_at : MemoryEventType → Time → Option Time → Option Time
next_expired_at on_expired now old = some now
next_expired_at _ now old = old

abbrev pub is_confirmation : MemoryEventType → Bool
is_confirmation on_confirmed = true
is_confirmation _ = false

-- One row of the loop of `_invalidate_recall_checkpoints_locked`, with the condition of
-- `_invalidate_recall_checkpoints_for_record_locked`
unfoldable pub invalidate : Text → String → Time → Checkpoint → Checkpoint
invalidate record_id reason now c =
    if c.is_active && any_of (λ i. i == record_id) c.selections
    then record {
      is_active = false;
      invalidated_at = some now;
      invalidation_reason = some (codes reason);
      selections = [];
    }
    else c

-- A row after the UPDATE of `_transition_locked`
unfoldable pub next_row :
    {F : Type 0} → MemoryRow F → Checked → MemoryEventType → MemoryState → MemoryRow F
next_row row c event_type target = record row {
  state = target;
  trust = next_trust event_type row.trust;
  updated_at = c.occurred_at;
  revision = row.revision + 1;
  last_event_sequence = row.revision + 1;
  superseded_by = next_superseded_by event_type c.related row.superseded_by;
  retracted_at = next_retracted_at event_type c.occurred_at row.retracted_at;
  expired_at = next_expired_at event_type c.occurred_at row.expired_at;
}
