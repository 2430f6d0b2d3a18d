-- ===== src/Ledger/Steps.antt =====
-- The writes of the ledger's operations (protoprompt/ledger/sqlite.py) as a step relation.
pub mod Moves
pub mod Commands
pub mod Removals
pub mod Reads
pub mod Expiry
use protoprompt.Prelude.{
  ℕ, ◌+◌, ◌≡◌, refl, Bool, true, false, Option, none, some, List, [], ◌∷◌, Text, text_eq, text_eqb,
  ◌==◌, if◌then◌else◌,
}
use protoprompt.Dict
use protoprompt.Dict.{Dict}
use protoprompt.Ledger.{
  Time, MemoryState, candidate, active, superseded, retracted, expired, quarantined,
  MemoryEventType, on_observed, on_asserted, on_confirmed, on_superseded, on_retracted,
  on_forgotten, on_expired, on_quarantined, MemoryRow, MemoryEvent, Ledger, Host,
}
use protoprompt.Ledger.Validate.{Checked}
use protoprompt.Ledger.Transition.{write_transition}
use protoprompt.Ledger.Supersede.{add_supersedes}
use protoprompt.Ledger.Lifecycle.{allowed}
use protoprompt.Ledger.Create.{Draft, write_candidate, is_tombstoned, is_source_revoked}
use protoprompt.Ledger.Forget.{write_forget, revoke}
use protoprompt.Ledger.Erase.{write_erase}

-- The state that an event leads to
abbrev pub target_of : MemoryEventType → MemoryState
target_of on_observed = candidate
target_of on_asserted = candidate
target_of on_confirmed = active
target_of on_superseded = superseded
target_of on_retracted = retracted
target_of on_forgotten = retracted
target_of on_expired = expired
target_of on_quarantined = quarantined

module _ {F : Type 0} (host : Host F) where
  pub data Step : Ledger F → Ledger F → Type 0 where
    -- One event of the life cycle of a record
    transitioned :
        (s : Ledger F) (row : MemoryRow F) (c : Checked) (event_type : MemoryEventType) (h : Text)
        → Dict.get c.record_id s.records ≡ some row
        → Dict.get c.event_id s.events ≡ none
        → allowed event_type row.state ≡ true
        → Step s (write_transition s row c event_type (target_of event_type) h)
    -- The relation of a replacement to a record that was superseded
    linked :
        (s : Ledger F) (replacement : Text) (c : Checked) (other row : MemoryRow F)
        → Dict.get replacement s.records ≡ some other
        → Dict.get c.record_id s.records ≡ some row
        → Step s (add_supersedes replacement c s)
    -- A new candidate
    created :
        (s : Ledger F) (d : Draft F) (identity : Text)
        → is_source_revoked host s d.source_ref ≡ false
        → is_tombstoned host s identity ≡ false
        → Dict.get identity s.records ≡ none
        → Dict.get d.event_id s.events ≡ none
        → Step s (write_candidate host s d identity)
    -- The erasure of the payload of a record
    forgotten :
        (s : Ledger F) (row : MemoryRow F) (c : Checked) (h : Text)
        → Dict.get c.record_id s.records ≡ some row
        → Dict.get c.event_id s.erasure_receipts ≡ none
        → Step s (write_forget s c h).1
    -- The revocation of a source
    revoked : (s : Ledger F) (source : Text) → Step s (revoke host source s)
    -- The removal of a record with its events
    erased :
        (s : Ledger F) (row : MemoryRow F) (identity event_id h : Text) (now : Time)
        → Dict.get identity s.records ≡ some row
        → Dict.get event_id s.hard_receipts ≡ none
        → Step s (write_erase host s identity event_id h now).1

  pub data Steps : Ledger F → Ledger F → Type 0 where
    stay : (s : Ledger F) → Steps s s
    next : {s t u : Ledger F} → Step s t → Steps t u → Steps s u

  pub one : {s t : Ledger F} → Step s t → Steps s t
  one {t = t} step = next step (stay t)

  pub Steps-trans : {s t u : Ledger F} → Steps s t → Steps t u → Steps s u
  Steps-trans (stay s) rest = rest
  Steps-trans (next step steps) rest = next step (Steps-trans steps rest)
