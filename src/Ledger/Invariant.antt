-- ===== src/Ledger/Invariant.antt =====
-- The invariant of the ledger's tables (protoprompt/ledger/sqlite.py).
pub mod Counts
pub mod Kept
pub mod Removed
pub mod Erased
use protoprompt.Prelude.{
  ℕ, ◌+◌, ◌≡◌, ◌≤◌, Bool, true, false, any_of, ◌||◌, none, some, List, [], ◌∷◌, Text, text_eq, ◌==◌,
  if◌then◌else◌,
}
use protoprompt.Dict
use protoprompt.Dict.{Dict}
use protoprompt.Ledger.{MemoryRow, Payload, MemoryEvent, Ledger, Host, record_barrier}
use protoprompt.Ledger.Load.{is_active, is_confirmed}
use protoprompt.Ledger.Create.{is_tombstoned, is_present}

-- The events of a record
unfoldable pub count_events : Text → Dict Text MemoryEvent → ℕ
count_events identity [] = 0
count_events identity ((k, e) ∷ d) =
    (if e.record_id == identity then 1 else 0) + count_events identity d

-- A row of a record that has `n` events
pub record IsRow {F : Type 0} (row : MemoryRow F) (n : ℕ) : Type 0 where
  pub confirmed : is_active row.state ≡ true → is_confirmed row.trust ≡ true
  pub versioned : row.revision ≡ n
  pub sequenced : row.last_event_sequence ≡ n
  pub positive : 1 ≤ n

-- The keys of the tables that are dictionaries here are unique but for the checkpoints, so that no
-- INSERT breaks a constraint; the revision of a
-- record is the number of its events; an active record was confirmed; a record that is not there
-- has no event, payload, origin, source or relation; a payload has an origin; and no record stands behind a barrier.
pub record IsLedger {F : Type 0} (host : Host F) (s : Ledger F) : Type 0 where
  pub records_once : Dict.Unique s.records
  pub payloads_once : Dict.Unique s.payloads
  pub origins_once : Dict.Unique s.origins
  pub events_once : Dict.Unique s.events
  pub receipts_once : Dict.Unique s.erasure_receipts
  pub hard_once : Dict.Unique s.hard_receipts
  pub rows :
      (i : Text) (row : MemoryRow F)
      → Dict.get i s.records ≡ some row
      → IsRow row (count_events i s.events)
  pub gone :
      (i : Text)
      → Dict.get i s.records ≡ none
      → (count_events i s.events ≡ 0)
        × (Dict.get i s.payloads ≡ none)
        × (Dict.get i s.origins ≡ none)
  pub unsourced :
      (i : Text) → Dict.get i s.records ≡ none → any_of (λ r. r.record_id == i) s.sources ≡ false
  pub unrelated :
      (i : Text)
      → Dict.get i s.records ≡ none
      → any_of (λ r. r.from_record_id == i || r.to_record_id == i) s.relations ≡ false
  pub labelled :
      (i : Text) (p : Payload)
      → Dict.get i s.payloads ≡ some p
      → is_present (Dict.get i s.origins) ≡ true
  pub barred : (i : Text) → is_tombstoned host s i ≡ true → Dict.get i s.records ≡ none

-- What is assumed of the digest: the barriers of two records differ.
abbrev pub Separates : {F : Type 0} → Host F → Type 0
Separates host =
    (i j : Text)
    → host.command_hash (record_barrier i) ≡ host.command_hash (record_barrier j)
    → i ≡ j
