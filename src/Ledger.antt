-- ===== src/Ledger.antt =====
-- The durable memory ledger (protoprompt/ledger/types.py, sqlite.py): its enumerations, its rows and
-- the tables that belong to one pinned scope. Every statement of the source names that scope in its
-- WHERE clause, so the rows of other scopes are left out. A confidence is a float, a parameter `F`.
pub mod Validate
pub mod Load
pub mod Transition
pub mod Create
pub mod Forget
pub mod Erase
pub mod Active
pub mod Steps
pub mod Invariant
pub mod Trace
pub mod Answers
pub mod Lifecycle
pub mod Supersede
pub mod Policy
use protoprompt.Prelude.{
  ℕ, Bool, true, false, ◌&&◌, ◌||◌, Option, none, some, List, [], ◌∷◌, Text, codes, ltb, leb,
  nat_eqb, if◌then◌else◌,
}
use protoprompt.Dict.{Dict}

pub data MemoryKind : Type 0 where
  fact decision preference episode procedure : MemoryKind

pub data MemoryState : Type 0 where
  candidate active superseded retracted expired quarantined : MemoryState

pub data MemoryTrust : Type 0 where
  untrusted host_confirmed : MemoryTrust

pub data MemoryOrigin : Type 0 where
  unknown legacy_unknown user_input document tool_output : MemoryOrigin
  model_extraction host_assertion : MemoryOrigin

pub data MemoryEventType : Type 0 where
  on_observed on_asserted on_confirmed on_superseded on_retracted : MemoryEventType
  on_forgotten on_expired on_quarantined : MemoryEventType

pub data MemoryRelationType : Type 0 where
  supersedes derived_from supports contradicts : MemoryRelationType

-- An aware `datetime` in UTC: whole seconds, and the microseconds below 1000000.
pub record Time : Type 0 where
  pub second : ℕ
  pub micro : ℕ

-- a < b
unfoldable pub time_ltb : Time → Time → Bool
time_ltb a b = ltb a.second b.second || (nat_eqb a.second b.second && ltb a.micro b.micro)

-- Where `format_timestamp` places an instant within its second: the fraction is left out when it is
-- zero, and "Z" sorts after ".".
unfoldable pub text_micro : Time → ℕ
text_micro t = if nat_eqb t.micro 0 then 1000000 else t.micro

-- format_timestamp(a) <= format_timestamp(b), as SQLite compares the texts
unfoldable pub stamp_leb : Time → Time → Bool
unfolding text_micro
stamp_leb a b =
    ltb a.second b.second || (nat_eqb a.second b.second && leb (text_micro a) (text_micro b))

-- memory_records
pub record MemoryRow (F : Type 0) : Type 0 where
  pub kind : MemoryKind
  pub state : MemoryState
  pub trust : MemoryTrust
  pub content_hash : Text
  pub confidence : F
  pub valid_from : Option Time
  pub valid_until : Option Time
  pub retention_policy : Text
  pub created_at : Time
  pub updated_at : Time
  pub revision : ℕ
  pub last_event_sequence : ℕ
  pub superseded_by : Option Text
  pub retracted_at : Option Time
  pub expired_at : Option Time

-- memory_payloads
pub record Payload : Type 0 where
  pub content : Text
  pub source_refs : List Text
  pub evidence_refs : List Text

-- memory_events, under the identifier that is unique in the scope
pub record MemoryEvent : Type 0 where
  pub record_id : Text
  pub event_type : MemoryEventType
  pub revision : ℕ
  pub occurred_at : Time
  pub actor : Text
  pub related_record_id : Option Text
  pub reason_code : Option Text
  pub payload_hash : Text

-- memory_relations
pub record RelationRow : Type 0 where
  pub from_record_id : Text
  pub to_record_id : Text
  pub relation : MemoryRelationType
  pub created_at : Time

-- memory_sources
pub record SourceRow : Type 0 where
  pub source_ref : Text
  pub record_id : Text

pub record ErasureReceipt : Type 0 where
  pub record_id : Text
  pub state : Option MemoryState
  pub payload_deleted : Bool
  pub source_refs_deleted : ℕ
  pub relations_deleted : ℕ
  pub events_deleted : ℕ

-- memory_erasure_receipts
pub record StoredReceipt : Type 0 where
  pub payload_hash : Text
  pub receipt : ErasureReceipt

-- memory_hard_erase_receipts: the record is named by its tombstone key only.
pub record HardReceipt : Type 0 where
  pub record_key : Text
  pub payload_hash : Text
  pub payload_deleted : Bool
  pub source_refs_deleted : ℕ
  pub relations_deleted : ℕ
  pub events_deleted : ℕ

-- memory_recall_checkpoints with their selections
pub record Checkpoint : Type 0 where
  pub is_active : Bool
  pub invalidated_at : Option Time
  pub invalidation_reason : Option Text
  pub selections : List Text

pub record Ledger (F : Type 0) : Type 0 where
  pub records : Dict Text (MemoryRow F)
  pub payloads : Dict Text Payload
  pub origins : Dict Text MemoryOrigin
  pub sources : List SourceRow
  pub events : Dict Text MemoryEvent
  pub relations : List RelationRow
  pub checkpoints : Dict Text Checkpoint
  pub revoked_sources : List Text
  pub erasure_receipts : Dict Text StoredReceipt
  pub hard_receipts : Dict Text HardReceipt
  pub tombstones : List Text
  pub event_tombstones : List Text

-- The joined view of a record that the operations return.
pub record MemoryRecord (F : Type 0) : Type 0 where
  pub record_id : Text
  pub row : MemoryRow F
  pub origin : MemoryOrigin
  pub content : Option Text
  pub source_refs : List Text
  pub evidence_refs : List Text
  pub relations : List (MemoryRelationType × Text)

-- What `command_hash` is applied to: the payload of each kind of command, the keys of the barriers
-- and the payload that replaces a redacted one.
pub data Command (F : Type 0) : Type 0 where
  transition_command :
      MemoryEventType → MemoryState → Text → ℕ → Option Text → Option Text → Text → Command F
  supersede_command : Text → Text → ℕ → ℕ → Text → Command F
  forget_command : Text → ℕ → Text → Text → Command F
  erase_command : Text → ℕ → Command F
  candidate_command :
      MemoryEventType
      → Option Text
      → MemoryKind
      → F
      → Text
      → Option Time
      → Option Time
      → Text
      → MemoryOrigin
      → Command F
  record_barrier event_barrier source_barrier : Text → Command F
  erased_relation : Command F

-- The digests of `hashlib.blake2b` and the tests on floats, which are not the program's own.
pub record Host (F : Type 0) : Type 0 where
  pub command_hash : Command F → Text
  pub content_hash : Text → Text
  pub in_unit : F → Bool
  pub same_float : F → F → Bool

-- LedgerConflictError and LedgerStateError are `conflict_error` and `state_error` of the prelude.
unfoldable pub kind_eqb : MemoryKind → MemoryKind → Bool
kind_eqb fact fact = true
kind_eqb decision decision = true
kind_eqb preference preference = true
kind_eqb episode episode = true
kind_eqb procedure procedure = true
kind_eqb _ _ = false

unfoldable pub event_type_eqb : MemoryEventType → MemoryEventType → Bool
event_type_eqb on_observed on_observed = true
event_type_eqb on_asserted on_asserted = true
event_type_eqb on_confirmed on_confirmed = true
event_type_eqb on_superseded on_superseded = true
event_type_eqb on_retracted on_retracted = true
event_type_eqb on_forgotten on_forgotten = true
event_type_eqb on_expired on_expired = true
event_type_eqb on_quarantined on_quarantined = true
event_type_eqb _ _ = false

unfoldable pub origin_eqb : MemoryOrigin → MemoryOrigin → Bool
origin_eqb unknown unknown = true
origin_eqb legacy_unknown legacy_unknown = true
origin_eqb user_input user_input = true
origin_eqb document document = true
origin_eqb tool_output tool_output = true
origin_eqb model_extraction model_extraction = true
origin_eqb host_assertion host_assertion = true
origin_eqb _ _ = false
