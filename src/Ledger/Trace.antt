-- ===== src/Ledger/Trace.antt =====
-- Sequences of calls of the ledger's methods (protoprompt/ledger/sqlite.py), from an empty ledger.
pub mod Final
pub mod Forgotten
pub mod Revoked
use protoprompt.Prelude.{ℕ, refl, true, false, none, some, List, [], ◌∷◌, Text}
use protoprompt.Dict
use protoprompt.Ledger.{Time, on_confirmed, on_expired, on_quarantined, on_retracted, Ledger, Host}
use protoprompt.Ledger.Validate.{Request}
use protoprompt.Ledger.Transition.{confirm, quarantine, expire, retract}
use protoprompt.Ledger.Supersede.{supersede}
use protoprompt.Ledger.Create.{Proposal, create_candidate, is_tombstoned}
use protoprompt.Ledger.Forget.{forget, forget_by_source}
use protoprompt.Ledger.Erase.{erase}
use protoprompt.Ledger.Active.{expire_due}
use protoprompt.Ledger.Steps.{Steps, stay, Steps-trans}
use protoprompt.Ledger.Steps.Commands.{transition-Steps, supersede-Steps, create_candidate-Steps}
use protoprompt.Ledger.Steps.Removals.{forget-Steps, forget_by_source-Steps, erase-Steps}
use protoprompt.Ledger.Steps.Expiry.{expire_due-Steps}
use protoprompt.Ledger.Invariant.{IsLedger, Separates, count_events}
use protoprompt.Ledger.Invariant.Erased.{Steps-IsLedger}

-- A call of a method of the life cycle that writes, with its arguments and what uuid and the clock
-- give it.
pub data Call (F : Type 0) : Type 0 where
  call_create : Proposal F → Call F
  call_confirm call_expire call_erase : Request → Call F
  call_quarantine call_retract call_forget : Text → Request → Call F
  call_supersede : Text → ℕ → Request → Call F
  call_forget_by_source : Text → Text → Text → Time → (ℕ → Text) → Call F
  call_expire_due : Text → Time → (ℕ → Text) → Call F

-- A ledger right after its setup
abbrev pub no_rows : {F : Type 0} → Ledger F
no_rows = record {
  records = [];
  payloads = [];
  origins = [];
  sources = [];
  events = [];
  relations = [];
  checkpoints = [];
  revoked_sources = [];
  erasure_receipts = [];
  hard_receipts = [];
  tombstones = [];
  event_tombstones = [];
}

module _ {F : Type 0} (host : Host F) where
  -- The ledger that a call leaves, whether it returns or raises
  unfoldable pub run_call : Call F → Ledger F → Ledger F
  unfolding confirm expire quarantine retract
  run_call (call_create p) s = (create_candidate host p s).1
  run_call (call_confirm request) s = (confirm host request s).1
  run_call (call_expire request) s = (expire host request s).1
  run_call (call_erase request) s = (erase host request s).1
  run_call (call_quarantine reason request) s = (quarantine host reason request s).1
  run_call (call_retract reason request) s = (retract host reason request s).1
  run_call (call_forget reason request) s = (forget host reason request s).1
  run_call (call_supersede other n request) s = (supersede host other n request s).1
  run_call (call_forget_by_source source reason actor now fresh) s =
      (forget_by_source host source reason actor now fresh s).1
  run_call (call_expire_due actor now fresh) s = (expire_due host actor now fresh s).1

  unfoldable pub run_calls : List (Call F) → Ledger F → Ledger F
  unfolding run_call
  run_calls [] s = s
  run_calls (call ∷ calls) s = run_calls calls (run_call call s)

  run_call-Steps : (call : Call F) (s : Ledger F) → Steps host s (run_call call s)
  unfolding run_call confirm expire quarantine retract
  run_call-Steps (call_create p) s = create_candidate-Steps host p s
  run_call-Steps (call_confirm request) s = transition-Steps host on_confirmed true none request s
  run_call-Steps (call_expire request) s = transition-Steps host on_expired false none request s
  run_call-Steps (call_erase request) s = erase-Steps host request s
  run_call-Steps (call_quarantine reason request) s =
      transition-Steps host on_quarantined false (some reason) request s
  run_call-Steps (call_retract reason request) s =
      transition-Steps host on_retracted false (some reason) request s
  run_call-Steps (call_forget reason request) s = forget-Steps host reason request s
  run_call-Steps (call_supersede other n request) s = supersede-Steps host other n request s
  run_call-Steps (call_forget_by_source source reason actor now fresh) s =
      forget_by_source-Steps host source reason actor now fresh s
  run_call-Steps (call_expire_due actor now fresh) s = expire_due-Steps host actor now fresh s

  pub run_calls-Steps : (calls : List (Call F)) (s : Ledger F) → Steps host s (run_calls calls s)
  unfolding run_calls
  run_calls-Steps [] s = stay s
  run_calls-Steps (call ∷ calls) s =
      Steps-trans host (run_call-Steps call s) (run_calls-Steps calls (run_call call s))

  pub no_rows-IsLedger : IsLedger host no_rows
  unfolding is_tombstoned Dict.get count_events
  no_rows-IsLedger = record {
    records_once = tt;
    payloads_once = tt;
    origins_once = tt;
    events_once = tt;
    receipts_once = tt;
    hard_once = tt;
    rows = λ i row e. cc;
    gone = λ i e. (refl, refl, refl);
    unsourced = λ i e. refl;
    unrelated = λ i e. refl;
    labelled = λ i p e. cc;
    barred = λ i b. refl;
  }

  -- Where the digests of two records' barriers differ, any sequence of the calls of `Call` from an
  -- empty ledger, raising ones among them, leaves a ledger that meets its invariant: the keys of the
  -- records, payloads, origins, events and receipts are unique, a record's revision and last sequence
  -- are the number of its events, an active record was confirmed by the host, a record that is not
  -- there has no event, payload, origin, source or relation, every payload has an origin, and no
  -- erased record stands.
  pub run_calls-IsLedger :
      (calls : List (Call F)) → Separates host → IsLedger host (run_calls calls no_rows)
  run_calls-IsLedger calls separates =
      Steps-IsLedger host separates (run_calls-Steps calls no_rows) no_rows-IsLedger
