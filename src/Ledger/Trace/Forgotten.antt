-- ===== src/Ledger/Trace/Forgotten.antt =====
-- Retraction, forgetting and erasure (protoprompt/ledger/sqlite.py) under further calls.
use mathlib.Core.Path.{subst}
use protoprompt.Prelude.{
  ℕ, ◌≡◌, refl, sym, ap, ◌∙◌, inl, inr, true, Option, none, some, List, Text, text_eq, ok, raise_if,
  ◌>>◌, arith, bind_ok, then_ok, ok_inj, some_inj,
}
use protoprompt.Dict
use protoprompt.Dict.Laws.{get-remove_self}
use protoprompt.Dict.Rows.{get-update-some}
use protoprompt.Ledger.{
  Time, retracted, MemoryEventType, on_observed, on_asserted, on_confirmed, on_superseded,
  on_retracted, on_forgotten, on_expired, on_quarantined, MemoryRow, MemoryOrigin, Payload, Ledger,
  MemoryRecord, ErasureReceipt, Host, forget_command, erase_command, record_barrier,
}
use protoprompt.Ledger.Validate.{Checked}
use protoprompt.Ledger.Load.{
  origin_of, content_of, check_record, join_record, decode_row, record_from_row, load_record,
  check_revision,
}
use protoprompt.Ledger.Transition.{write_transition, ensure_no_receipt, require}
use protoprompt.Ledger.Lifecycle.{allowed, next_row}
use protoprompt.Ledger.Create.{is_tombstoned}
use protoprompt.Ledger.Forget.{
  redact_row, redact, write_forget, forget_transition, forget_fresh, forget_locked, erasure_receipt,
  answer_forget,
}
use protoprompt.Ledger.Erase.{
  write_erase, erase_rows, clear_pointing, erase_fresh, erase_checked, hard_receipt, answer_erase,
}
use protoprompt.Ledger.Steps.{target_of}
use protoprompt.Ledger.Steps.Moves.{idempotent_event-fresh, write_transition-row}
use protoprompt.Ledger.Steps.Reads.{required-row}
use protoprompt.Ledger.Steps.Removals.{forget_transition-writes}
use protoprompt.Ledger.Trace.{Call, run_calls, run_calls-Steps}
use protoprompt.Ledger.Trace.Final.{
  Moves, Barred, Holds, Steps-Holds, Steps-Barred, insert_ignore_self,
}

allowed-retracted :
    (event_type : MemoryEventType)
    → allowed event_type retracted ≡ true
    → target_of event_type ≡ retracted
unfolding allowed
allowed-retracted on_forgotten h = refl
allowed-retracted on_retracted h = refl
allowed-retracted on_observed h = cc
allowed-retracted on_asserted h = cc
allowed-retracted on_confirmed h = cc
allowed-retracted on_superseded h = cc
allowed-retracted on_expired h = cc
allowed-retracted on_quarantined h = cc

module _ {F : Type 0} where
  Moves-retracted :
      (row row' : MemoryRow F) → Moves row row' → row.state ≡ retracted → row'.state ≡ retracted
  Moves-retracted row row' (inl (same, version)) e = same ∙ e
  Moves-retracted row row' (inr (event_type, guard, moved, version)) e =
      moved ∙ allowed-retracted event_type (subst (λ x. allowed event_type x ≡ true) e guard)

  abbrev IsForgotten : MemoryRow F → Option Payload → Type 0
  IsForgotten row p = (row.state ≡ retracted) × (p ≡ none)

  read_row :
      (s : Ledger F) (i : Text) (row : MemoryRow F) (r : MemoryRecord F)
      → record_from_row s i row ≡ ok r
      → (row ≡ r.row) × (r.content ≡ content_of (Dict.get i s.payloads))
  unfolding record_from_row
  read_row s i row r h =
      let parts : (o : MemoryOrigin) × (origin_of (Dict.get i s.origins) (Dict.get i s.payloads)
            ≡ ok o)
          × ((check_record row >> ok (join_record s i row o)) ≡ ok r) =
        bind_ok _ _ r h in
      let (o, e, k) = parts in
      let joined : join_record s i row o ≡ r = ok_inj (then_ok (check_record row) _ r k).1 in
      (ap (λ x. x.row) joined, sym (ap (λ x. x.content) joined))

  -- What is read of a record that has its row.
  pub load_record-read :
      (s : Ledger F) (i : Text) (row : MemoryRow F) (r : MemoryRecord F)
      → Dict.get i s.records ≡ some row
      → load_record s i ≡ ok (some r)
      → (row ≡ r.row) × (r.content ≡ content_of (Dict.get i s.payloads))
  unfolding load_record
  load_record-read s i row r found h =
      let (r', e, k) =
        bind_ok (record_from_row s i row) (λ x. ok (some x)) (some r)
          (subst (λ o. decode_row s i o ≡ ok (some r)) found h) in
      read_row s i row r (e ∙ ap ok (some_inj (ok_inj k)))

  load_record-none :
      (s : Ledger F) (i : Text) → Dict.get i s.records ≡ none → load_record s i ≡ ok none
  unfolding load_record
  load_record-none s i absent = ground (arith, absent)

  erasure_receipt-none :
      (s : Ledger F) (event_id record_id h : Text)
      → Dict.get event_id s.erasure_receipts ≡ none
      → erasure_receipt s event_id record_id h ≡ ok none
  unfolding erasure_receipt
  erasure_receipt-none s event_id record_id h unused = ground (arith, unused)

module _ {F : Type 0} (host : Host F) where
  hard_receipt-none :
      (s : Ledger F) (event_id record_id h : Text)
      → Dict.get event_id s.hard_receipts ≡ none
      → hard_receipt host s event_id record_id h ≡ ok none
  unfolding hard_receipt
  hard_receipt-none s event_id record_id h unused = ground (arith, unused)

  -- A retracted record is never in another state again: after any calls of `Call` it is retracted, or it was
  -- erased, and then its identifier is behind a barrier and it has no row.
  pub run_calls-retracted :
      (calls : List (Call F)) (s : Ledger F) (i : Text) (row : MemoryRow F)
      → Dict.get i s.records ≡ some row
      → row.state ≡ retracted
      → Holds host i (λ r p. r.state ≡ retracted) (run_calls host calls s)
  run_calls-retracted calls s i row found e =
      Steps-Holds host i (λ r p. r.state ≡ retracted) (λ r r' p. Moves-retracted r r') (λ r p h. h)
        (run_calls-Steps host calls s) (inr (row, found, e))

  write_forget-IsForgotten :
      (s : Ledger F) (c : Checked) (h : Text) (row : MemoryRow F)
      → row.state ≡ retracted
      → Dict.get c.record_id s.records ≡ some row
      → Holds host c.record_id IsForgotten (write_forget s c h).1
  unfolding write_forget redact redact_row
  write_forget-IsForgotten s c h row state found = inr (
    redact_row c.record_id c.record_id row,
    get-update-some (redact_row c.record_id) c.record_id row s.records found,
    (ground (arith, state), get-remove_self c.record_id s.payloads),
  )

  -- What a forget command that is new did, when it returns.
  forget_fresh-IsForgotten :
      (c : Checked) (h : Text) (s s' : Ledger F) (r : ErasureReceipt)
      → Dict.get c.event_id s.events ≡ none
      → forget_fresh host c h s ≡ ok (r, s')
      → Holds host c.record_id IsForgotten s'
  unfolding forget_fresh
  forget_fresh-IsForgotten c h s s' r fresh e =
      let (e1, k1) = then_ok (ensure_no_receipt host s c.event_id) _ (r, s') e in
      let (found, e2, k2) = bind_ok (load_record s c.record_id) _ (r, s') k1 in
      let (r0, e3, k3) = bind_ok (require "record_id" found) _ (r, s') k2 in
      let (after, e4, k4) = bind_ok (forget_transition s r0 c h) _ (r, s') k3 in
      let there = required-row s c.record_id "record_id" found r0 e2 e3 in
      let last : s' ≡ (write_forget after c h).1 = sym (ap (λ x. x.1) (ok_inj k4)) in
      elim (forget_transition-writes s after r0 c h e4) [
        | inl (same, again) ↦
            let known = idempotent_event-fresh s c.event_id c.record_id h fresh in cc
        | inr (new, guard, written) ↦
            subst (Holds host c.record_id IsForgotten)
              (sym (last ∙ ap (λ t. (write_forget t c h).1) written))
              (write_forget-IsForgotten (write_transition s r0.row c on_forgotten retracted h) c h
                (next_row r0.row c on_forgotten retracted) (unfold next_row in refl)
                (write_transition-row s r0.row c on_forgotten retracted h there))
      ]

  -- When a forget command with a new event identifier returns, then after any further calls of `Call` a read
  -- of the record finds it retracted and without its content.
  pub forget_locked-forgotten :
      (calls : List (Call F)) (reason : Text) (c : Checked) (s s' : Ledger F)
      (receipt : ErasureReceipt) (r : MemoryRecord F)
      → Dict.get c.event_id s.events ≡ none
      → Dict.get c.event_id s.erasure_receipts ≡ none
      → forget_locked host reason c s ≡ ok (receipt, s')
      → load_record (run_calls host calls s') c.record_id ≡ ok (some r)
      → (r.row.state ≡ retracted) × (r.content ≡ none)
  unfolding forget_locked erasure_receipt
  forget_locked-forgotten calls reason c s s' receipt r fresh unused e read =
      let h = host.command_hash (forget_command c.record_id c.expected_revision reason c.actor) in
      let (existing, e1, k) =
        bind_ok (erasure_receipt s c.event_id c.record_id h) _ (receipt, s') e in
      let new : existing ≡ none =
        ok_inj (sym e1 ∙ erasure_receipt-none s c.event_id c.record_id h unused) in
      let done : forget_fresh host c h s ≡ ok (receipt, s') =
        subst (λ x. answer_forget host c h s x ≡ ok (receipt, s')) new k in
      elim (Steps-Holds host c.record_id IsForgotten
        (λ w w' p moved held. (Moves-retracted w w' moved held.0, held.1))
        (λ w p held. (held.0, refl)) (run_calls-Steps host calls s')
        (forget_fresh-IsForgotten c h s s' receipt fresh done)) [
          | inl (barred, absent) ↦
              cc (load_record-none (run_calls host calls s') c.record_id absent)
          | inr (row, there, (state, payload)) ↦
              let (same, content) =
                load_record-read (run_calls host calls s') c.record_id row r there read in
              (sym (ap (λ x. x.state) same) ∙ state, content ∙ ap content_of payload)
        ]

  erase_fresh-Barred :
      (identity event_id h : Text) (n : ℕ) (now : Time) (s s' : Ledger F) (r : ErasureReceipt)
      → erase_fresh host identity n event_id h now s ≡ ok (r, s')
      → Barred host identity s'
  unfolding erase_fresh write_erase erase_rows is_tombstoned
  erase_fresh-Barred identity event_id h n now s s' r e =
      let (e0, k0) = then_ok (raise_if (Dict.has event_id s.events) _) _ (r, s') e in
      let (e1, k1) = then_ok (ensure_no_receipt host s event_id) _ (r, s') k0 in
      let (found, e2, k2) = bind_ok (load_record s identity) _ (r, s') k1 in
      let (r0, e3, k3) = bind_ok (require "record_id" found) _ (r, s') k2 in
      let (e4, k4) = then_ok (check_revision r0 n) _ (r, s') k3 in
      let done : (write_erase host s identity event_id h now).1 ≡ s' = ap (λ x. x.1) (ok_inj k4) in
      subst (Barred host identity) done (
        insert_ignore_self (host.command_hash (record_barrier identity)) s.tombstones,
        get-remove_self identity (Dict.update (λ k. clear_pointing identity) s.records),
      )

  -- When an erasure with a new event identifier returns, then after any further calls of `Call` the record is
  -- not found, and its identifier is barred from creation.
  pub erase_checked-permanent :
      (calls : List (Call F)) (identity event_id : Text) (n : ℕ) (now : Time) (s s' : Ledger F)
      (receipt : ErasureReceipt)
      → Dict.get event_id s.hard_receipts ≡ none
      → erase_checked host identity n event_id now s ≡ ok (receipt, s')
      → (load_record (run_calls host calls s') identity ≡ ok none)
        × (is_tombstoned host (run_calls host calls s') identity ≡ true)
  unfolding erase_checked
  erase_checked-permanent calls identity event_id n now s s' receipt unused e =
      let h = host.command_hash (erase_command identity n) in
      let (existing, e1, k) = bind_ok (hard_receipt host s event_id identity h) _ (receipt, s') e in
      let new : existing ≡ none =
        ok_inj (sym e1 ∙ hard_receipt-none s event_id identity h unused) in
      let done : erase_fresh host identity n event_id h now s ≡ ok (receipt, s') =
        subst (λ x. answer_erase host identity n event_id h now s x ≡ ok (receipt, s')) new k in
      let barred =
        Steps-Barred host identity (run_calls-Steps host calls s')
          (erase_fresh-Barred identity event_id h n now s s' receipt done) in
      (load_record-none (run_calls host calls s') identity barred.1, barred.0)
