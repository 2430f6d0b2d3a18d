-- ===== src/Ledger/Steps/Removals.antt =====
-- The steps of the operations that forget and erase records.
use protoprompt.Prelude.{
  ℕ, ◌≡◌, ◌⊎◌, refl, sym, ap, ◌∙◌, inl, inr, true, Option, none, some, List, [], ◌∷◌, Text, text_eq,
  Result, ok, raise_if, arith, bind_ok, then_ok, if_ok, ok_inj, length,
}
use protoprompt.Dict
use protoprompt.Ledger.{
  Time, on_forgotten, retracted, StoredReceipt, HardReceipt, Ledger, MemoryRecord, ErasureReceipt,
  Host, forget_command, erase_command,
}
use protoprompt.Ledger.Validate.{
  validate_identifier, validate_reference, validate_revision, choose_event_id, Checked, Request,
  check_request,
}
use protoprompt.Ledger.Load.{load_record, check_revision}
use protoprompt.Ledger.Transition.{
  write_transition, transition_locked, idempotent_event, ensure_no_receipt, require,
}
use protoprompt.Ledger.Lifecycle.{allowed}
use protoprompt.Ledger.Forget.{
  forget, forget_request, forget_locked, forget_fresh, forget_transition, write_forget,
  answer_forget, answer_forget, reason_or_empty, erasure_receipt, forget_found, forget_each,
  source_command, forget_by_source, forget_source_request, records_of_source, revoke,
}
use protoprompt.Ledger.Erase.{
  erase, erase_request, erase_checked, erase_fresh, hard_receipt, answer_erase,
}
use protoprompt.Ledger.Steps.{
  Steps, stay, next, one, Steps-trans, transitioned, forgotten, revoked, erased,
}
use protoprompt.Ledger.Steps.Moves.{
  transition_locked-writes, idempotent_event-false, write_transition-row,
}
use protoprompt.Ledger.Steps.Reads.{required-row}
use protoprompt.Ledger.Steps.Commands.{commit-Steps, to}

module _ {F : Type 0} where
  erasure_receipt-fresh :
      (s : Ledger F) (event_id record_id h : Text) (stored : Option StoredReceipt)
      → Dict.get event_id s.erasure_receipts ≡ stored
      → erasure_receipt s event_id record_id h ≡ ok none
      → Dict.get event_id s.erasure_receipts ≡ none
  unfolding erasure_receipt
  erasure_receipt-fresh s event_id record_id h none e k = e
  erasure_receipt-fresh s event_id record_id h (some r) e k = ground (arith, e)

  -- A forget command whose event is stored already moves nothing, and any other retracts the record.
  pub forget_transition-writes :
      (s after : Ledger F) (r : MemoryRecord F) (c : Checked) (h : Text)
      → forget_transition s r c h ≡ ok after
      → ((after ≡ s) × (idempotent_event s c.event_id c.record_id h ≡ ok true))
        ⊎ ((Dict.get c.event_id s.events ≡ none)
            × (allowed on_forgotten r.row.state ≡ true)
            × (after ≡ write_transition s r.row c on_forgotten retracted h))
  unfolding forget_transition
  forget_transition-writes s after r c h e =
      let (duplicate, e1, k) = bind_ok (idempotent_event s c.event_id c.record_id h) _ after e in
      elim (if_ok duplicate (ok s) _ after k) [
        | inl (again, k') ↦ inl (sym (ok_inj k'), e1 ∙ ap ok again)
        | inr (new, k') ↦
            let fresh = idempotent_event-false s c.event_id c.record_id h (e1 ∙ ap ok new) in
            let (e2, k2) = then_ok (check_revision r c.expected_revision) _ after k' in
            let ((r', t), e3, k3) =
              bind_ok (transition_locked s r.row c on_forgotten retracted h) _ after k2 in
            let written = transition_locked-writes s t r.row c on_forgotten retracted h r' e3 in
            inr (fresh, written.0, sym (ok_inj k3) ∙ written.1)
      ]

module _ {F : Type 0} (host : Host F) where
  hard_receipt-fresh :
      (s : Ledger F) (event_id record_id h : Text) (stored : Option HardReceipt)
      → Dict.get event_id s.hard_receipts ≡ stored
      → hard_receipt host s event_id record_id h ≡ ok none
      → Dict.get event_id s.hard_receipts ≡ none
  unfolding hard_receipt
  hard_receipt-fresh s event_id record_id h none e k = e
  hard_receipt-fresh s event_id record_id h (some r) e k = ground (arith, e)

  forget_fresh-Steps :
      (s s' : Ledger F) (c : Checked) (h : Text) (r : ErasureReceipt)
      → Dict.get c.event_id s.erasure_receipts ≡ none
      → forget_fresh host c h s ≡ ok (r, s')
      → Steps host s s'
  unfolding forget_fresh
  forget_fresh-Steps s s' c h r unused e =
      let (e1, k1) = then_ok (ensure_no_receipt host s c.event_id) _ (r, s') e in
      let (found, e2, k2) = bind_ok (load_record s c.record_id) _ (r, s') k1 in
      let (r0, e3, k3) = bind_ok (require "record_id" found) _ (r, s') k2 in
      let (after, e4, k4) = bind_ok (forget_transition s r0 c h) _ (r, s') k3 in
      let there = required-row s c.record_id "record_id" found r0 e2 e3 in
      let last : s' ≡ (write_forget after c h).1 = sym (ap (λ x. x.1) (ok_inj k4)) in
      elim (forget_transition-writes s after r0 c h e4) [
        | inl (same, again) ↦
            to host (last ∙ ap (λ t. (write_forget t c h).1) same)
              (one host (forgotten s r0.row c h there unused))
        | inr (fresh, guard, written) ↦ to host (last ∙ ap (λ t. (write_forget t c h).1) written) (
            next (transitioned s r0.row c on_forgotten h there fresh guard) (
              one host (
                forgotten _ _ c h (write_transition-row s r0.row c on_forgotten retracted h there)
                  (unfold write_transition in unused))))
      ]

  answer_forget-Steps :
      (c : Checked) (h : Text) (s s' : Ledger F) (r : ErasureReceipt)
      (existing : Option ErasureReceipt)
      → erasure_receipt s c.event_id c.record_id h ≡ ok existing
      → answer_forget host c h s existing ≡ ok (r, s')
      → Steps host s s'
  answer_forget-Steps c h s s' r (some receipt) e k =
      to host (sym (ap (λ x. x.1) (ok_inj k))) (stay s)
  answer_forget-Steps c h s s' r none e k =
      forget_fresh-Steps s s' c h r (erasure_receipt-fresh s c.event_id c.record_id h _ refl e) k

  forget_locked-Steps :
      (reason : Text) (c : Checked) (s s' : Ledger F) (r : ErasureReceipt)
      → forget_locked host reason c s ≡ ok (r, s')
      → Steps host s s'
  unfolding forget_locked
  forget_locked-Steps reason c s s' r e =
      let h = host.command_hash (forget_command c.record_id c.expected_revision reason c.actor) in
      let (existing, e1, k) = bind_ok (erasure_receipt s c.event_id c.record_id h) _ (r, s') e in
      answer_forget-Steps c h s s' r existing e1 k

  pub forget-Steps :
      (reason : Text) (request : Request) (s : Ledger F)
      → Steps host s (forget host reason request s).1
  unfolding forget forget_request
  forget-Steps reason request s =
      commit-Steps host (forget_request host reason request s) s λ r s' e.
        let (c, e1, k) = bind_ok (check_request request none (some reason)) _ (r, s') e in
        forget_locked-Steps (reason_or_empty c.reason) c s s' r k

  forget_found-Steps :
      (reason actor : Text) (now : Time) (fresh_id identity : Text)
      (rest : Ledger F → Result (List ErasureReceipt × Ledger F)) (found : Option (MemoryRecord F))
      (s s' : Ledger F) (receipts : List ErasureReceipt)
      → ((t t' : Ledger F) (out : List ErasureReceipt) → rest t ≡ ok (out, t') → Steps host t t')
      → forget_found host reason actor now fresh_id identity rest s found ≡ ok (receipts, s')
      → Steps host s s'
  forget_found-Steps reason actor now fresh_id identity rest none s s' receipts f e =
      f s s' receipts e
  forget_found-Steps reason actor now fresh_id identity rest (some r) s s' receipts f e =
      let c = source_command reason actor now fresh_id r identity in
      let ((receipt, t), e1, k) = bind_ok (forget_locked host reason c s) _ (receipts, s') e in
      let ((later, u), e2, k2) = bind_ok (rest t) _ (receipts, s') k in
      let first = forget_locked-Steps reason c s t receipt e1 in
      Steps-trans host first (to host (sym (ap (λ x. x.1) (ok_inj k2))) (f t u later e2))

  pub forget_each-Steps :
      (reason actor : Text) (now : Time) (fresh : ℕ → Text) (rows : List Text) (s s' : Ledger F)
      (receipts : List ErasureReceipt)
      → forget_each host reason actor now fresh rows s ≡ ok (receipts, s')
      → Steps host s s'
  unfolding forget_each
  forget_each-Steps reason actor now fresh [] s s' receipts e =
      to host (sym (ap (λ x. x.1) (ok_inj e))) (stay s)
  forget_each-Steps reason actor now fresh (identity ∷ rows) s s' receipts e =
      let (found, e1, k) = bind_ok (load_record s identity) _ (receipts, s') e in
      forget_found-Steps reason actor now (fresh (length rows)) identity
        (forget_each host reason actor now fresh rows) found s s' receipts
        (forget_each-Steps reason actor now fresh rows) k

  pub forget_by_source-Steps :
      (source reason actor : Text) (now : Time) (fresh : ℕ → Text) (s : Ledger F)
      → Steps host s (forget_by_source host source reason actor now fresh s).1
  unfolding forget_by_source forget_source_request
  forget_by_source-Steps source reason actor now fresh s =
      commit-Steps host (forget_source_request host source reason actor now fresh s) s λ r s' e.
        let (i, e1, k1) = bind_ok (validate_reference source) _ (r, s') e in
        let (j, e2, k2) = bind_ok (validate_identifier reason) _ (r, s') k1 in
        let (a, e3, k3) = bind_ok (validate_identifier actor) _ (r, s') k2 in
        next (revoked s i) (
          forget_each-Steps j a now fresh (records_of_source i s.sources) (revoke host i s) s' r k3)

  erase_fresh-Steps :
      (identity event_id h : Text) (n : ℕ) (now : Time) (s s' : Ledger F) (r : ErasureReceipt)
      → Dict.get event_id s.hard_receipts ≡ none
      → erase_fresh host identity n event_id h now s ≡ ok (r, s')
      → Steps host s s'
  unfolding erase_fresh
  erase_fresh-Steps identity event_id h n now s s' r unused e =
      let (e0, k0) = then_ok (raise_if (Dict.has event_id s.events) _) _ (r, s') e in
      let (e1, k1) = then_ok (ensure_no_receipt host s event_id) _ (r, s') k0 in
      let (found, e2, k2) = bind_ok (load_record s identity) _ (r, s') k1 in
      let (r0, e3, k3) = bind_ok (require "record_id" found) _ (r, s') k2 in
      let (e4, k4) = then_ok (check_revision r0 n) _ (r, s') k3 in
      to host (sym (ap (λ x. x.1) (ok_inj k4))) (
        one host (
          erased s r0.row identity event_id h now
            (required-row s identity "record_id" found r0 e2 e3) unused))

  answer_erase-Steps :
      (identity event_id h : Text) (n : ℕ) (now : Time) (s s' : Ledger F) (r : ErasureReceipt)
      (existing : Option ErasureReceipt)
      → hard_receipt host s event_id identity h ≡ ok existing
      → answer_erase host identity n event_id h now s existing ≡ ok (r, s')
      → Steps host s s'
  answer_erase-Steps identity event_id h n now s s' r (some receipt) e k =
      to host (sym (ap (λ x. x.1) (ok_inj k))) (stay s)
  answer_erase-Steps identity event_id h n now s s' r none e k =
      erase_fresh-Steps identity event_id h n now s s' r
        (hard_receipt-fresh s event_id identity h _ refl e) k

  pub erase-Steps : (request : Request) (s : Ledger F) → Steps host s (erase host request s).1
  unfolding erase erase_request erase_checked
  erase-Steps request s = commit-Steps host (erase_request host request s) s λ r s' e.
      let (i, e1, k1) = bind_ok (validate_identifier request.record_id) _ (r, s') e in
      let (n, e2, k2) = bind_ok (validate_revision request.expected_revision) _ (r, s') k1 in
      let (v, e3, k3) = bind_ok (choose_event_id request.event_id request.fresh_id) _ (r, s') k2 in
      let h = host.command_hash (erase_command i n) in
      let (existing, e4, k4) = bind_ok (hard_receipt host s v i h) _ (r, s') k3 in
      answer_erase-Steps i v h n request.occurred_at s s' r existing e4 k4
