-- ===== src/Ledger/Answers.antt =====
-- What the transitions of the ledger (protoprompt/ledger/sqlite.py) answer.
pub mod Succeeds
use mathlib.Core.Path.{subst}
use protoprompt.Prelude.{
  ℕ, ◌+◌, ◌≡◌, refl, sym, ap, ◌∙◌, ◌⊎◌, inl, inr, Bool, true, false, not, ◌&&◌, ◌||◌, Option, none,
  some, List, [], ◌∷◌, ◌++◌, Text, text_eq, text_eqb_iff, nat_eq, ◌==◌, if◌then◌else◌, Error,
  Result, ok, err, raise_if, ◌>>=◌, ◌>>◌, arith, bind_ok, then_ok, if_ok, ok_inj, some_inj,
  Bool-cases, Option-cases, raise_if_ok, ltb, state_error,
}
use protoprompt.Dict
use protoprompt.Dict.Rows.{get-update-some, get-insert_self}
use protoprompt.Ledger.{
  Time, time_ltb, MemoryState, MemoryEventType, MemoryRow, MemoryOrigin, MemoryEvent, Payload,
  Ledger, MemoryRecord, Host, transition_command,
}
use protoprompt.Ledger.Validate.{Checked}
use protoprompt.Ledger.Load.{
  origin_of, check_record, join_record, decode_row, record_from_row, load_record, check_revision,
  has_ended, ends_before,
}
use protoprompt.Ledger.Transition.{
  is_raw_origin, event_of, write_transition, idempotent_event, ensure_no_receipt, require, answer,
  replay, reload, transition_locked, transition_fresh, transition_checked, assert_raw_eligible,
}
use protoprompt.Ledger.Lifecycle.{allowed, next_row, is_confirmation}
use protoprompt.Ledger.Steps.{target_of}
use protoprompt.Ledger.Steps.Moves.{
  idempotent_event-fresh, idempotent_event-false, replay-same, transition_fresh-writes,
  transition_locked-writes, write_transition-row,
}
use protoprompt.Ledger.Steps.Reads.{required-row, require-some, load_record-some}

module _ {F : Type 0} where
  -- The event that a transition stored is found again.
  stored_again :
      (s : Ledger F) (row : MemoryRow F) (c : Checked) (event_type : MemoryEventType)
      (target : MemoryState) (h : Text)
      → Dict.get c.event_id s.events ≡ none
      → idempotent_event (write_transition s row c event_type target h) c.event_id c.record_id h
        ≡ ok true
  unfolding idempotent_event write_transition
  stored_again s row c event_type target h fresh = ground (
    arith,
    get-insert_self c.event_id (event_of row c event_type h) s.events fresh,
    text_eqb_iff c.record_id c.record_id,
    text_eqb_iff h h,
  )

  pub origin_read :
      (s : Ledger F) (i : Text) (found : Option (MemoryRow F)) (r : MemoryRecord F)
      → decode_row s i found ≡ ok (some r)
      → origin_of (Dict.get i s.origins) (Dict.get i s.payloads) ≡ ok r.origin
  unfolding record_from_row
  origin_read s i none r h = cc
  origin_read s i (some row) r h =
      let (r', e, k) = bind_ok (record_from_row s i row) (λ x. ok (some x)) (some r) h in
      let parts : (o : MemoryOrigin) × (origin_of (Dict.get i s.origins) (Dict.get i s.payloads)
            ≡ ok o)
          × ((check_record row >> ok (join_record s i row o)) ≡ ok r') =
        bind_ok _ _ r' e in
      let (o, e1, k1) = parts in
      let joined : join_record s i row o ≡ r' = ok_inj (then_ok (check_record row) _ r' k1).1 in
      e1 ∙ ap ok (ap (λ x. x.origin) (joined ∙ some_inj (ok_inj k)))

  -- A transition leaves the origin of its record.
  same_origin :
      (s : Ledger F) (row : MemoryRow F) (c : Checked) (event_type : MemoryEventType)
      (target : MemoryState) (h : Text) (before after : MemoryRecord F)
      → load_record s c.record_id ≡ ok (some before)
      → load_record (write_transition s row c event_type target h) c.record_id ≡ ok (some after)
      → before.origin ≡ after.origin
  unfolding load_record write_transition
  same_origin s row c event_type target h before after e k = ok_inj (
      sym (origin_read s c.record_id _ before e)
      ∙ origin_read (write_transition s row c event_type target h) c.record_id _ after k)

  eligible-along :
      (raw : Bool) (a b : MemoryRecord F)
      → a.origin ≡ b.origin
      → assert_raw_eligible raw a ≡ ok tt
      → assert_raw_eligible raw b ≡ ok tt
  eligible-along raw a b same e =
      subst
        (λ o.
          raise_if (raw && not (is_raw_origin o))
            (state_error "concrete-origin candidate must be confirmed through MemoryReviewGate")
          ≡ ok tt)
        same e

module _ {F : Type 0} (host : Host F) where
  fresh_again :
      (event_type : MemoryEventType) (target : MemoryState) (raw : Bool) (c : Checked) (h : Text)
      (s s' : Ledger F) (r : MemoryRecord F)
      → Dict.get c.event_id s.events ≡ none
      → transition_fresh host event_type target raw c h s ≡ ok (r, s')
      → (idempotent_event s' c.event_id c.record_id h ≡ ok true)
        × (replay s' c.record_id raw ≡ ok (r, s'))
  unfolding transition_fresh replay
  fresh_again event_type target raw c h s s' r fresh e =
      let (e1, k1) = then_ok (ensure_no_receipt host s c.event_id) _ (r, s') e in
      let (found, e2, k2) = bind_ok (load_record s c.record_id) _ (r, s') k1 in
      let (r0, e3, k3) = bind_ok (require "record_id" found) _ (r, s') k2 in
      let (e4, k4) = then_ok (check_revision r0 c.expected_revision) _ (r, s') k3 in
      let (e5, k5) = then_ok (assert_raw_eligible raw r0) _ (r, s') k4 in
      let written = transition_locked-writes s s' r0.row c event_type target h r k5 in
      let before = e2 ∙ ap ok (require-some "record_id" found r0 e3) in
      let origin =
        same_origin s r0.row c event_type target h r0 r before
          (subst (λ t. load_record t c.record_id ≡ ok (some r)) written.1 written.2) in
      let eligible : assert_raw_eligible raw r ≡ ok tt = eligible-along raw r0 r origin e5 in
      (
        subst (λ t. idempotent_event t c.event_id c.record_id h ≡ ok true) (sym written.1)
            (stored_again s r0.row c event_type target h fresh),
        ap (λ x. x >>= answer s' raw) written.2 ∙ ap (λ x. x >> ok (r, s')) eligible,
      )

  -- A transition command that returned, sent again as it was, returns the same record and leaves the
  -- ledger as it is.
  pub transition_checked-idempotent :
      (event_type : MemoryEventType) (target : MemoryState) (raw : Bool) (c : Checked)
      (s s' : Ledger F) (r : MemoryRecord F)
      → transition_checked host event_type target raw c s ≡ ok (r, s')
      → transition_checked host event_type target raw c s' ≡ ok (r, s')
  unfolding transition_checked
  transition_checked-idempotent event_type target raw c s s' r e =
      let h = host.command_hash (
        transition_command event_type target c.record_id c.expected_revision c.related c.reason
          c.actor) in
      let (duplicate, e1, k) = bind_ok (idempotent_event s c.event_id c.record_id h) _ (r, s') e in
      elim (if_ok duplicate (replay s c.record_id raw) _ (r, s') k) [
        | inl (again, k') ↦
            subst (λ t. transition_checked host event_type target raw c t ≡ ok (r, s'))
              (sym (replay-same s s' c.record_id raw r k')) e
        | inr (new, k') ↦
            let fresh = idempotent_event-false s c.event_id c.record_id h (e1 ∙ ap ok new) in
            let (stored, same) = fresh_again event_type target raw c h s s' r fresh k' in
            ap
              (λ x. x >>= λ duplicate.
                if duplicate
                then replay s' c.record_id raw
                else transition_fresh host event_type target raw c h s')
              stored
            ∙ same
      ]
