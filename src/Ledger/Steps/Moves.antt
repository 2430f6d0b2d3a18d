-- ===== src/Ledger/Steps/Moves.antt =====
-- The steps of the transactions of `_transition` and `supersede`.
use protoprompt.Ledger.Steps.Reads.{reload-same, required-row, check_revision-equal}
use mathlib.Core.Path.{subst}
use protoprompt.Prelude.{
  ℕ, ◌≡◌, refl, sym, ap, ◌∙◌, ◌⊎◌, inl, inr, Bool, true, false, not, Option, none, some, Text,
  text_eq, text_eqb_iff, nat_eq, ok, raise_if, arith, bind_ok, then_ok, if_ok, raise_if_ok,
  raise_unless_ok, ok_inj, Option-cases,
}
use protoprompt.Dict
use protoprompt.Dict.Rows.{get-update-some}
use protoprompt.Ledger.{
  Time, active, MemoryState, MemoryEventType, on_superseded, superseded, MemoryRow, Ledger,
  MemoryRecord, Host, transition_command,
}
use protoprompt.Ledger.Validate.{Checked}
use protoprompt.Ledger.Load.{is_active, is_recallable, load_record, check_revision}
use protoprompt.Ledger.Transition.{
  write_transition, transition_locked, transition_checked, transition_fresh, ensure_no_receipt,
  assert_raw_eligible, answer, replay, idempotent_event, require,
}
use protoprompt.Ledger.Supersede.{supersede_fresh, add_supersedes}
use protoprompt.Ledger.Lifecycle.{allowed, next_row}
use protoprompt.Ledger.Steps.{Steps, stay, one, transitioned, target_of}

module _ {F : Type 0} where
  pub idempotent_event-false :
      (s : Ledger F) (event_id record_id h : Text)
      → idempotent_event s event_id record_id h ≡ ok false
      → Dict.get event_id s.events ≡ none
  unfolding idempotent_event
  idempotent_event-false s event_id record_id h e =
      elim (Option-cases (Dict.get event_id s.events)) [
        | inl absent ↦ absent
        | inr (v, found) ↦ ground (arith, found)
      ]

  pub idempotent_event-fresh :
      (s : Ledger F) (event_id record_id h : Text)
      → Dict.get event_id s.events ≡ none
      → idempotent_event s event_id record_id h ≡ ok false
  unfolding idempotent_event
  idempotent_event-fresh s event_id record_id h fresh = ground (arith, fresh)

  pub transition_locked-writes :
      (s s' : Ledger F) (row : MemoryRow F) (c : Checked) (event_type : MemoryEventType)
      (target : MemoryState) (h : Text) (r : MemoryRecord F)
      → transition_locked s row c event_type target h ≡ ok (r, s')
      → (allowed event_type row.state ≡ true)
        × (s' ≡ write_transition s row c event_type target h)
        × (load_record s' c.record_id ≡ ok (some r))
  unfolding transition_locked
  transition_locked-writes s s' row c event_type target h r e =
      let (guard, k) = then_ok (raise_if (not (allowed event_type row.state)) _) _ (r, s') e in
      let may : allowed event_type row.state ≡ true = raise_unless_ok _ _ guard in
      let (valid, k') = then_ok (raise_if _ _) _ (r, s') k in
      let same = reload-same (write_transition s row c event_type target h) s' c.record_id r k' in
      (may, same.0, subst (λ t. load_record t c.record_id ≡ ok (some r)) (sym same.0) same.1)

  answer-same :
      (s s' : Ledger F) (raw : Bool) (r : MemoryRecord F) (found : Option (MemoryRecord F))
      → answer s raw found ≡ ok (r, s')
      → s' ≡ s
  answer-same s s' raw r none h = cc
  answer-same s s' raw r (some r') h =
      sym (ap (λ x. x.1) (ok_inj (then_ok (assert_raw_eligible raw r') _ (r, s') h).1))

  pub replay-same :
      (s s' : Ledger F) (identity : Text) (raw : Bool) (r : MemoryRecord F)
      → replay s identity raw ≡ ok (r, s')
      → s' ≡ s
  unfolding replay
  replay-same s s' identity raw r h =
      let (found, e, k) = bind_ok (load_record s identity) _ (r, s') h in
      answer-same s s' raw r found k

  recallable-active :
      (r : MemoryRecord F) (now : Time) → not (is_recallable r now) ≡ false → r.row.state ≡ active
  unfolding is_recallable
  recallable-active r now h = ground (arith, h)

  pub write_transition-row :
      (s : Ledger F) (row : MemoryRow F) (c : Checked) (event_type : MemoryEventType)
      (target : MemoryState) (h : Text)
      → Dict.get c.record_id s.records ≡ some row
      → Dict.get c.record_id (write_transition s row c event_type target h).records
        ≡ some (next_row row c event_type target)
  unfolding write_transition
  write_transition-row s row c event_type target h found =
      get-update-some _ c.record_id row s.records found
      ∙ ap some (rw ((text_eqb_iff c.record_id c.record_id).1 refl) refl)

module _ {F : Type 0} (host : Host F) where
  -- What a transition whose event is new did, when it returns.
  pub transition_fresh-writes :
      (event_type : MemoryEventType) (target : MemoryState) (raw : Bool) (c : Checked) (h : Text)
      (s s' : Ledger F) (r : MemoryRecord F)
      → transition_fresh host event_type target raw c h s ≡ ok (r, s')
      → (row : MemoryRow F) × (Dict.get c.record_id s.records ≡ some row)
        × (row.revision ≡ c.expected_revision)
        × (allowed event_type row.state ≡ true)
        × (s' ≡ write_transition s row c event_type target h)
        × (load_record s' c.record_id ≡ ok (some r))
  unfolding transition_fresh
  transition_fresh-writes event_type target raw c h s s' r e =
      let (none_used, k1) = then_ok (ensure_no_receipt host s c.event_id) _ (r, s') e in
      let (found, e2, k2) = bind_ok (load_record s c.record_id) _ (r, s') k1 in
      let (r0, e3, k3) = bind_ok (require "record_id" found) _ (r, s') k2 in
      let (e4, k4) = then_ok (check_revision r0 c.expected_revision) _ (r, s') k3 in
      let (e5, k5) = then_ok (assert_raw_eligible raw r0) _ (r, s') k4 in
      let written = transition_locked-writes s s' r0.row c event_type target h r k5 in
      (
        r0.row,
        required-row s c.record_id "record_id" found r0 e2 e3,
        check_revision-equal r0 c.expected_revision e4,
        written.0,
        written.1,
        written.2,
      )

  -- A command whose event is stored already is answered without a write, and any other makes its
  -- transition with an event identifier that was new.
  pub transition_checked-writes :
      (event_type : MemoryEventType) (target : MemoryState) (raw : Bool) (c : Checked)
      (s s' : Ledger F) (r : MemoryRecord F)
      → transition_checked host event_type target raw c s ≡ ok (r, s')
      → (s' ≡ s)
        ⊎ ((h : Text) × (Dict.get c.event_id s.events ≡ none)
            × (transition_fresh host event_type target raw c h s ≡ ok (r, s')))
  unfolding transition_checked
  transition_checked-writes event_type target raw c s s' r e =
      let h = host.command_hash (
        transition_command event_type target c.record_id c.expected_revision c.related c.reason
          c.actor) in
      let (duplicate, e1, k) = bind_ok (idempotent_event s c.event_id c.record_id h) _ (r, s') e in
      elim (if_ok duplicate (replay s c.record_id raw) _ (r, s') k) [
        | inl (again, k') ↦ inl (replay-same s s' c.record_id raw r k')
        | inr (new, k') ↦
            inr (h, idempotent_event-false s c.event_id c.record_id h (e1 ∙ ap ok new), k')
      ]

  pub transition_checked-Steps :
      (event_type : MemoryEventType) (raw : Bool) (c : Checked) (s s' : Ledger F)
      (r : MemoryRecord F)
      → transition_checked host event_type (target_of event_type) raw c s ≡ ok (r, s')
      → Steps host s s'
  transition_checked-Steps event_type raw c s s' r e =
      elim (transition_checked-writes event_type (target_of event_type) raw c s s' r e) [
        | inl same ↦ subst (Steps host s) (sym same) (stay s)
        | inr (h, new, k) ↦
            let (row, found, version, guard, written, loaded) =
              transition_fresh-writes event_type (target_of event_type) raw c h s s' r k in
            subst (Steps host s) (sym written)
              (one host (transitioned s row c event_type h found new guard))
      ]

  -- What a replacement whose event is new did, when it returns.
  pub supersede_fresh-writes :
      (replacement : Text) (n : ℕ) (c : Checked) (h : Text) (s s' : Ledger F) (r : MemoryRecord F)
      → supersede_fresh host replacement n c h s ≡ ok (r, s')
      → (row other : MemoryRow F) × (Dict.get c.record_id s.records ≡ some row)
        × (Dict.get replacement s.records ≡ some other)
        × (other.state ≡ active)
        × (allowed on_superseded row.state ≡ true)
        × (s' ≡ add_supersedes replacement c (write_transition s row c on_superseded superseded h))
  unfolding supersede_fresh
  supersede_fresh-writes replacement n c h s s' r e =
      let (e1, k1) = then_ok (ensure_no_receipt host s c.event_id) _ (r, s') e in
      let (source, e2, k2) = bind_ok (load_record s c.record_id) _ (r, s') k1 in
      let (other, e3, k3) = bind_ok (load_record s replacement) _ (r, s') k2 in
      let (a, e4, k4) = bind_ok (require _ source) _ (r, s') k3 in
      let (b, e5, k5) = bind_ok (require _ other) _ (r, s') k4 in
      let (e6, k6) = then_ok (check_revision a c.expected_revision) _ (r, s') k5 in
      let (e7, k7) = then_ok (check_revision b n) _ (r, s') k6 in
      let (e8, k8) = then_ok (raise_if (not (is_active a.row.state)) _) _ (r, s') k7 in
      let (e9, k9) = then_ok (raise_if (not (is_recallable b c.occurred_at)) _) _ (r, s') k8 in
      let ((r', t), e10, k10) =
        bind_ok (transition_locked s a.row c on_superseded superseded h) _ (r, s') k9 in
      let written = transition_locked-writes s t a.row c on_superseded superseded h r' e10 in
      (
        a.row,
        b.row,
        required-row s c.record_id _ source a e2 e4,
        required-row s replacement _ other b e3 e5,
        recallable-active b c.occurred_at (raise_if_ok _ _ e9),
        written.0,
        sym (ap (λ x. x.1) (ok_inj k10)) ∙ ap (add_supersedes replacement c) written.1,
      )
