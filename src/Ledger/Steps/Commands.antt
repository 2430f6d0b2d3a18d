-- ===== src/Ledger/Steps/Commands.antt =====
-- The steps of the operations that create a record and move it through its life cycle.
use mathlib.Core.Path.{subst}
use protoprompt.Prelude.{
  ℕ, ◌≡◌, refl, sym, ap, ◌∙◌, inl, inr, Bool, false, not, Option, none, some, Text, text_eq, ◌==◌,
  Result, ok, err, raise_if, ◌>>=◌, bind_ok, then_ok, if_ok, raise_if_ok, ok_inj,
}
use protoprompt.Dict
use protoprompt.Dict.Rows.{get-update-some}
use protoprompt.Ledger.{
  MemoryEventType, on_superseded, superseded, MemoryEvent, Ledger, MemoryRecord, Host,
  supersede_command,
}
use protoprompt.Ledger.Validate.{
  validate_identifier, validate_revision, choose_event_id, Checked, Request, check_request,
}
use protoprompt.Ledger.Load.{load_record}
use protoprompt.Ledger.Transition.{commit, transition, replay, idempotent_event, ensure_no_receipt}
use protoprompt.Ledger.Supersede.{supersede_checked, supersede_request, supersede}
use protoprompt.Ledger.Create.{
  Draft, Proposal, create_candidate, create_checked, create_fresh, check_proposal, write_candidate,
  is_tombstoned, is_source_revoked, replay_candidate, candidate_matches, is_present,
  answer_candidate, create_at,
}
use protoprompt.Ledger.Steps.{Steps, stay, next, one, transitioned, linked, created, target_of}
use protoprompt.Ledger.Transition.{write_transition}
use protoprompt.Ledger.Steps.Moves.{
  write_transition-row, transition_checked-Steps, supersede_fresh-writes, replay-same,
  idempotent_event-false,
}
use protoprompt.Ledger.Steps.Reads.{reload-same, load_record-absent}

module _ {F : Type 0} (host : Host F) where
  -- A transaction that steps when it returns steps in any case.
  pub commit-Steps :
      {A : Type 0} (m : Result (A × Ledger F)) (s : Ledger F)
      → ((a : A) (s' : Ledger F) → m ≡ ok (a, s') → Steps host s s')
      → Steps host s (commit m s).1
  commit-Steps (ok (a, s')) s f = f a s' refl
  commit-Steps (err e) s f = stay s

  pub to : {s t u : Ledger F} → u ≡ t → Steps host s t → Steps host s u
  to {s} e steps = subst (Steps host s) (sym e) steps

  pub transition-Steps :
      (event_type : MemoryEventType) (raw : Bool) (reason : Option Text) (request : Request)
      (s : Ledger F)
      → Steps host s
          (commit (transition host event_type (target_of event_type) raw reason request s) s).1
  unfolding transition
  transition-Steps event_type raw reason request s =
      commit-Steps (transition host event_type (target_of event_type) raw reason request s) s
        λ r s' e.
          let (c, e1, k) = bind_ok (check_request request none reason) _ (r, s') e in
          transition_checked-Steps host event_type raw c s s' r k

  supersede_checked-Steps :
      (replacement : Text) (n : ℕ) (c : Checked) (s s' : Ledger F) (r : MemoryRecord F)
      → supersede_checked host replacement n c s ≡ ok (r, s')
      → Steps host s s'
  unfolding supersede_checked
  supersede_checked-Steps replacement n c s s' r e =
      let h =
        host.command_hash
          (supersede_command c.record_id replacement c.expected_revision n c.actor) in
      let (duplicate, e1, k) = bind_ok (idempotent_event s c.event_id c.record_id h) _ (r, s') e in
      elim (if_ok duplicate (replay s c.record_id false) _ (r, s') k) [
        | inl (again, k') ↦ to (replay-same s s' c.record_id false r k') (stay s)
        | inr (new, k') ↦
            let fresh = idempotent_event-false s c.event_id c.record_id h (e1 ∙ ap ok new) in
            let (row, other, found, there, active, guard, written) =
              supersede_fresh-writes host replacement n c h s s' r k' in
            to written (
              next (transitioned s row c on_superseded h found fresh guard) (
                one host (
                  linked _ replacement c _ _
                    (unfold write_transition in get-update-some _ replacement other s.records there)
                    (write_transition-row s row c on_superseded superseded h found))))
      ]

  pub supersede-Steps :
      (replacement : Text) (n : ℕ) (request : Request) (s : Ledger F)
      → Steps host s (supersede host replacement n request s).1
  unfolding supersede supersede_request
  supersede-Steps replacement n request s =
      commit-Steps (supersede_request host replacement n request s) s λ r s' e.
        let (i, e1, k1) = bind_ok (validate_identifier request.record_id) _ (r, s') e in
        let (j, e2, k2) = bind_ok (validate_identifier replacement) _ (r, s') k1 in
        let (e3, k3) = then_ok (raise_if (i == j) _) _ (r, s') k2 in
        let (v, e4, k4) = bind_ok (validate_revision request.expected_revision) _ (r, s') k3 in
        let (w, e5, k5) = bind_ok (validate_revision n) _ (r, s') k4 in
        let (x, e6, k6) =
          bind_ok (choose_event_id request.event_id request.fresh_id) _ (r, s') k5 in
        let (y, e7, k7) = bind_ok (validate_identifier request.actor) _ (r, s') k6 in
        supersede_checked-Steps j w _ s s' r k7

  answer_candidate-same :
      (s s' : Ledger F) (d : Draft F) (r : MemoryRecord F) (found : Option (MemoryRecord F))
      → answer_candidate host s d found ≡ ok (r, s')
      → s' ≡ s
  answer_candidate-same s s' d r none h = cc
  answer_candidate-same s s' d r (some r') h = sym (
      ap (λ x. x.1)
        (ok_inj (then_ok (raise_if (not (candidate_matches host r' d)) _) _ (r, s') h).1))

  replay_candidate-same :
      (s s' : Ledger F) (d : Draft F) (event : MemoryEvent) (r : MemoryRecord F)
      → replay_candidate host s d event ≡ ok (r, s')
      → s' ≡ s
  unfolding replay_candidate
  replay_candidate-same s s' d event r e =
      let (e1, k1) = then_ok _ _ (r, s') e in
      let (e2, k2) = then_ok _ _ (r, s') k1 in
      let (found, e3, k3) = bind_ok (load_record s event.record_id) _ (r, s') k2 in
      answer_candidate-same s s' d r found k3

  create_fresh-Steps :
      (s s' : Ledger F) (d : Draft F) (identity : Text) (r : MemoryRecord F)
      → is_source_revoked host s d.source_ref ≡ false
      → Dict.get d.event_id s.events ≡ none
      → create_fresh host s d identity ≡ ok (r, s')
      → Steps host s s'
  unfolding create_fresh
  create_fresh-Steps s s' d identity r kept fresh e =
      let (e1, k1) = then_ok (ensure_no_receipt host s d.event_id) _ (r, s') e in
      let (e2, k2) = then_ok (raise_if (is_tombstoned host s identity) _) _ (r, s') k1 in
      let (found, e3, k3) = bind_ok (load_record s identity) _ (r, s') k2 in
      let (e4, k4) = then_ok (raise_if (is_present found) _) _ (r, s') k3 in
      to (reload-same (write_candidate host s d identity) s' identity r k4).0 (
        one host (
          created s d identity kept (raise_if_ok _ _ e2)
            (load_record-absent s identity found e3 (raise_if_ok _ _ e4)) fresh))

  create_at-Steps :
      (d : Draft F) (s s' : Ledger F) (r : MemoryRecord F) (event : Option MemoryEvent)
      → is_source_revoked host s d.source_ref ≡ false
      → Dict.get d.event_id s.events ≡ event
      → create_at host d s event ≡ ok (r, s')
      → Steps host s s'
  create_at-Steps d s s' r none kept fresh e = create_fresh-Steps s s' d _ r kept fresh e
  create_at-Steps d s s' r (some event) kept found e =
      to (replay_candidate-same s s' d event r e) (stay s)

  create_checked-Steps :
      (d : Draft F) (s s' : Ledger F) (r : MemoryRecord F)
      → create_checked host d s ≡ ok (r, s')
      → Steps host s s'
  unfolding create_checked
  create_checked-Steps d s s' r e =
      let (e1, k1) = then_ok (raise_if (is_source_revoked host s d.source_ref) _) _ (r, s') e in
      create_at-Steps d s s' r (Dict.get d.event_id s.events) (raise_if_ok _ _ e1) refl k1

  pub create_candidate-Steps :
      (p : Proposal F) (s : Ledger F) → Steps host s (create_candidate host p s).1
  unfolding create_candidate
  create_candidate-Steps p s =
      commit-Steps (check_proposal host p >>= λ d. create_checked host d s) s λ r s' e.
        let (d, e1, k) = bind_ok (check_proposal host p) _ (r, s') e in
        create_checked-Steps d s s' r k
