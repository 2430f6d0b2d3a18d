-- ===== src/Ledger/Answers/Succeeds.antt =====
-- A transition (protoprompt/ledger/sqlite.py) that the life cycle allows.
use protoprompt.Prelude.{
  ℕ, ◌+◌, ◌≡◌, refl, sym, ap, ◌∙◌, Bool, true, false, not, ◌&&◌, Option, none, some, Text, text_eq,
  nat_eq, ok, ◌>>◌, arith, bind_ok, then_ok, bind_of, then_of, ok_inj, some_inj, raise_if_of,
  raise_unless_of,
}
use protoprompt.Dict
use protoprompt.Plan.{raise_first-All, raise_first-none}
use protoprompt.Ledger.{
  time_ltb, MemoryTrust, MemoryEventType, MemoryRow, MemoryOrigin, Ledger, MemoryRecord, Host,
  transition_command,
}
use protoprompt.Ledger.Validate.{Checked}
use protoprompt.Ledger.Load.{
  origin_of, check_record, record_checks, join_record, decode_row, record_from_row, load_record,
  check_revision, has_ended, is_active, is_confirmed,
}
use protoprompt.Ledger.Transition.{
  write_transition, ensure_no_receipt, reload, assert_found, transition_locked, transition_fresh,
  transition_checked, assert_raw_eligible,
}
use protoprompt.Ledger.Lifecycle.{allowed, next_trust, next_row, is_confirmation}
use protoprompt.Ledger.Steps.{target_of}
use protoprompt.Ledger.Steps.Moves.{idempotent_event-fresh, write_transition-row}
use protoprompt.Ledger.Steps.Reads.{load_record-some}
use protoprompt.Ledger.Invariant.Kept.{next_trust-confirmed}
use protoprompt.Ledger.Answers.{origin_read}

active_confirmed :
    (event_type : MemoryEventType) (trust : MemoryTrust)
    → (is_active (target_of event_type) && not (is_confirmed (next_trust event_type trust))) ≡ false
active_confirmed event_type trust = ground (arith, next_trust-confirmed event_type trust)

module _ {F : Type 0} where
  checks_read :
      (s : Ledger F) (i : Text) (found : Option (MemoryRow F)) (r : MemoryRecord F)
      → decode_row s i found ≡ ok (some r)
      → check_record r.row ≡ ok tt
  unfolding record_from_row
  checks_read s i none r h = cc
  checks_read s i (some row) r h =
      let (r', e, k) = bind_ok (record_from_row s i row) (λ x. ok (some x)) (some r) h in
      let parts : (o : MemoryOrigin) × (origin_of (Dict.get i s.origins) (Dict.get i s.payloads)
            ≡ ok o)
          × ((check_record row >> ok (join_record s i row o)) ≡ ok r') =
        bind_ok _ _ r' e in
      let (o, e1, k1) = parts in
      let both = then_ok (check_record row) _ r' k1 in
      let joined : join_record s i row o ≡ r' = ok_inj both.1 in
      ap (λ x. check_record x.row) (sym (joined ∙ some_inj (ok_inj k))) ∙ both.0

  revision_met : (r : MemoryRecord F) (n : ℕ) → r.row.revision ≡ n → check_revision r n ≡ ok tt
  unfolding check_revision
  revision_met r n e = ground (arith, e)

  next_row-state :
      (row : MemoryRow F) (c : Checked) (event_type : MemoryEventType)
      → (next_row row c event_type (target_of event_type)).state ≡ target_of event_type
  unfolding next_row
  next_row-state row c event_type = refl

  next_row-revision :
      (row : MemoryRow F) (c : Checked) (event_type : MemoryEventType)
      → (next_row row c event_type (target_of event_type)).revision ≡ row.revision + 1
  unfolding next_row
  next_row-revision row c event_type = refl

  next_row-checks :
      (row : MemoryRow F) (c : Checked) (event_type : MemoryEventType)
      → check_record row ≡ ok tt
      → time_ltb c.occurred_at row.created_at ≡ false
      → check_record (next_row row c event_type (target_of event_type)) ≡ ok tt
  unfolding check_record next_row
  next_row-checks row c event_type e late =
      let checks = raise_first-All (record_checks row) e in
      let valid = checks.1.1.0 in
      raise_first-none (record_checks (next_row row c event_type (target_of event_type)))
        (active_confirmed event_type row.trust, (late, (valid, (ground arith, (ground arith, tt)))))

  -- The table after the transition is read back.
  reload-next :
      (s : Ledger F) (c : Checked) (event_type : MemoryEventType) (h : Text) (r : MemoryRecord F)
      → load_record s c.record_id ≡ ok (some r)
      → time_ltb c.occurred_at r.row.created_at ≡ false
      → (r' : MemoryRecord F) × (load_record
            (write_transition s r.row c event_type (target_of event_type) h)
            c.record_id
          ≡ ok (some r'))
        × (r'.row ≡ next_row r.row c event_type (target_of event_type))
  unfolding load_record record_from_row
  reload-next s c event_type h r e late =
      let t = write_transition s r.row c event_type (target_of event_type) h in
      let next = next_row r.row c event_type (target_of event_type) in
      let found =
        write_transition-row s r.row c event_type (target_of event_type) h
          (load_record-some s c.record_id r e) in
      let origin = origin_read s c.record_id _ r e in
      let kept : origin_of (Dict.get c.record_id t.origins) (Dict.get c.record_id t.payloads)
          ≡ ok r.origin =
        unfold write_transition in origin in
      let checked = next_row-checks r.row c event_type (checks_read s c.record_id _ r e) late in
      (
        join_record t c.record_id next r.origin,
        ap (decode_row t c.record_id) found
            ∙ bind_of (record_from_row t c.record_id next) _
                (join_record t c.record_id next r.origin) _
                (bind_of _ _ r.origin _ kept (then_of _ _ _ checked refl)) refl,
        refl,
      )

module _ {F : Type 0} (host : Host F) where
  -- A transition that the state of a readable record allows, with its revision and an event
  -- identifier that no command used, at an instant not before the record's creation and, for a
  -- confirmation, before the end of its validity and of an origin that may be confirmed, returns: the
  -- record is in the event's state, with the next revision.
  pub transition_checked-succeeds :
      (event_type : MemoryEventType) (raw : Bool) (c : Checked) (s : Ledger F) (r : MemoryRecord F)
      → load_record s c.record_id ≡ ok (some r)
      → r.row.revision ≡ c.expected_revision
      → allowed event_type r.row.state ≡ true
      → Dict.get c.event_id s.events ≡ none
      → ensure_no_receipt host s c.event_id ≡ ok tt
      → assert_raw_eligible raw r ≡ ok tt
      → (is_confirmation event_type && has_ended r.row.valid_until c.occurred_at) ≡ false
      → time_ltb c.occurred_at r.row.created_at ≡ false
      → (r' : MemoryRecord F) × (s' : Ledger F) × (transition_checked host event_type
            (target_of event_type)
            raw
            c
            s
          ≡ ok (r', s'))
        × (r'.row.state ≡ target_of event_type)
        × (r'.row.revision ≡ c.expected_revision + 1)
  unfolding transition_checked transition_fresh transition_locked reload
  transition_checked-succeeds event_type raw c s r e version guard fresh unused eligible valid
        late =
      let h = host.command_hash (
        transition_command event_type (target_of event_type) c.record_id c.expected_revision
          c.related c.reason c.actor) in
      let t = write_transition s r.row c event_type (target_of event_type) h in
      let (r', read, next) = reload-next s c event_type h r e late in
      (
        r',
        t,
        bind_of _ _ false _ (idempotent_event-fresh s c.event_id c.record_id h fresh) (
            then_of _ _ _ unused (
              bind_of _ _ (some r) _ e (
                then_of _ _ _ (revision_met r c.expected_revision version) (
                  then_of _ _ _ eligible (
                    then_of _ _ _ (raise_unless_of _ _ guard) (
                      then_of _ _ _ (raise_if_of _ _ valid)
                        (bind_of _ (assert_found t) (some r') _ read refl))))))),
        ap (λ x. x.state) next ∙ next_row-state r.row c event_type,
        ap (λ x. x.revision) next ∙ next_row-revision r.row c event_type ∙ ap (λ n. n + 1) version,
      )
