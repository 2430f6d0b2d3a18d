-- ===== src/Ledger/Create.antt =====
-- The creation of a candidate (protoprompt/ledger/sqlite.py): observe, assert_candidate and what
-- they share.
use protoprompt.Prelude.{
  Bool, true, false, not, ◌&&◌, ◌||◌, Option, none, some, List, [], ◌∷◌, ◌++◌, Text, text_eq,
  text_eqb, ◌==◌, if◌then◌else◌, Result, ok, err, value_error, conflict_error, state_error,
  raise_if, ◌>>=◌, ◌>>◌, any_of,
}
use protoprompt.PyText.{is_empty}
use protoprompt.Value.{same_texts}
use protoprompt.Dict
use protoprompt.Ledger.{
  Time, time_ltb, MemoryKind, candidate, untrusted, MemoryOrigin, unknown, legacy_unknown,
  MemoryEventType, on_observed, on_asserted, MemoryRow, MemoryEvent, Ledger, MemoryRecord, Host,
  candidate_command, record_barrier, source_barrier, kind_eqb, event_type_eqb, origin_eqb,
}
use protoprompt.Ledger.Validate.{
  validate_opaque, validate_identifier, validate_reference, validate_references, validate_content,
  validate_retention, validate_confidence, choose_event_id,
}
use protoprompt.Ledger.Load.{load_record, ends_before}
use protoprompt.Ledger.Transition.{commit, ensure_no_receipt, reload}

-- The arguments of `_create_candidate` as the caller gives them.
pub record Proposal (F : Type 0) : Type 0 where
  pub event_type : MemoryEventType
  pub origin : MemoryOrigin
  pub kind : MemoryKind
  pub content : Text
  pub source_ref : Text
  pub evidence_refs : List Text
  pub confidence : F
  pub record_id : Option Text
  pub fresh_record_id : Text
  pub retention_policy : Text
  pub valid_from : Option Time
  pub valid_until : Option Time
  pub actor : Text
  pub event_id : Option Text
  pub fresh_event_id : Text
  pub occurred_at : Time

-- The same arguments, validated; `requested` is the identifier that the caller chose.
pub record Draft (F : Type 0) : Type 0 where
  pub event_type : MemoryEventType
  pub origin : MemoryOrigin
  pub kind : MemoryKind
  pub content : Text
  pub source_ref : Text
  pub evidence_refs : List Text
  pub confidence : F
  pub requested : Option Text
  pub fresh_record_id : Text
  pub retention_policy : Text
  pub valid_from : Option Time
  pub valid_until : Option Time
  pub actor : Text
  pub event_id : Text
  pub occurred_at : Time

-- left == right, where both may be None
abbrev pub same_id : Option Text → Option Text → Bool
same_id none none = true
same_id (some a) (some b) = a == b
same_id _ _ = false

abbrev pub same_time : Option Time → Option Time → Bool
same_time none none = true
same_time (some a) (some b) = not (time_ltb a b) && not (time_ltb b a)
same_time _ _ = false

-- validate_identifier(record_id) if record_id else None
unfoldable pub validate_requested : Option Text → Result (Option Text)
unfolding validate_opaque
validate_requested none = ok none
validate_requested (some value) =
    if is_empty value then ok none else (validate_identifier value >>= λ n. ok (some n))

abbrev pub is_other : Option Text → Text → Bool
is_other none identity = false
is_other (some requested) identity = not (identity == requested)

abbrev pub is_present {ℓ} : {A : Type ℓ} → Option A → Bool
is_present none = false
is_present (some a) = true

-- requested_identity or uuid.uuid4().hex
abbrev pub identity_or : Text → Option Text → Text
identity_or fresh none = fresh
identity_or fresh (some identity) = identity

module _ {F : Type 0} (host : Host F) where
  -- The validation with which `_create_candidate` begins
  unfoldable pub check_proposal : Proposal F → Result (Draft F)
  unfolding validate_opaque validate_references validate_content validate_retention
      validate_requested choose_event_id ends_before
  check_proposal p = do
    raise_if
        (not (event_type_eqb p.event_type on_observed || event_type_eqb p.event_type on_asserted))
        (value_error "candidate creation requires observed or asserted event type")
    requested ← validate_requested p.record_id
    plaintext ← validate_content p.content
    source ← validate_reference p.source_ref
    evidence ← validate_references p.evidence_refs
    confidence ← validate_confidence host p.confidence
    retention ← validate_retention p.retention_policy
    raise_if (ends_before p.valid_from p.valid_until)
        (value_error "valid_until must not be before valid_from")
    event_id ← choose_event_id p.event_id p.fresh_event_id
    actor ← validate_identifier p.actor
    ok (record {
      event_type = p.event_type;
      origin = p.origin;
      kind = p.kind;
      content = plaintext;
      source_ref = source;
      evidence_refs = evidence;
      confidence = confidence;
      requested = requested;
      fresh_record_id = p.fresh_record_id;
      retention_policy = retention;
      valid_from = p.valid_from;
      valid_until = p.valid_until;
      actor = actor;
      event_id = event_id;
      occurred_at = p.occurred_at;
    })

  -- _candidate_matches_record
  unfoldable pub candidate_matches : MemoryRecord F → Draft F → Bool
  unfolding kind_eqb same_texts time_ltb origin_eqb text_eqb
  candidate_matches r d =
      kind_eqb r.row.kind d.kind
      && (same_id r.content (some d.content)
          && (same_texts r.source_refs (d.source_ref ∷ [])
              && (same_texts r.evidence_refs d.evidence_refs
                  && (host.same_float r.row.confidence d.confidence
                      && ((r.row.retention_policy == d.retention_policy)
                          && (same_time r.row.valid_from d.valid_from
                              && (same_time r.row.valid_until d.valid_until
                                  && (origin_eqb r.origin d.origin
                                      || (origin_eqb d.origin unknown
                                          && origin_eqb r.origin legacy_unknown)))))))))

  -- _is_source_revoked_locked
  unfoldable pub is_source_revoked : Ledger F → Text → Bool
  is_source_revoked s source =
      any_of (λ k. k == host.command_hash (source_barrier source)) s.revoked_sources

  -- _is_tombstoned_locked
  unfoldable pub is_tombstoned : Ledger F → Text → Bool
  is_tombstoned s identity =
      any_of (λ k. k == host.command_hash (record_barrier identity)) s.tombstones

  -- The row that `_create_candidate` inserts
  abbrev pub draft_row : Draft F → MemoryRow F
  draft_row d = record {
    kind = d.kind;
    state = candidate;
    trust = untrusted;
    content_hash = host.content_hash d.content;
    confidence = d.confidence;
    valid_from = d.valid_from;
    valid_until = d.valid_until;
    retention_policy = d.retention_policy;
    created_at = d.occurred_at;
    updated_at = d.occurred_at;
    revision = 1;
    last_event_sequence = 1;
    superseded_by = none;
    retracted_at = none;
    expired_at = none;
  }

  abbrev pub draft_event : Draft F → Text → MemoryEvent
  draft_event d identity = record {
    record_id = identity;
    event_type = d.event_type;
    revision = 1;
    occurred_at = d.occurred_at;
    actor = d.actor;
    related_record_id = none;
    reason_code = none;
    payload_hash = host.command_hash (
        candidate_command d.event_type d.requested d.kind d.confidence d.retention_policy
          d.valid_from d.valid_until d.actor d.origin);
  }

  -- The five INSERTs of `_create_candidate`
  unfoldable pub write_candidate : Ledger F → Draft F → Text → Ledger F
  write_candidate s d identity = record s {
    events = s.events ++ (d.event_id, draft_event d identity) ∷ [];
    records = s.records ++ (identity, draft_row d) ∷ [];
    payloads =
        s.payloads
        ++ (
          identity,
          record {
            content = d.content;
            source_refs = d.source_ref ∷ [];
            evidence_refs = d.evidence_refs;
          },
        )
          ∷ [];
    origins = s.origins ++ (identity, d.origin) ∷ [];
    sources = s.sources ++ record { source_ref = d.source_ref; record_id = identity } ∷ [];
  }

  abbrev pub answer_candidate :
      Ledger F → Draft F → Option (MemoryRecord F) → Result (MemoryRecord F × Ledger F)
  answer_candidate s d none = err (conflict_error "event_id belongs to an erased record")
  answer_candidate s d (some r) =
      raise_if (not (candidate_matches r d))
        (conflict_error "event_id was already used for a different command")
      >> ok (r, s)

  -- The answer to a creation whose event is stored already
  unfoldable pub replay_candidate :
      Ledger F → Draft F → MemoryEvent → Result (MemoryRecord F × Ledger F)
  unfolding event_type_eqb load_record candidate_matches text_eqb
  replay_candidate s d e = do
    raise_if (not (event_type_eqb e.event_type d.event_type) || not (e.actor == d.actor))
        (conflict_error "event_id was already used for a different command")
    raise_if (is_other d.requested e.record_id)
        (conflict_error "event_id was already used for a different record_id")
    found ← load_record s e.record_id
    answer_candidate s d found

  -- The part of the transaction that creates the record
  unfoldable pub create_fresh : Ledger F → Draft F → Text → Result (MemoryRecord F × Ledger F)
  unfolding ensure_no_receipt is_tombstoned load_record write_candidate reload
  create_fresh s d identity = do
    ensure_no_receipt host s d.event_id
    raise_if (is_tombstoned s identity)
        (state_error "record_id was erased in this scope and cannot be reused")
    found ← load_record s identity
    raise_if (is_present found) (conflict_error "record_id already exists in this scope")
    reload (write_candidate s d identity) identity

  -- What follows the search for the event in the transaction
  abbrev pub create_at :
      Draft F → Ledger F → Option MemoryEvent → Result (MemoryRecord F × Ledger F)
  create_at d s none = create_fresh s d (identity_or d.fresh_record_id d.requested)
  create_at d s (some e) = replay_candidate s d e

  -- The transaction of `_create_candidate`, with validated arguments
  unfoldable pub create_checked : Draft F → Ledger F → Result (MemoryRecord F × Ledger F)
  unfolding is_source_revoked replay_candidate create_fresh Dict.get
  create_checked d s =
      raise_if (is_source_revoked s d.source_ref)
        (state_error "source_ref was revoked in this scope and cannot be ingested")
      >> create_at d s (Dict.get d.event_id s.events)

  -- _create_candidate
  unfoldable pub create_candidate : Proposal F → Ledger F → Result (MemoryRecord F) × Ledger F
  unfolding check_proposal create_checked
  create_candidate p s = commit (check_proposal p >>= λ d. create_checked d s) s

  pub observe : Proposal F → Ledger F → Result (MemoryRecord F) × Ledger F
  unfolding create_candidate
  observe p s = create_candidate (record p { event_type = on_observed; origin = unknown }) s

  pub assert_candidate : Proposal F → Ledger F → Result (MemoryRecord F) × Ledger F
  unfolding create_candidate
  assert_candidate p s =
      create_candidate (record p { event_type = on_asserted; origin = unknown }) s
