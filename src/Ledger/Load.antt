-- ===== src/Ledger/Load.antt =====
-- Reading one record back, with the checks of its constructor (protoprompt/ledger/sqlite.py,
-- types.py).
use protoprompt.Prelude.{
  ℕ, Bool, true, false, not, ◌&&◌, ◌||◌, Option, none, some, List, [], ◌∷◌, map, Text, codes,
  String, ltb, text_eq, nat_eq, text_eqb, ◌==◌, Result, ok, err, state_error, conflict_error,
  raise_if, ◌>>=◌, ◌>>◌, select, sort_desc,
}
use protoprompt.PyText.{text_ltb}
use protoprompt.Plan.{raise_first}
use protoprompt.Dict
use protoprompt.Dict.{Dict}
use protoprompt.Ledger.Validate.{validate_opaque, validate_identifier}
use protoprompt.Ledger.{
  Time, time_ltb, MemoryState, active, MemoryTrust, host_confirmed, MemoryOrigin, unknown,
  MemoryRelationType, supersedes, derived_from, supports, contradicts, MemoryRow, Payload,
  RelationRow, Ledger, MemoryRecord,
}

abbrev pub is_active : MemoryState → Bool
is_active active = true
is_active _ = false

abbrev pub is_confirmed : MemoryTrust → Bool
is_confirmed host_confirmed = true
is_confirmed _ = false

-- a is not None and b is not None and b < a
unfoldable pub ends_before : Option Time → Option Time → Bool
unfolding time_ltb
ends_before (some a) (some b) = time_ltb b a
ends_before _ _ = false

abbrev pub relation_value : MemoryRelationType → String
relation_value supersedes = "supersedes"
relation_value derived_from = "derived_from"
relation_value supports = "supports"
relation_value contradicts = "contradicts"

-- ORDER BY relation, to_record_id: whether `a` comes after `b`
unfoldable pub relation_after : RelationRow → RelationRow → Bool
unfolding text_ltb text_eqb
relation_after a b =
    text_ltb (codes (relation_value b.relation)) (codes (relation_value a.relation))
    || (codes (relation_value a.relation) == codes (relation_value b.relation)
        && text_ltb b.to_record_id a.to_record_id)

unfoldable pub relations_of : Text → List RelationRow → List (MemoryRelationType × Text)
unfolding relation_after sort_desc
relations_of record_id rows =
    map (λ r. (r.relation, r.to_record_id))
      (sort_desc relation_after (λ r. r) (select (λ r. r.from_record_id == record_id) rows))

abbrev pub source_refs_of : Option Payload → List Text
source_refs_of none = []
source_refs_of (some p) = p.source_refs

abbrev pub evidence_refs_of : Option Payload → List Text
evidence_refs_of none = []
evidence_refs_of (some p) = p.evidence_refs

abbrev pub content_of : Option Payload → Option Text
content_of none = none
content_of (some p) = some p.content

abbrev pub origin_of : Option MemoryOrigin → Option Payload → Result MemoryOrigin
origin_of (some origin) payload = ok origin
origin_of none none = ok unknown
origin_of none (some p) =
    err (state_error "payload-bearing memory record is missing admission origin metadata")

abbrev pub starts_after : Option Time → Time → Bool
starts_after none now = false
starts_after (some t) now = time_ltb now t

abbrev pub has_ended : Option Time → Time → Bool
has_ended none now = false
has_ended (some t) now = not (time_ltb now t)

module _ {F : Type 0} where
  -- The checks of MemoryRecord.__post_init__ that compare fields. The others repeat the validation
  -- of the arguments that were stored.
  abbrev pub record_checks : MemoryRow F → List (Bool × String)
  record_checks row =
      (
        is_active row.state && not (is_confirmed row.trust),
        "an active memory record must be host_confirmed",
      )
      ∷ (time_ltb row.updated_at row.created_at, "updated_at must not be before created_at")
      ∷ (ends_before row.valid_from row.valid_until, "valid_until must not be before valid_from")
      ∷ (ltb row.revision 1, "revision must be at least 1")
      ∷ (ltb row.last_event_sequence 1, "last_event_sequence must be at least 1")
      ∷ []

  unfoldable pub check_record : MemoryRow F → Result (Unit {0})
  unfolding raise_first time_ltb ends_before
  check_record row = raise_first (record_checks row)

  abbrev pub join_record : Ledger F → Text → MemoryRow F → MemoryOrigin → MemoryRecord F
  join_record s identity row origin = record {
    record_id = identity;
    row = row;
    origin = origin;
    content = content_of (Dict.get identity s.payloads);
    source_refs = source_refs_of (Dict.get identity s.payloads);
    evidence_refs = evidence_refs_of (Dict.get identity s.payloads);
    relations = relations_of identity s.relations;
  }

  -- _memory_record_from_row_locked
  unfoldable pub record_from_row : Ledger F → Text → MemoryRow F → Result (MemoryRecord F)
  unfolding check_record relations_of Dict.get
  record_from_row s identity row =
      origin_of (Dict.get identity s.origins) (Dict.get identity s.payloads) >>= λ origin.
      (check_record row >> ok (join_record s identity row origin))

  abbrev pub decode_row : Ledger F → Text → Option (MemoryRow F) → Result (Option (MemoryRecord F))
  decode_row s identity none = ok none
  decode_row s identity (some row) = record_from_row s identity row >>= λ r. ok (some r)

  -- _load_record_locked
  unfoldable pub load_record : Ledger F → Text → Result (Option (MemoryRecord F))
  unfolding record_from_row Dict.get
  load_record s identity = decode_row s identity (Dict.get identity s.records)

  -- get
  pub get_record : Ledger F → Text → Result (Option (MemoryRecord F))
  unfolding validate_opaque load_record
  get_record s record_id = validate_identifier record_id >>= λ identity. load_record s identity

  -- MemoryRecord.is_recallable
  unfoldable pub is_recallable : MemoryRecord F → Time → Bool
  unfolding time_ltb
  is_recallable r now =
      is_active r.row.state
      && (is_confirmed r.row.trust
          && (elim r.content [ none ↦ false | some _ ↦ true ]
              && (not (starts_after r.row.valid_from now)
                  && not (has_ended r.row.valid_until now))))

  -- _check_revision
  unfoldable pub check_revision : MemoryRecord F → ℕ → Result (Unit {0})
  check_revision r expected =
      raise_if (not (r.row.revision == expected)) (conflict_error "record has another revision")
