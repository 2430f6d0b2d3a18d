-- ===== src/Ledger/Active.antt =====
-- The SELECT of the active records and the sweep of those whose validity ended
-- (protoprompt/ledger/sqlite.py).
pub mod Due
use protoprompt.Prelude.{
  ℕ, Bool, true, false, not, ◌&&◌, ◌||◌, Option, none, some, List, [], ◌∷◌, map, Text, text_eq,
  if◌then◌else◌, Error, value_error, type_error, runtime_error, key_error, index_error,
  conflict_error, state_error, Result, ok, err, raise_if, ◌>>=◌, ◌>>◌, leb, length, select, take,
  sort_desc,
}
use protoprompt.PyText.{text_ltb}
use protoprompt.Dict
use protoprompt.Dict.{Dict}
use protoprompt.Ledger.{
  Time, stamp_leb, MemoryState, candidate, active, MemoryRow, Ledger, MemoryRecord, Host,
}
use protoprompt.Ledger.Validate.{Request}
use protoprompt.Ledger.Load.{is_active, is_confirmed, is_recallable, record_from_row}
use protoprompt.Ledger.Transition.{is_raw_origin, expire}

-- column IS NULL OR column <= now
abbrev pub null_or_past : Option Time → Time → Bool
null_or_past none now = true
null_or_past (some t) now = stamp_leb t now

-- column IS NULL OR column > now
abbrev pub null_or_later : Option Time → Time → Bool
null_or_later none now = true
null_or_later (some t) now = not (stamp_leb t now)

-- column IS NOT NULL AND column <= now
abbrev pub is_past : Option Time → Time → Bool
is_past none now = false
is_past (some t) now = stamp_leb t now

-- state IN ('candidate', 'active')
abbrev pub is_open : MemoryState → Bool
is_open candidate = true
is_open active = true
is_open _ = false

module _ {F : Type 0} where
  -- The WHERE clause of `_list_active_locked`, with its JOIN on the payloads
  unfoldable pub is_listed : Ledger F → Time → Text × MemoryRow F → Bool
  unfolding stamp_leb Dict.get
  is_listed s now kv =
      Dict.has kv.0 s.payloads
      && (is_active kv.1.state
          && (is_confirmed kv.1.trust
              && (null_or_past kv.1.valid_from now && null_or_later kv.1.valid_until now)))

  -- ORDER BY updated_at DESC, record_id ASC: whether `a` comes after `b`
  unfoldable pub listed_after : Text × MemoryRow F → Text × MemoryRow F → Bool
  unfolding stamp_leb text_ltb
  listed_after a b =
      not (stamp_leb b.1.updated_at a.1.updated_at)
      || (stamp_leb a.1.updated_at b.1.updated_at && text_ltb b.0 a.0)

  -- The SELECT of `_list_active_locked`
  unfoldable pub active_rows : Ledger F → Time → ℕ → List (Text × MemoryRow F)
  unfolding is_listed listed_after sort_desc
  active_rows s now limit =
      take limit (sort_desc listed_after (λ kv. kv) (select (is_listed s now) s.records))

-- The exceptions that `expire_due` passes over
abbrev pub is_passed_over : Error → Bool
is_passed_over (key_error m) = true
is_passed_over (conflict_error m) = true
is_passed_over (state_error m) = true
is_passed_over (value_error m) = false
is_passed_over (type_error m) = false
is_passed_over (runtime_error m) = false
is_passed_over (index_error m) = false

-- The arguments of one `expire` of `expire_due`
abbrev pub due_request : Text → Time → Text → Text → ℕ → Request
due_request actor now fresh_id identity revision = record {
  record_id = identity;
  expected_revision = revision;
  actor = actor;
  event_id = none;
  fresh_id = fresh_id;
  occurred_at = now;
}

module _ {F : Type 0} where
  -- The WHERE clause of `expire_due`
  unfoldable pub is_due : Time → Text × MemoryRow F → Bool
  unfolding stamp_leb
  is_due now kv = is_open kv.1.state && is_past kv.1.valid_until now

  -- The SELECT of `expire_due`
  unfoldable pub due_rows : Time → Ledger F → List (Text × ℕ)
  unfolding is_due sort_desc text_ltb
  due_rows now s =
      sort_desc (λ a b. text_ltb b a) (λ kv. kv.0)
        (map (λ kv. (kv.0, kv.1.revision)) (select (is_due now) s.records))

  -- What the loop of `expire_due` makes of one `expire` and of the rows that follow
  unfoldable pub collect :
      Result (MemoryRecord F)
      → Result (List (MemoryRecord F)) × Ledger F
      → Ledger F
      → Result (List (MemoryRecord F)) × Ledger F
  collect (ok r) rest s = ((rest.0 >>= λ later. ok (r ∷ later)), rest.1)
  collect (err e) rest s = if is_passed_over e then rest else (err e, s)

  module _ (host : Host F) where
    -- The loop of `expire_due`: every `expire` is a transaction of its own.
    unfoldable pub expire_each :
        Text
        → Time
        → (ℕ → Text)
        → List (Text × ℕ)
        → Ledger F
        → Result (List (MemoryRecord F)) × Ledger F
    unfolding expire collect
    expire_each actor now fresh [] s = (ok [], s)
    expire_each actor now fresh ((identity, revision) ∷ rows) s =
        let (r, after) =
          expire host (due_request actor now (fresh (length rows)) identity revision) s in
        let rest = expire_each actor now fresh rows after in collect r rest after

    unfoldable pub expire_due :
        Text → Time → (ℕ → Text) → Ledger F → Result (List (MemoryRecord F)) × Ledger F
    unfolding due_rows expire_each
    expire_due actor now fresh s = expire_each actor now fresh (due_rows now s) s
