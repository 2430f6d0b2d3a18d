-- ===== src/Ledger/Invariant/Erased.antt =====
-- The invariant and the erasure of a record.
use mathlib.Core.Path.{subst}
use protoprompt.Prelude.{
  ℕ, ◌≡◌, ◌≢◌, ◌⊎◌, refl, inl, inr, true, false, not, none, some, List, [], ◌∷◌, ◌++◌, Text,
  text_eq, text_eqb_iff, ◌==◌, ◌||◌, if◌then◌else◌, arith, Bool-cases, any_of, select, false, some,
}
use protoprompt.Dict
use protoprompt.Dict.{Dict}
use protoprompt.Dict.Laws.{get-remove}
use protoprompt.Dict.Keys.{append-Unique, remove-Unique}
use protoprompt.Dict.Rows.{
  get-update-none, get-update_inv, get-update_gone, update-Unique, keep-Unique,
}
use protoprompt.Ledger.{
  Time, MemoryRow, Payload, RelationRow, Ledger, Host, record_barrier, erased_relation,
}
use protoprompt.Ledger.Validate.{Checked}
use protoprompt.Ledger.Supersede.{add_supersedes}
use protoprompt.Ledger.Create.{is_tombstoned}
use protoprompt.Ledger.Forget.{insert_ignore, touches}
use protoprompt.Ledger.Erase.{write_erase, erase_rows, clear_pointing, redact_event}
use protoprompt.Ledger.Steps.{
  Step, Steps, stay, next, transitioned, linked, created, forgotten, revoked, erased,
}
use protoprompt.Ledger.Invariant.{count_events, IsRow, IsLedger, Separates}
use protoprompt.Ledger.Invariant.Counts.{count_events-erased, none-append, none-select, none-delete}
use protoprompt.Ledger.Invariant.Kept.{IsRow-along, write_transition-IsLedger}
use protoprompt.Ledger.Invariant.Removed.{write_candidate-IsLedger, write_forget-IsLedger}

any_of-last :
    (k j : Text) (keys : List Text)
    → any_of (λ x. x == j) (keys ++ k ∷ []) ≡ true
    → (k ≡ j) ⊎ (any_of (λ x. x == j) keys ≡ true)
any_of-last k j [] h = inl (ground (arith, h, text_eqb_iff k j))
any_of-last k j (i ∷ keys) h = elim (Bool-cases (i == j)) [
  | inl same ↦ inr (rw same refl)
  | inr other ↦ rw other (
      any_of-last k j keys
        (subst (λ b. (b || any_of (λ x. x == j) (keys ++ k ∷ [])) ≡ true) other h))
]

pub any_of-insert :
    (k j : Text) (keys : List Text)
    → any_of (λ x. x == j) (insert_ignore k keys) ≡ true
    → (k ≡ j) ⊎ (any_of (λ x. x == j) keys ≡ true)
unfolding insert_ignore
any_of-insert k j keys h = elim (Bool-cases (any_of (λ x. x == k) keys)) [
  | inl old ↦
      inr (subst (λ b. any_of (λ x. x == j) (if b then keys else keys ++ k ∷ []) ≡ true) old h)
  | inr new ↦
      any_of-last k j keys
        (subst (λ b. any_of (λ x. x == j) (if b then keys else keys ++ k ∷ []) ≡ true) new h)
]

touches-ends :
    (i : Text) (r : RelationRow) → (r.from_record_id == i || r.to_record_id == i) ≡ touches i r
touches-ends i r = refl

module _ {F : Type 0} (host : Host F) where
  -- A record that stands after the erasure of another stood before, with the same row but for a
  -- `superseded_by`.
  erased-row :
      (s : Ledger F) (identity i : Text) (row : MemoryRow F)
      → Dict.get i (Dict.remove identity (Dict.update (λ k. clear_pointing identity) s.records))
        ≡ some row
      → (w : MemoryRow F) × (identity ≢ i)
        × (Dict.get i s.records ≡ some w)
        × (row ≡ clear_pointing identity w)
  erased-row s identity i row e =
      let removed = get-remove identity i (Dict.update (λ k. clear_pointing identity) s.records) in
      elim (Bool-cases (identity == i)) [
        | inl same ↦ absurd (ground (arith, same, removed, e))
        | inr other ↦
            let (w, there, value) =
              get-update_inv (λ k. clear_pointing identity) i row s.records
                (ground (arith, other, removed, e)) in
            (w, ground (arith, other, text_eqb_iff identity i), there, value)
      ]

  clear_pointing-IsRow :
      (identity : Text) (row : MemoryRow F) (n : ℕ)
      → IsRow row n
      → IsRow (clear_pointing identity row) n
  clear_pointing-IsRow identity row n ok = record {
    confirmed = ground (arith, ok.confirmed);
    versioned = ground (arith, ok.versioned);
    sequenced = ground (arith, ok.sequenced);
    positive = ok.positive;
  }

  removed-payload :
      (s : Ledger F) (identity i : Text) (p : Payload)
      → Dict.get i (Dict.remove identity s.payloads) ≡ some p
      → ((identity == i) ≡ false) × (Dict.get i s.payloads ≡ some p)
  removed-payload s identity i p e =
      let removed = get-remove identity i s.payloads in
      elim (Bool-cases (identity == i)) [
        | inl same ↦ absurd (ground (arith, same, removed, e))
        | inr other ↦ (other, ground (arith, other, removed, e))
      ]

  erased-gone :
      (s : Ledger F) (identity i : Text)
      → IsLedger host s
      → Dict.get i (Dict.remove identity (Dict.update (λ k. clear_pointing identity) s.records))
        ≡ none
      → (count_events i (
            Dict.keep
              (λ k e. not (e.record_id == identity))
              (Dict.update
                (λ k. redact_event (host.command_hash erased_relation) identity)
                s.events))
          ≡ 0)
        × (Dict.get i (Dict.remove identity s.payloads) ≡ none)
        × (Dict.get i (Dict.remove identity s.origins) ≡ none)
  erased-gone s identity i inv e =
      let counted = count_events-erased (host.command_hash erased_relation) identity i s.events in
      let payload = get-remove identity i s.payloads in
      let origin = get-remove identity i s.origins in
      let removed = get-remove identity i (Dict.update (λ k. clear_pointing identity) s.records) in
      elim (Bool-cases (identity == i)) [
        | inl same ↦ (
          ground (arith, counted, same),
          ground (arith, payload, same),
          ground (arith, origin, same),
        )
        | inr other ↦
            let (none_left, p, o) = inv.gone i (
              get-update_gone (λ k. clear_pointing identity) i s.records
                (ground (arith, other, removed, e))) in
            (
              ground (arith, counted, other, none_left),
              ground (arith, payload, other, p),
              ground (arith, origin, other, o),
            )
      ]

  -- A record that is gone after an erasure is the erased one or was gone before.
  erased-absent :
      (s : Ledger F) (identity i : Text)
      → Dict.get i (Dict.remove identity (Dict.update (λ k. clear_pointing identity) s.records))
        ≡ none
      → (identity ≡ i) ⊎ (Dict.get i s.records ≡ none)
  erased-absent s identity i e =
      let removed = get-remove identity i (Dict.update (λ k. clear_pointing identity) s.records) in
      elim (Bool-cases (identity == i)) [
        | inl same ↦ inl ((text_eqb_iff identity i).0 same)
        | inr other ↦ inr (
            get-update_gone (λ k. clear_pointing identity) i s.records
              (ground (arith, other, removed, e)))
      ]

  pub write_erase-IsLedger :
      (s : Ledger F) (row : MemoryRow F) (identity event_id h : Text) (now : Time)
      → Separates host
      → IsLedger host s
      → Dict.get event_id s.hard_receipts ≡ none
      → IsLedger host (write_erase host s identity event_id h now).1
  unfolding write_erase erase_rows is_tombstoned
  write_erase-IsLedger s row identity event_id h now separates inv unused = record {
    records_once = remove-Unique identity _ (update-Unique _ s.records inv.records_once);
    payloads_once = remove-Unique identity s.payloads inv.payloads_once;
    origins_once = remove-Unique identity s.origins inv.origins_once;
    events_once = keep-Unique _ _ (update-Unique _ s.events inv.events_once);
    receipts_once = keep-Unique _ s.erasure_receipts inv.receipts_once;
    hard_once = append-Unique event_id _ s.hard_receipts inv.hard_once unused;
    rows = λ i row' e.
        let (w, other, there, value) = erased-row s identity i row' e in
        IsRow-along value
          (ground (
            arith,
            other,
            text_eqb_iff identity i,
            count_events-erased (host.command_hash erased_relation) identity i s.events,
          ))
          (clear_pointing-IsRow identity w _ (inv.rows i w there));
    gone = λ i e. erased-gone s identity i inv e;
    unsourced = λ i e. elim (erased-absent s identity i e) [
      | inl same ↦
          subst
            (λ k.
              any_of (λ r. r.record_id == k) (select (λ r. not (r.record_id == identity)) s.sources)
              ≡ false)
            same
            (none-delete (λ r. r.record_id == identity) (λ r. r.record_id == identity) s.sources
              (λ r. refl))
      | inr absent ↦
          none-select (λ r. r.record_id == i) (λ r. not (r.record_id == identity)) s.sources
            (inv.unsourced i absent)
    ];
    unrelated = λ i e. elim (erased-absent s identity i e) [
      | inl same ↦
          subst
            (λ k.
              any_of (λ r. r.from_record_id == k || r.to_record_id == k)
                (select (λ r. not (touches identity r)) s.relations)
              ≡ false)
            same
            (none-delete (λ r. r.from_record_id == identity || r.to_record_id == identity)
              (touches identity) s.relations (touches-ends identity))
      | inr absent ↦
          none-select (λ r. r.from_record_id == i || r.to_record_id == i)
            (λ r. not (touches identity r)) s.relations (inv.unrelated i absent)
    ];
    labelled = λ i p e.
        let (other, old) = removed-payload s identity i p e in
        ground (arith, get-remove identity i s.origins, other, inv.labelled i p old);
    barred = λ i b.
        let removed =
          get-remove identity i (Dict.update (λ k. clear_pointing identity) s.records) in
        elim (any_of-insert (host.command_hash (record_barrier identity))
          (host.command_hash (record_barrier i)) s.tombstones b) [
            | inl same ↦ ground (arith, removed, text_eqb_iff identity i, separates identity i same)
            | inr old ↦ ground (
              arith,
              removed,
              get-update-none (λ k. clear_pointing identity) i s.records (inv.barred i old),
            )
          ];
  }

  -- The revocation of a source, which the invariant does not read
  revoked-IsLedger :
      (s : Ledger F) (revoked_sources : List Text)
      → IsLedger host s
      → IsLedger host (record s { revoked_sources = revoked_sources })
  unfolding is_tombstoned
  revoked-IsLedger s revoked_sources inv = record {
    records_once = inv.records_once;
    payloads_once = inv.payloads_once;
    origins_once = inv.origins_once;
    events_once = inv.events_once;
    receipts_once = inv.receipts_once;
    hard_once = inv.hard_once;
    rows = inv.rows;
    gone = inv.gone;
    unsourced = inv.unsourced;
    unrelated = inv.unrelated;
    labelled = inv.labelled;
    barred = inv.barred;
  }

  linked-IsLedger :
      (s : Ledger F) (replacement : Text) (c : Checked) (other row : MemoryRow F)
      → Dict.get replacement s.records ≡ some other
      → Dict.get c.record_id s.records ≡ some row
      → IsLedger host s
      → IsLedger host (add_supersedes replacement c s)
  unfolding is_tombstoned
  linked-IsLedger s replacement c other row here there inv = record {
    records_once = inv.records_once;
    payloads_once = inv.payloads_once;
    origins_once = inv.origins_once;
    events_once = inv.events_once;
    receipts_once = inv.receipts_once;
    hard_once = inv.hard_once;
    rows = inv.rows;
    gone = inv.gone;
    unsourced = inv.unsourced;
    unrelated = λ i e.
        none-append (λ r. r.from_record_id == i || r.to_record_id == i) s.relations _
          (inv.unrelated i e)
          (ground (arith, text_eqb_iff replacement i, text_eqb_iff c.record_id i, here, there, e));
    labelled = inv.labelled;
    barred = inv.barred;
  }

  -- No step breaks the invariant.
  pub Step-IsLedger :
      {s t : Ledger F} → Separates host → Step host s t → IsLedger host s → IsLedger host t
  unfolding is_tombstoned
  Step-IsLedger separates (transitioned s row c event_type h found fresh guard) inv =
      write_transition-IsLedger host s row c event_type h inv found fresh
  Step-IsLedger separates (linked s replacement c other row here there) inv =
      linked-IsLedger s replacement c other row here there inv
  Step-IsLedger separates (created s d identity kept unbarred absent fresh) inv =
      write_candidate-IsLedger host s d identity inv unbarred absent fresh
  Step-IsLedger separates (forgotten s row c h found unused) inv =
      write_forget-IsLedger host s row c h inv found unused
  Step-IsLedger separates (revoked s source) inv = revoked-IsLedger s _ inv
  Step-IsLedger separates (erased s row identity event_id h now found unused) inv =
      write_erase-IsLedger s row identity event_id h now separates inv unused

  -- Whatever the operations do to a ledger that meets the invariant, it meets the invariant still.
  pub Steps-IsLedger :
      {s t : Ledger F} → Separates host → Steps host s t → IsLedger host s → IsLedger host t
  Steps-IsLedger separates (stay s) inv = inv
  Steps-IsLedger separates (next step steps) inv =
      Steps-IsLedger separates steps (Step-IsLedger separates step inv)
