-- ===== src/Ledger/Invariant/Removed.antt =====
-- The invariant and the creation of a record, its forgetting and its erasure.
use mathlib.Core.Path.{subst}
use protoprompt.Prelude.{
  ℕ, ◌≡◌, refl, sym, ap, ◌∙◌, inl, inr, true, false, none, some, [], ◌∷◌, ◌++◌, Text, text_eq,
  text_eqb_iff, arith, ◌==◌, ◌||◌, not, Option-cases,
}
use protoprompt.Dict
use protoprompt.Dict.{Dict}
use protoprompt.Dict.Laws.{get-remove}
use protoprompt.Dict.Keys.{append-Unique, remove-Unique}
use protoprompt.Dict.Rows.{
  get-update-none, get-update_inv, get-update_gone, update-Unique, get-insert_inv, get-insert_gone,
  get-insert_other, get-insert_old, get-insert_self,
}
use protoprompt.Ledger.{MemoryOrigin, MemoryRow, Payload, Ledger, Host}
use protoprompt.Ledger.Validate.{Checked}
use protoprompt.Ledger.Create.{
  Draft, draft_event, draft_row, write_candidate, is_tombstoned, is_present,
}
use protoprompt.Ledger.Forget.{redact_row, redact, touches, write_forget}
use protoprompt.Ledger.Invariant.{count_events, IsRow, IsLedger}
use protoprompt.Ledger.Invariant.Counts.{count_events-append, none-append, none-select}
use protoprompt.Ledger.Invariant.Kept.{IsRow-along}

present-insert :
    (d : Dict Text MemoryOrigin) (i j : Text) (o : MemoryOrigin)
    → is_present (Dict.get i d) ≡ true
    → is_present (Dict.get i (d ++ (j, o) ∷ [])) ≡ true
present-insert d i j o h = elim (Option-cases (Dict.get i d)) [
  | inl absent ↦ ground (arith, absent)
  | inr (v, found) ↦ ap is_present (get-insert_old i j o v d found)
]

module _ {F : Type 0} (host : Host F) where
  write_candidate-rows :
      (s : Ledger F) (d : Draft F) (identity : Text)
      → IsLedger host s
      → Dict.get identity s.records ≡ none
      → (i : Text) (row : MemoryRow F)
      → Dict.get i (s.records ++ (identity, draft_row host d) ∷ []) ≡ some row
      → IsRow row (count_events i (s.events ++ (d.event_id, draft_event host d identity) ∷ []))
  write_candidate-rows s d identity inv fresh i row e =
      let counted = count_events-append i d.event_id (draft_event host d identity) s.events in
      elim (get-insert_inv i identity (draft_row host d) row s.records e) [
        | inl old ↦
            IsRow-along refl (ground (arith, counted, text_eqb_iff identity i, old, fresh))
              (inv.rows i row old)
        | inr (absent, same, value) ↦
            IsRow-along value
              (ground (arith, counted, text_eqb_iff identity i, (inv.gone i absent).0, same))
              (record {
                confirmed = λ a. cc;
                versioned = refl;
                sequenced = refl;
                positive = omega arith;
              })
      ]

  write_candidate-gone :
      (s : Ledger F) (d : Draft F) (identity : Text)
      → IsLedger host s
      → (i : Text) → Dict.get i (write_candidate host s d identity).records ≡ none
      → (count_events i (write_candidate host s d identity).events ≡ 0)
        × (Dict.get i (write_candidate host s d identity).payloads ≡ none)
        × (Dict.get i (write_candidate host s d identity).origins ≡ none)
  unfolding write_candidate
  write_candidate-gone s d identity inv i e =
      let counted = count_events-append i d.event_id (draft_event host d identity) s.events in
      let (absent, other) = get-insert_gone i identity (draft_row host d) s.records e in
      let (none_left, payload, origin) = inv.gone i absent in
      (
        ground (arith, counted, text_eqb_iff identity i, none_left),
        get-insert_other i identity _ s.payloads other ∙ payload,
        get-insert_other i identity _ s.origins other ∙ origin,
      )

  write_candidate-labelled :
      (s : Ledger F) (d : Draft F) (identity : Text)
      → IsLedger host s
      → Dict.get identity s.records ≡ none
      → (i : Text) (p : Payload) → Dict.get i (write_candidate host s d identity).payloads ≡ some p
      → is_present (Dict.get i (write_candidate host s d identity).origins) ≡ true
  unfolding write_candidate
  write_candidate-labelled s d identity inv fresh i p e =
      elim (get-insert_inv i identity _ p s.payloads e) [
        | inl old ↦ present-insert s.origins i identity d.origin (inv.labelled i p old)
        | inr (absent, same, value) ↦
            subst (λ k. is_present (Dict.get k (s.origins ++ (identity, d.origin) ∷ [])) ≡ true)
              same
              (ap is_present
                (get-insert_self identity d.origin s.origins (inv.gone identity fresh).2))
      ]

  pub write_candidate-IsLedger :
      (s : Ledger F) (d : Draft F) (identity : Text)
      → IsLedger host s
      → is_tombstoned host s identity ≡ false
      → Dict.get identity s.records ≡ none
      → Dict.get d.event_id s.events ≡ none
      → IsLedger host (write_candidate host s d identity)
  unfolding write_candidate is_tombstoned
  write_candidate-IsLedger s d identity inv unbarred fresh new =
      let g = inv.gone identity fresh in
      record {
        records_once = append-Unique identity _ s.records inv.records_once fresh;
        payloads_once = append-Unique identity _ s.payloads inv.payloads_once g.1;
        origins_once = append-Unique identity _ s.origins inv.origins_once g.2;
        events_once = append-Unique d.event_id _ s.events inv.events_once new;
        receipts_once = inv.receipts_once;
        hard_once = inv.hard_once;
        rows = write_candidate-rows s d identity inv fresh;
        gone = unfold write_candidate in write_candidate-gone s d identity inv;
        unsourced = λ i e.
            let (absent, other) = get-insert_gone i identity (draft_row host d) s.records e in
            none-append (λ r. r.record_id == i) s.sources _ (inv.unsourced i absent)
              (ground (arith, text_eqb_iff identity i, text_eqb_iff i identity, other));
        unrelated = λ i e.
            let (absent, other) = get-insert_gone i identity (draft_row host d) s.records e in
            inv.unrelated i absent;
        labelled = unfold write_candidate in write_candidate-labelled s d identity inv fresh;
        barred = λ i b.
            get-insert_other i identity _ s.records (λ same.
              let still : is_tombstoned host s identity ≡ true =
                subst (λ k. is_tombstoned host s k ≡ true) (sym same) b in
              cc)
            ∙ inv.barred i b;
      }

  -- A row after the redaction of another, or of itself, is in the same state with the same revision.
  redact_row-IsRow :
      (i k : Text) (row : MemoryRow F) (n : ℕ) → IsRow row n → IsRow (redact_row i k row) n
  unfolding redact_row
  redact_row-IsRow i k row n ok = record {
    confirmed = ground (arith, ok.confirmed);
    versioned = ground (arith, ok.versioned);
    sequenced = ground (arith, ok.sequenced);
    positive = ok.positive;
  }

  pub write_forget-IsLedger :
      (s : Ledger F) (row : MemoryRow F) (c : Checked) (h : Text)
      → IsLedger host s
      → Dict.get c.record_id s.records ≡ some row
      → Dict.get c.event_id s.erasure_receipts ≡ none
      → IsLedger host (write_forget s c h).1
  unfolding write_forget redact is_tombstoned
  write_forget-IsLedger s row c h inv found unused = record {
    records_once = update-Unique _ s.records inv.records_once;
    payloads_once = remove-Unique c.record_id s.payloads inv.payloads_once;
    origins_once = inv.origins_once;
    events_once = inv.events_once;
    receipts_once = append-Unique c.event_id _ s.erasure_receipts inv.receipts_once unused;
    hard_once = inv.hard_once;
    rows = λ i row' e.
        let (w, there, value) = get-update_inv _ i row' s.records e in
        IsRow-along value refl (redact_row-IsRow c.record_id i w _ (inv.rows i w there));
    gone = λ i e.
        let (none_left, payload, origin) = inv.gone i (get-update_gone _ i s.records e) in
        (none_left, ground (arith, payload, get-remove c.record_id i s.payloads), origin);
    unsourced = λ i e.
        none-select (λ r. r.record_id == i) (λ r. not (r.record_id == c.record_id)) s.sources
          (inv.unsourced i (get-update_gone _ i s.records e));
    unrelated = λ i e.
        none-select (λ r. r.from_record_id == i || r.to_record_id == i)
          (λ r. not (touches c.record_id r)) s.relations
          (inv.unrelated i (get-update_gone _ i s.records e));
    labelled = λ i p e. inv.labelled i p (ground (arith, e, get-remove c.record_id i s.payloads));
    barred = λ i b. get-update-none _ i s.records (inv.barred i b);
  }
