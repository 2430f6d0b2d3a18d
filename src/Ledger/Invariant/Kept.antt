-- ===== src/Ledger/Invariant/Kept.antt =====
-- The invariant and the single writes of the ledger.
use mathlib.Core.Path.{subst}
use protoprompt.Prelude.{
  ℕ, ◌+◌, ◌≡◌, refl, sym, ap, ◌∙◌, inl, inr, true, none, some, Text, text_eq, text_eqb_iff, ◌==◌,
  arith, some_inj, Bool-cases,
}
use protoprompt.Dict
use protoprompt.Dict.Keys.{append-Unique}
use protoprompt.Dict.Rows.{get-update-none, get-update_inv, get-update_gone, update-Unique}
use protoprompt.Ledger.{
  MemoryTrust, MemoryEventType, on_observed, on_asserted, on_confirmed, on_superseded, on_retracted,
  on_forgotten, on_expired, on_quarantined, MemoryRow, Ledger, Host,
}
use protoprompt.Ledger.Validate.{Checked}
use protoprompt.Ledger.Load.{is_active, is_confirmed}
use protoprompt.Ledger.Transition.{event_of, write_transition}
use protoprompt.Ledger.Lifecycle.{next_trust, next_row}
use protoprompt.Ledger.Create.{is_tombstoned}
use protoprompt.Ledger.Steps.{target_of}
use protoprompt.Ledger.Invariant.{count_events, IsRow, IsLedger}
use protoprompt.Ledger.Invariant.Counts.{count_events-append}

pub next_trust-confirmed :
    (event_type : MemoryEventType) (trust : MemoryTrust)
    → is_active (target_of event_type) ≡ true
    → is_confirmed (next_trust event_type trust) ≡ true
next_trust-confirmed on_confirmed trust h = refl
next_trust-confirmed on_observed trust h = cc
next_trust-confirmed on_asserted trust h = cc
next_trust-confirmed on_superseded trust h = cc
next_trust-confirmed on_retracted trust h = cc
next_trust-confirmed on_forgotten trust h = cc
next_trust-confirmed on_expired trust h = cc
next_trust-confirmed on_quarantined trust h = cc

module _ {F : Type 0} where
  next_row-IsRow :
      (row : MemoryRow F) (c : Checked) (event_type : MemoryEventType) (n : ℕ)
      → IsRow row n
      → IsRow (next_row row c event_type (target_of event_type)) (n + 1)
  unfolding next_row
  next_row-IsRow row c event_type n ok = record {
    confirmed = next_trust-confirmed event_type row.trust;
    versioned = omega (arith, ok.versioned);
    sequenced = omega (arith, ok.versioned);
    positive = omega arith;
  }

  pub IsRow-along : {r r' : MemoryRow F} {m n : ℕ} → r' ≡ r → n ≡ m → IsRow r m → IsRow r' n
  IsRow-along {r = r} {n = n} e k ok =
      subst (λ x. IsRow x n) (sym e) (subst (λ x. IsRow r x) (sym k) ok)

module _ {F : Type 0} (host : Host F) where
  write_transition-rows :
      (s : Ledger F) (row : MemoryRow F) (c : Checked) (event_type : MemoryEventType) (h : Text)
      → IsLedger host s
      → Dict.get c.record_id s.records ≡ some row
      → (i : Text) (row' : MemoryRow F)
      → Dict.get i (write_transition s row c event_type (target_of event_type) h).records
        ≡ some row'
      → IsRow row'
          (count_events i (write_transition s row c event_type (target_of event_type) h).events)
  unfolding write_transition
  write_transition-rows s row c event_type h inv found i row' e =
      let (w, there, value) = get-update_inv _ i row' s.records e in
      let counted = count_events-append i c.event_id (event_of row c event_type h) s.events in
      elim (Bool-cases (i == c.record_id)) [
        | inl same ↦
            let here : i ≡ c.record_id = (text_eqb_iff i c.record_id).0 same in
            let row≡ : w ≡ row =
              some_inj (sym there ∙ ap (λ k. Dict.get k s.records) here ∙ found) in
            IsRow-along (value ∙ rw same refl) (ground (arith, counted, text_eqb_iff c.record_id i))
              (next_row-IsRow row c event_type (count_events i s.events)
                (IsRow-along (sym row≡) refl (inv.rows i w there)))
        | inr other ↦
            IsRow-along (value ∙ rw other refl)
              (ground (arith, counted, text_eqb_iff c.record_id i, text_eqb_iff i c.record_id))
              (inv.rows i w there)
      ]

  pub write_transition-IsLedger :
      (s : Ledger F) (row : MemoryRow F) (c : Checked) (event_type : MemoryEventType) (h : Text)
      → IsLedger host s
      → Dict.get c.record_id s.records ≡ some row
      → Dict.get c.event_id s.events ≡ none
      → IsLedger host (write_transition s row c event_type (target_of event_type) h)
  unfolding write_transition is_tombstoned
  write_transition-IsLedger s row c event_type h inv found fresh = record {
    records_once = update-Unique _ s.records inv.records_once;
    payloads_once = inv.payloads_once;
    origins_once = inv.origins_once;
    events_once = append-Unique c.event_id _ s.events inv.events_once fresh;
    receipts_once = inv.receipts_once;
    hard_once = inv.hard_once;
    rows = unfold write_transition in write_transition-rows s row c event_type h inv found;
    gone = λ i e.
        let absent = get-update_gone _ i s.records e in
        let g = inv.gone i absent in
        (
          ground (
            arith,
            count_events-append i c.event_id (event_of row c event_type h) s.events,
            g.0,
            text_eqb_iff c.record_id i,
            found,
            absent,
          ),
          g.1,
          g.2,
        );
    unsourced = λ i e. inv.unsourced i (get-update_gone _ i s.records e);
    unrelated = λ i e. inv.unrelated i (get-update_gone _ i s.records e);
    labelled = inv.labelled;
    barred = λ i b. get-update-none _ i s.records (inv.barred i b);
  }
