-- ===== src/Ledger/Trace/Revoked.antt =====
-- Revoked sources (protoprompt/ledger/sqlite.py) under further calls.
use protoprompt.Prelude.{
  ℕ, ◌≡◌, sym, ap, ◌∙◌, true, List, Text, text_eq, ok, err, state_error, raise_if, ◌>>◌, bind_ok,
  ok_inj,
}
use protoprompt.Dict
use protoprompt.Ledger.{Time, Ledger, ErasureReceipt, Host, source_barrier}
use protoprompt.Ledger.Validate.{validate_identifier, validate_reference}
use protoprompt.Ledger.Transition.{write_transition}
use protoprompt.Ledger.Create.{Draft, create_checked, create_at, is_source_revoked, write_candidate}
use protoprompt.Ledger.Forget.{
  forget_source_request, records_of_source, revoke, write_forget, redact,
}
use protoprompt.Ledger.Erase.{write_erase, erase_rows}
use protoprompt.Ledger.Steps.{
  Step, Steps, stay, next, transitioned, linked, created, forgotten, revoked, erased, Steps-trans,
}
use protoprompt.Ledger.Steps.Removals.{forget_each-Steps}
use protoprompt.Ledger.Trace.{Call, run_calls, run_calls-Steps}
use protoprompt.Ledger.Trace.Final.{insert_ignore_old, insert_ignore_self}

module _ {F : Type 0} (host : Host F) (source : Text) where
  Step-revoked :
      {s t : Ledger F}
      → Step host s t
      → is_source_revoked host s source ≡ true
      → is_source_revoked host t source ≡ true
  unfolding is_source_revoked write_transition write_candidate write_forget redact write_erase
      erase_rows
  Step-revoked (transitioned s row c event_type h found fresh guard) r = r
  Step-revoked (linked s replacement c other row here there) r = r
  Step-revoked (created s d identity kept unbarred absent fresh) r = r
  Step-revoked (forgotten s row c h found unused) r = r
  Step-revoked (revoked s other) r = insert_ignore_old _ _ s.revoked_sources r
  Step-revoked (erased s row identity event_id h now found unused) r = r

  Steps-revoked :
      {s t : Ledger F}
      → Steps host s t
      → is_source_revoked host s source ≡ true
      → is_source_revoked host t source ≡ true
  Steps-revoked (stay s) r = r
  Steps-revoked (next step steps) r = Steps-revoked steps (Step-revoked step r)

  revoke-revoked : (s : Ledger F) → is_source_revoked host (revoke host source s) source ≡ true
  unfolding is_source_revoked
  revoke-revoked s =
      insert_ignore_self (host.command_hash (source_barrier source)) s.revoked_sources

  refused :
      (d : Draft F) (s : Ledger F)
      → d.source_ref ≡ source
      → is_source_revoked host s source ≡ true
      → create_checked host d s
        ≡ err (state_error "source_ref was revoked in this scope and cannot be ingested")
  unfolding create_checked
  refused d s same r =
      let here : is_source_revoked host s d.source_ref ≡ true =
        ap (is_source_revoked host s) same ∙ r in
      ap
        (λ b.
          raise_if b (state_error "source_ref was revoked in this scope and cannot be ingested")
          >> create_at host d s (Dict.get d.event_id s.events))
        here

module _ {F : Type 0} (host : Host F) where
  -- When `forget_by_source` returns, then after any further calls of `Call` no candidate is created from the
  -- source: the creation raises, whatever else it says.
  pub forget_source_request-permanent :
      (calls : List (Call F)) (source_ref source reason actor : Text) (now : Time)
      (fresh : ℕ → Text) (s s' : Ledger F) (receipts : List ErasureReceipt) (d : Draft F)
      → validate_reference source_ref ≡ ok source
      → forget_source_request host source_ref reason actor now fresh s ≡ ok (receipts, s')
      → d.source_ref ≡ source
      → create_checked host d (run_calls host calls s')
        ≡ err (state_error "source_ref was revoked in this scope and cannot be ingested")
  unfolding forget_source_request
  forget_source_request-permanent calls source_ref source reason actor now fresh s s' receipts d v e
        same =
      let (i, e1, k1) = bind_ok (validate_reference source_ref) _ (receipts, s') e in
      let (j, e2, k2) = bind_ok (validate_identifier reason) _ (receipts, s') k1 in
      let (a, e3, k3) = bind_ok (validate_identifier actor) _ (receipts, s') k2 in
      let valid : source ≡ i = ok_inj (sym v ∙ e1) in
      let steps =
        Steps-trans host
          (forget_each-Steps host j a now fresh (records_of_source i s.sources) (revoke host i s) s'
            receipts k3)
          (run_calls-Steps host calls s') in
      refused host i d (run_calls host calls s') (same ∙ valid)
        (Steps-revoked host i steps (revoke-revoked host i s))
