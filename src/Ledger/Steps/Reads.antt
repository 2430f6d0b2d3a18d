-- ===== src/Ledger/Steps/Reads.antt =====
-- What the reads of a transaction tell of the tables: which row was loaded, and that it had the
-- expected revision.
use protoprompt.Prelude.{
  ℕ, ◌≡◌, refl, sym, ap, ◌∙◌, true, false, Option, none, some, Text, text_eq, nat_eq, ok, ◌>>◌,
  arith, bind_ok, then_ok, String, ok_inj, some_inj,
}
use protoprompt.Dict
use protoprompt.Ledger.{MemoryOrigin, MemoryRow, Ledger, MemoryRecord}
use protoprompt.Ledger.Load.{
  origin_of, join_record, decode_row, check_record, load_record, record_from_row, check_revision,
}
use protoprompt.Ledger.Transition.{reload, assert_found, require}
use protoprompt.Ledger.Create.{is_present}

module _ {F : Type 0} where
  record_from_row-row :
      (s : Ledger F) (identity : Text) (row : MemoryRow F) (r : MemoryRecord F)
      → record_from_row s identity row ≡ ok r
      → row ≡ r.row
  unfolding record_from_row
  record_from_row-row s identity row r h =
      let parts : (o : MemoryOrigin) × (origin_of (Dict.get identity s.origins)
              (Dict.get identity s.payloads)
            ≡ ok o)
          × ((check_record row >> ok (join_record s identity row o)) ≡ ok r) =
        bind_ok _ _ r h in
      let (o, e, k) = parts in
      let joined : join_record s identity row o ≡ r = ok_inj (then_ok (check_record row) _ r k).1 in
      ap (λ x. x.row) joined

  loaded-row :
      (s : Ledger F) (identity : Text) (found : Option (MemoryRow F)) (r : MemoryRecord F)
      → decode_row s identity found ≡ ok (some r)
      → found ≡ some r.row
  loaded-row s identity none r h = cc
  loaded-row s identity (some row) r h =
      let (r', e, k) = bind_ok (record_from_row s identity row) _ (some r) h in
      ap some (record_from_row-row s identity row r (e ∙ ap ok (some_inj (ok_inj k))))

  pub load_record-some :
      (s : Ledger F) (identity : Text) (r : MemoryRecord F)
      → load_record s identity ≡ ok (some r)
      → Dict.get identity s.records ≡ some r.row
  unfolding load_record
  load_record-some s identity r h = loaded-row s identity (Dict.get identity s.records) r h

  loaded-absent :
      (s : Ledger F) (identity : Text) (found : Option (MemoryRow F)) (r : Option (MemoryRecord F))
      → decode_row s identity found ≡ ok r
      → is_present r ≡ false
      → found ≡ none
  loaded-absent s identity none r h absent = refl
  loaded-absent s identity (some row) r h absent =
      let (r', e, k) = bind_ok (record_from_row s identity row) _ r h in
      let present : is_present r ≡ true = sym (ap is_present (ok_inj k)) in cc

  pub load_record-absent :
      (s : Ledger F) (identity : Text) (r : Option (MemoryRecord F))
      → load_record s identity ≡ ok r
      → is_present r ≡ false
      → Dict.get identity s.records ≡ none
  unfolding load_record
  load_record-absent s identity r h = loaded-absent s identity (Dict.get identity s.records) r h

  found_again :
      (s s' : Ledger F) (r : MemoryRecord F) (found : Option (MemoryRecord F))
      → assert_found s found ≡ ok (r, s')
      → (s' ≡ s) × (found ≡ some r)
  found_again s s' r none h = cc
  found_again s s' r (some r') h = (ap (λ x. x.1) (sym (ok_inj h)), ap (λ x. some x.0) (ok_inj h))

  pub reload-same :
      (s s' : Ledger F) (identity : Text) (r : MemoryRecord F)
      → reload s identity ≡ ok (r, s')
      → (s' ≡ s) × (load_record s identity ≡ ok (some r))
  unfolding reload
  reload-same s s' identity r h =
      let (found, e, k) = bind_ok (load_record s identity) _ (r, s') h in
      let same = found_again s s' r found k in (same.0, e ∙ ap ok same.1)

  pub require-some :
      (message : String) (found : Option (MemoryRecord F)) (r : MemoryRecord F)
      → require message found ≡ ok r
      → found ≡ some r
  require-some message none r h = cc
  require-some message (some r') r h = ap some (ok_inj h)

  -- A record that a command required is in the table, with the row that was read.
  pub required-row :
      (s : Ledger F) (identity : Text) (message : String) (found : Option (MemoryRecord F))
      (r : MemoryRecord F)
      → load_record s identity ≡ ok found
      → require message found ≡ ok r
      → Dict.get identity s.records ≡ some r.row
  required-row s identity message found r e k =
      load_record-some s identity r (e ∙ ap ok (require-some message found r k))

  pub check_revision-equal :
      (r : MemoryRecord F) (n : ℕ) → check_revision r n ≡ ok tt → r.row.revision ≡ n
  unfolding check_revision
  check_revision-equal r n h = ground (arith, h)
