-- ===== src/Ledger/Trace/Final.antt =====
-- What a step of the ledger does to one record.
use mathlib.Core.Path.{subst}
use protoprompt.Prelude.{
  ◌+◌, ◌≡◌, ◌⊎◌, refl, sym, ap, ◌∙◌, inl, inr, true, Option, none, some, List, [], ◌∷◌, ◌++◌, Text,
  text_eq, text_eqb_iff, ◌==◌, if◌then◌else◌, arith, Bool-cases, any_of, some_inj,
}
use protoprompt.Dict
use protoprompt.Dict.{Dict}
use protoprompt.Dict.Laws.{get-remove}
use protoprompt.Dict.Rows.{get-update-some, get-update-none, get-insert_old, get-insert_other}
use protoprompt.Ledger.{MemoryEventType, MemoryRow, Payload, Ledger, Host, record_barrier}
use protoprompt.Ledger.Validate.{Checked}
use protoprompt.Ledger.Transition.{write_transition}
use protoprompt.Ledger.Lifecycle.{allowed, next_row}
use protoprompt.Ledger.Create.{write_candidate, is_tombstoned}
use protoprompt.Ledger.Forget.{redact_row, redact, write_forget, insert_ignore}
use protoprompt.Ledger.Erase.{write_erase, erase_rows, clear_pointing}
use protoprompt.Ledger.Steps.{
  Step, Steps, stay, next, transitioned, linked, created, forgotten, revoked, erased, target_of,
}

pub any_of-append :
    (j k : Text) (keys : List Text)
    → any_of (λ x. x == j) keys ≡ true
    → any_of (λ x. x == j) (keys ++ k ∷ []) ≡ true
any_of-append j k [] h = cc
any_of-append j k (i ∷ keys) h = ground (arith, any_of-append j k keys)

any_of-append_self : (k : Text) (keys : List Text) → any_of (λ x. x == k) (keys ++ k ∷ []) ≡ true
any_of-append_self k [] = ground (arith, text_eqb_iff k k)
any_of-append_self k (i ∷ keys) = ground (arith, any_of-append_self k keys)

pub insert_ignore_old :
    (j k : Text) (keys : List Text)
    → any_of (λ x. x == j) keys ≡ true
    → any_of (λ x. x == j) (insert_ignore k keys) ≡ true
unfolding insert_ignore
insert_ignore_old j k keys h = elim (Bool-cases (any_of (λ x. x == k) keys)) [
  | inl old ↦ rw old h
  | inr new ↦ rw new (any_of-append j k keys h)
]

pub insert_ignore_self :
    (k : Text) (keys : List Text) → any_of (λ x. x == k) (insert_ignore k keys) ≡ true
unfolding insert_ignore
insert_ignore_self k keys = elim (Bool-cases (any_of (λ x. x == k) keys)) [
  | inl old ↦ rw old old
  | inr new ↦ rw new (any_of-append_self k keys)
]

module _ {F : Type 0} where
  -- A row with the same state and revision, or after one event that its state allows
  abbrev pub Moves : MemoryRow F → MemoryRow F → Type 0
  Moves row row' =
      ((row'.state ≡ row.state) × (row'.revision ≡ row.revision))
      ⊎ ((event_type : MemoryEventType) × (allowed event_type row.state ≡ true)
          × (row'.state ≡ target_of event_type)
          × (row'.revision ≡ row.revision + 1))

  next_row-Moves :
      (i k : Text) (row w : MemoryRow F) (c : Checked) (event_type : MemoryEventType)
      → allowed event_type row.state ≡ true
      → (i ≡ k → w ≡ row)
      → Moves w (if i == k then next_row row c event_type (target_of event_type) else w)
  unfolding next_row
  next_row-Moves i k row w c event_type guard same = elim (Bool-cases (i == k)) [
    | inl here ↦
        let e : w ≡ row = same ((text_eqb_iff i k).0 here) in
        rw here (
          inr (
            event_type,
            subst (λ r. allowed event_type r.state ≡ true) (sym e) guard,
            refl,
            ap (λ r. r.revision + 1) (sym e),
          ))
    | inr other ↦ rw other (inl (refl, refl))
  ]

  redact_row-Moves : (i k : Text) (row : MemoryRow F) → Moves row (redact_row i k row)
  unfolding redact_row
  redact_row-Moves i k row = inl (ground arith, ground arith)

  clear_pointing-Moves : (i : Text) (row : MemoryRow F) → Moves row (clear_pointing i row)
  clear_pointing-Moves i row = inl (ground arith, ground arith)

module _ {F : Type 0} (host : Host F) (i : Text) where
  -- Behind its barrier
  abbrev pub Barred : Ledger F → Type 0
  Barred s = (is_tombstoned host s i ≡ true) × (Dict.get i s.records ≡ none)

  -- The record stands and has a property, or it was erased.
  abbrev pub Holds : (MemoryRow F → Option Payload → Type 0) → Ledger F → Type 0
  Holds P s =
      Barred s
      ⊎ ((row : MemoryRow F) × (Dict.get i s.records ≡ some row) × P row (Dict.get i s.payloads))

  pub Step-Barred : {s t : Ledger F} → Step host s t → Barred s → Barred t
  unfolding is_tombstoned write_transition write_candidate write_forget redact write_erase
      erase_rows
  Step-Barred (transitioned s row c event_type h found fresh guard) (b, g) =
      (b, get-update-none _ i s.records g)
  Step-Barred (linked s replacement c other row here there') (b, g) = (b, g)
  Step-Barred (created s d identity kept unbarred absent fresh) (b, g) = (
    b,
    get-insert_other i identity _ s.records (λ same.
          let still : is_tombstoned host s identity ≡ true =
            subst (λ k. is_tombstoned host s k ≡ true) (sym same) b in
          cc)
        ∙ g,
  )
  Step-Barred (forgotten s row c h found unused) (b, g) = (b, get-update-none _ i s.records g)
  Step-Barred (revoked s source) (b, g) = (b, g)
  Step-Barred (erased s row identity event_id h now found unused) (b, g) = (
    insert_ignore_old _ _ s.tombstones b,
    ground (
      arith,
      get-remove identity i (Dict.update (λ k. clear_pointing identity) s.records),
      get-update-none (λ k. clear_pointing identity) i s.records g,
    ),
  )

  -- An erased record stays erased.
  pub Steps-Barred : {s t : Ledger F} → Steps host s t → Barred s → Barred t
  Steps-Barred (stay s) barred = barred
  Steps-Barred (next step steps) barred = Steps-Barred steps (Step-Barred step barred)

  module _ (P : MemoryRow F → Option Payload → Type 0)
      (moves : (row row' : MemoryRow F) (p : Option Payload) → Moves row row' → P row p → P row' p)
      (loses : (row : MemoryRow F) (p : Option Payload) → P row p → P row none) where
    unless_removed :
        (k : Text) (w : MemoryRow F) (payloads : Dict Text Payload)
        → P w (Dict.get i payloads)
        → P w (Dict.get i (Dict.remove k payloads))
    unless_removed k w payloads p = elim (Bool-cases (k == i)) [
      | inl same ↦ subst (P w) (sym (get-remove k i payloads ∙ (rw same refl))) (loses w _ p)
      | inr other ↦ subst (P w) (sym (get-remove k i payloads ∙ (rw other refl))) p
    ]

    Step-row :
        {s t : Ledger F} (w : MemoryRow F)
        → Step host s t
        → Dict.get i s.records ≡ some w
        → P w (Dict.get i s.payloads)
        → Holds P t
    unfolding is_tombstoned write_transition write_candidate write_forget redact write_erase
        erase_rows
    Step-row w (transitioned s row c event_type h found fresh guard) there p = inr (
      _,
      get-update-some _ i w s.records there,
      moves w _ _
          (next_row-Moves i c.record_id row w c event_type guard
            (λ e. some_inj (sym there ∙ ap (λ k. Dict.get k s.records) e ∙ found)))
          p,
    )
    Step-row w (linked s replacement c other row here there') there p = inr (w, there, p)
    Step-row w (created s d identity kept unbarred absent fresh) there p = inr (
      w,
      get-insert_old i identity _ w s.records there,
      subst (P w)
          (sym (
            get-insert_other i identity _ s.payloads λ same.
              let missing : Dict.get i s.records ≡ none =
                subst (λ k. Dict.get k s.records ≡ none) same absent in
              cc))
          p,
    )
    Step-row w (forgotten s row c h found unused) there p = inr (
      _,
      get-update-some _ i w s.records there,
      moves w _ _ (redact_row-Moves c.record_id i w) (unless_removed c.record_id w s.payloads p),
    )
    Step-row w (revoked s source) there p = inr (w, there, p)
    Step-row w (erased s row identity event_id h now found unused) there p =
        let removed =
          get-remove identity i (Dict.update (λ k. clear_pointing identity) s.records) in
        let updated = get-update-some (λ k. clear_pointing identity) i w s.records there in
        elim (Bool-cases (identity == i)) [
          | inl same ↦ inl (
            subst
                (λ k.
                  any_of (λ x. x == host.command_hash (record_barrier k))
                    (insert_ignore (host.command_hash (record_barrier identity)) s.tombstones)
                  ≡ true)
                ((text_eqb_iff identity i).0 same)
                (insert_ignore_self (host.command_hash (record_barrier identity)) s.tombstones),
            ground (arith, same, removed),
          )
          | inr other ↦ inr (
            clear_pointing identity w,
            ground (arith, other, removed, updated),
            moves w _ _ (clear_pointing-Moves identity w) (unless_removed identity w s.payloads p),
          )
        ]

    Step-Holds : {s t : Ledger F} → Step host s t → Holds P s → Holds P t
    Step-Holds step (inl barred) = inl (Step-Barred step barred)
    Step-Holds step (inr (w, there, p)) = Step-row w step there p

    -- A property of a row that no event of its state ends stays, unless the record is erased.
    pub Steps-Holds : {s t : Ledger F} → Steps host s t → Holds P s → Holds P t
    Steps-Holds (stay s) held = held
    Steps-Holds (next step steps) held = Steps-Holds steps (Step-Holds step held)
