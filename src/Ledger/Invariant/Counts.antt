-- ===== src/Ledger/Invariant/Counts.antt =====
-- How the writes change the number of events of a record, and the rows that name it.
use protoprompt.Prelude.{
  ◌+◌, ◌≡◌, refl, Bool, false, List, any_of, select, Bool-cases, inl, inr, not, [], ◌∷◌, ◌++◌, Text,
  text_eq, text_eqb_iff, ◌==◌, if◌then◌else◌, arith,
}
use protoprompt.Dict
use protoprompt.Dict.{Dict}
use protoprompt.Ledger.{MemoryEvent}
use protoprompt.Ledger.Erase.{redact_event}
use protoprompt.Ledger.Invariant.{count_events}

pub count_events-append :
    (i k : Text) (e : MemoryEvent) (d : Dict Text MemoryEvent)
    → count_events i (d ++ (k, e) ∷ []) ≡ count_events i d + (if e.record_id == i then 1 else 0)
unfolding count_events
count_events-append i k e [] = omega arith
count_events-append i k e ((j, f) ∷ d) = omega (arith, count_events-append i k e d)

pub redact_event-record :
    (digest i : Text) (e : MemoryEvent) → (redact_event digest i e).record_id ≡ e.record_id
unfolding redact_event
redact_event-record digest i e = ground arith

-- After the removal of a record's events it has none, and every other record keeps its own.
pub count_events-erased :
    (digest i j : Text) (d : Dict Text MemoryEvent)
    → count_events j
        (Dict.keep (λ k e. not (e.record_id == i)) (Dict.update (λ k. redact_event digest i) d))
      ≡ (if i == j then 0 else count_events j d)
unfolding count_events Dict.keep Dict.update
count_events-erased digest i j [] = ground arith
count_events-erased digest i j ((k, e) ∷ d) = ground (
  arith,
  count_events-erased digest i j d,
  redact_event-record digest i e,
  text_eqb_iff e.record_id i,
  text_eqb_iff e.record_id j,
  text_eqb_iff i j,
  text_eqb_iff (redact_event digest i e).record_id i,
)

-- Whether a row has a property, after an INSERT and after a DELETE
module _ {A : Type 0} (p : A → Bool) where
  pub none-append :
      (xs : List A) (x : A) → any_of p xs ≡ false → p x ≡ false → any_of p (xs ++ x ∷ []) ≡ false
  none-append [] x h k = rw k refl
  none-append (y ∷ xs) x h k =
      let rest = none-append xs x (ground (arith, h)) k in ground (arith, h, rest)

  pub none-select :
      (q : A → Bool) (xs : List A) → any_of p xs ≡ false → any_of p (select q xs) ≡ false
  none-select q [] h = refl
  none-select q (x ∷ xs) h =
      let rest = none-select q xs (ground (arith, h)) in
      elim (Bool-cases (q x)) [
        | inl kept ↦ rw kept (ground (arith, h, rest))
        | inr dropped ↦ rw dropped rest
      ]

  pub none-delete :
      (q : A → Bool) (xs : List A)
      → ((x : A) → p x ≡ q x)
      → any_of p (select (λ x. not (q x)) xs) ≡ false
  none-delete q [] same = refl
  none-delete q (x ∷ xs) same =
      let rest = none-delete q xs same in
      elim (Bool-cases (q x)) [
        | inl named ↦ rw named rest
        | inr other ↦ rw other (ground (arith, same x, other, rest))
      ]
