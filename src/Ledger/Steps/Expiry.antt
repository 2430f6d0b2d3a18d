-- ===== src/Ledger/Steps/Expiry.antt =====
-- The steps of the sweep of the due records.
use protoprompt.Prelude.{
  ℕ, inl, inr, false, none, List, [], ◌∷◌, Text, text_eq, Result, ok, err, Bool-cases, length,
}
use protoprompt.Ledger.{Time, on_expired, Ledger, MemoryRecord, Host}
use protoprompt.Ledger.Transition.{expire}
use protoprompt.Ledger.Active.{
  due_request, expire_due, expire_each, due_rows, collect, is_passed_over,
}
use protoprompt.Ledger.Steps.{Steps, stay, Steps-trans}
use protoprompt.Ledger.Steps.Commands.{transition-Steps}

module _ {F : Type 0} (host : Host F) where
  collect-Steps :
      (r : Result (MemoryRecord F)) (rest : Result (List (MemoryRecord F)) × Ledger F)
      (s after : Ledger F)
      → Steps host s after
      → Steps host after rest.1
      → Steps host s (collect r rest after).1
  unfolding collect
  collect-Steps (ok r) rest s after first later = Steps-trans host first later
  collect-Steps (err e) rest s after first later = elim (Bool-cases (is_passed_over e)) [
    | inl passed ↦ rw passed (Steps-trans host first later)
    | inr raised ↦ rw raised first
  ]

  expire_each-Steps :
      (actor : Text) (now : Time) (fresh : ℕ → Text) (rows : List (Text × ℕ)) (s : Ledger F)
      → Steps host s (expire_each host actor now fresh rows s).1
  unfolding expire_each expire
  expire_each-Steps actor now fresh [] s = stay s
  expire_each-Steps actor now fresh ((identity, revision) ∷ rows) s =
      let request = due_request actor now (fresh (length rows)) identity revision in
      let (r, after) = expire host request s in
      collect-Steps r (expire_each host actor now fresh rows after) s after
        (transition-Steps host on_expired false none request s)
        (expire_each-Steps actor now fresh rows after)

  pub expire_due-Steps :
      (actor : Text) (now : Time) (fresh : ℕ → Text) (s : Ledger F)
      → Steps host s (expire_due host actor now fresh s).1
  unfolding expire_due
  expire_due-Steps actor now fresh s = expire_each-Steps actor now fresh (due_rows now s) s
