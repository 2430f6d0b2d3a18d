-- ===== src/Ledger/Policy/Packing/Fits.antt =====
-- The budgets of a recall plan (protoprompt/ledger/recall/planner.py).
use protoprompt.Prelude.{
  ℕ, ◌≡◌, ◌≤◌, ◌⊎◌, inl, inr, refl, sym, ap, ◌∙◌, Bool, true, false, Option, none, some, List, [],
  ◌∷◌, ◌++◌, map, Text, nat_eqb_iff, ltb, ltb-false→le, if◌then◌else◌, ok, raise_if, arith, bind_ok,
  then_ok, if_ok, raise_if_ok, ok_inj, some_inj, Option-cases, Bool-cases,
}
use mathlib.Core.Path.{subst}
use mathlib.Core.List.{map-append}
use protoprompt.Ledger.{MemoryRecord}
use protoprompt.Ledger.Policy.Recall.{LedgerRecallDecision}
use protoprompt.Ledger.Policy.Packing.{
  Printer, Packing, ScoredCandidate, render_data, utf8_size, utf8_or_raise, prospective, place,
  place_found, pack, reconcile, pack_plan, selection_of, check_envelope, unpacked, whole,
}

utf8_or_raise-some : (text : Text) (n : ℕ) → utf8_or_raise text ≡ ok n → utf8_size text ≡ some n
unfolding utf8_or_raise
utf8_or_raise-some text n h = elim (Option-cases (utf8_size text)) [
  | inl absent ↦ ground (arith, h, absent)
  | inr (m, found) ↦ ground (arith, h, found)
]

check_envelope-fits :
    (printer : Printer) (text : Text) (max_tokens max_bytes n : ℕ)
    → check_envelope printer text max_tokens max_bytes ≡ ok n
    → (utf8_size text ≡ some n) × (printer.count text ≤ max_tokens) × (n ≤ max_bytes)
unfolding check_envelope
check_envelope-fits printer text max_tokens max_bytes n h =
    let (bytes, e1, k1) = bind_ok (utf8_or_raise text) _ n h in
    let (e2, k2) = then_ok (raise_if (ltb max_tokens (printer.count text)) _) _ n k1 in
    let (e3, k3) = then_ok (raise_if (ltb max_bytes bytes) _) _ n k2 in
    let same : bytes ≡ n = ok_inj k3 in
    (
      utf8_or_raise-some text bytes e1 ∙ ap some same,
      ltb-false→le max_tokens (printer.count text) (raise_if_ok _ _ e2),
      subst (λ m. m ≤ max_bytes) same (ltb-false→le max_bytes bytes (raise_if_ok _ _ e3)),
    )

whole-some :
    (printer : Printer) (text : Text) (found : Option ℕ) (tokens bytes : ℕ)
    → whole printer text found ≡ some (tokens, bytes)
    → (printer.count text ≡ tokens) × (found ≡ some bytes)
whole-some printer text none tokens bytes h = cc
whole-some printer text (some n) tokens bytes h =
    (ap (λ x. x.0) (some_inj h), ap (λ x. some x.1) (some_inj h))

if-holds :
    {A : Type 0} (P : A → Type 0) (b : Bool) (x y : A)
    → (b ≡ true → P x)
    → (b ≡ false → P y)
    → P (if b then x else y)
if-holds P true x y f g = f refl
if-holds P false x y f g = g refl

module _ {F : Type 0} (printer : Printer) where
  -- What is used is what the text of the chosen records takes.
  IsMeasured : Packing F → Type 0
  unfolding render_data utf8_size
  IsMeasured p =
      (printer.count (render_data printer p.chosen) ≡ p.used_tokens)
      × (utf8_size (render_data printer p.chosen) ≡ some p.used_bytes)

  prospective-whole :
      (p : Packing F) (r : MemoryRecord F) (tokens bytes : ℕ)
      → printer.is_regex ≡ false
      → prospective printer p r ≡ some (tokens, bytes)
      → (printer.count (render_data printer (p.chosen ++ r ∷ [])) ≡ tokens)
        × (utf8_size (render_data printer (p.chosen ++ r ∷ [])) ≡ some bytes)
  unfolding prospective
  prospective-whole p r tokens bytes general h =
      whole-some printer (render_data printer (p.chosen ++ r ∷ [])) _ tokens bytes
        (sym (rw general refl) ∙ h)

  module _ (max_tokens max_bytes : ℕ) where
    IsPacked : Packing F → Type 0
    IsPacked p =
        (p.used_tokens ≤ max_tokens)
        × (p.used_bytes ≤ max_bytes)
        × (p.selections ≡ map selection_of p.chosen)
        × ((printer.is_regex ≡ true) ⊎ IsMeasured p)

    place-IsPacked :
        (p q : Packing F) (c : ScoredCandidate F) (tokens bytes : ℕ)
        → prospective printer p c.entry ≡ some (tokens, bytes)
        → IsPacked p
        → place printer max_tokens max_bytes p c tokens bytes ≡ ok q
        → IsPacked q
    unfolding place IsPacked IsMeasured
    place-IsPacked p q c tokens bytes measured packed h =
        let (e, k) = then_ok (raise_if (ltb bytes p.used_bytes) _) _ q h in
        subst IsPacked (ok_inj k) (
          if-holds IsPacked (ltb max_tokens tokens) _ _ (λ large. packed)
            λ fits.
              if-holds IsPacked (ltb max_bytes bytes) _ _ (λ large. packed)
                λ fits'. (
                  ltb-false→le max_tokens tokens fits,
                  ltb-false→le max_bytes bytes fits',
                  ap (λ s. s ++ selection_of c.entry ∷ []) packed.2
                      ∙ sym (map-append selection_of p.chosen (c.entry ∷ [])),
                  elim (Bool-cases printer.is_regex) [
                    | inl incremental ↦ inl incremental
                    | inr general ↦ inr (prospective-whole p c.entry tokens bytes general measured)
                  ],
                ))

    place_found-IsPacked :
        (p q : Packing F) (c : ScoredCandidate F) (found : Option (ℕ × ℕ))
        → prospective printer p c.entry ≡ found
        → IsPacked p
        → place_found printer max_tokens max_bytes p c found ≡ ok q
        → IsPacked q
    unfolding IsPacked IsMeasured
    place_found-IsPacked p q c none e packed h = subst IsPacked (ok_inj h) packed
    place_found-IsPacked p q c (some (tokens, bytes)) e packed h =
        place-IsPacked p q c tokens bytes e packed h

    pack-IsPacked :
        (cs : List (ScoredCandidate F)) (p q : Packing F)
        → IsPacked p
        → pack printer max_tokens max_bytes cs p ≡ ok q
        → IsPacked q
    unfolding pack
    pack-IsPacked [] p q packed h = subst IsPacked (ok_inj h) packed
    pack-IsPacked (c ∷ cs) p q packed h =
        let (t, e, k) =
          bind_ok (place_found printer max_tokens max_bytes p c (prospective printer p c.entry)) _ q
            h in
        pack-IsPacked cs t q (place_found-IsPacked p t c _ refl packed e) k

  -- The check after the loop leaves only what was measured on the whole text.
  reconcile-IsMeasured :
      (p : Packing F)
      → (printer.is_regex ≡ true) ⊎ IsMeasured p
      → reconcile printer p ≡ ok tt
      → IsMeasured p
  unfolding reconcile IsMeasured
  reconcile-IsMeasured p (inr measured) h = measured
  reconcile-IsMeasured p (inl incremental) h = elim (if_ok printer.is_regex _ _ tt h) [
    | inl (same_test, checked) ↦
        let (n, e, k) = bind_ok (utf8_or_raise (render_data printer p.chosen)) _ tt checked in
        let same = raise_if_ok _ _ k in
        (
          sym ((nat_eqb_iff p.used_tokens _).0 (ground (arith, same))),
          utf8_or_raise-some (render_data printer p.chosen) n e
              ∙ ap some (sym ((nat_eqb_iff p.used_bytes n).0 (ground (arith, same)))),
        )
    | inr (other, checked) ↦ absurd cc
  ]

  -- When the packing of a plan returns, the text of the chosen records is within both budgets, its
  -- tokens and its bytes in UTF-8 are what the plan says is used, and the selections are those of
  -- the chosen records, in their order.
  pub pack_plan-WithinBudget :
      (max_tokens max_bytes : ℕ) (decisions : List (LedgerRecallDecision F))
      (scored : List (ScoredCandidate F)) (q : Packing F)
      → pack_plan printer max_tokens max_bytes decisions scored ≡ ok q
      → (printer.count (render_data printer q.chosen) ≡ q.used_tokens)
        × (q.used_tokens ≤ max_tokens)
        × (utf8_size (render_data printer q.chosen) ≡ some q.used_bytes)
        × (q.used_bytes ≤ max_bytes)
        × (q.selections ≡ map selection_of q.chosen)
  unfolding pack_plan IsPacked IsMeasured
  pack_plan-WithinBudget max_tokens max_bytes decisions scored q h =
      let empty_text = render_data {F = F} printer [] in
      let (bytes, e1, k1) =
        bind_ok (check_envelope printer empty_text max_tokens max_bytes) _ q h in
      let (sized, tokens_fit, bytes_fit) =
        check_envelope-fits printer empty_text max_tokens max_bytes bytes e1 in
      let (p, e4, k4) =
        bind_ok (pack printer max_tokens max_bytes scored (unpacked printer decisions bytes)) _ q
          k1 in
      let (e5, k5) = then_ok (reconcile printer p) _ q k4 in
      let start : IsPacked max_tokens max_bytes (unpacked printer decisions bytes) =
        (tokens_fit, bytes_fit, refl, inr (refl, sized)) in
      let packed =
        pack-IsPacked max_tokens max_bytes scored (unpacked printer decisions bytes) p start e4 in
      let measured = reconcile-IsMeasured p packed.3 e5 in
      subst
        (λ x.
          (printer.count (render_data printer x.chosen) ≡ x.used_tokens)
          × (x.used_tokens ≤ max_tokens)
          × (utf8_size (render_data printer x.chosen) ≡ some x.used_bytes)
          × (x.used_bytes ≤ max_bytes)
          × (x.selections ≡ map selection_of x.chosen))
        (ok_inj k5) (measured.0, packed.0, measured.1, packed.1, packed.2)
