-- ===== src/Ledger/Policy/Admitted.antt =====
-- A composed policy (protoprompt/ledger/policy.py) and what a recall plan considers under it.
use protoprompt.Prelude.{
  All-take, ◌≡◌, refl, sym, ap, ◌∙◌, Bool, true, false, not, ◌&&◌, ◌||◌, Option, none, some, List,
  [], ◌∷◌, Text, codes, Eq, ◌==◌, nat_eq, any_of, inl, inr, if◌then◌else◌, ok, raise_if, All, arith,
  bind_ok, then_ok, raise_if_ok, raise_unless_ok, ok_inj, Bool-cases,
}
use mathlib.Core.Path.{subst}
use protoprompt.PyText.{is_empty}
use protoprompt.Ledger.{MemoryOrigin, MemoryRecord}
use protoprompt.Ledger.Validate.{validate_identifier}
use protoprompt.Ledger.Transition.{is_raw_origin}
use protoprompt.Ledger.Policy.{
  Floats, kind_eq, origin_eq, is_among, do_overlap, is_subset, has_repeats,
}
use protoprompt.Ledger.Policy.Admission.{
  MemoryAdmissionPolicy, allow, admission_init, evaluate, finite_confidence,
}
use protoprompt.Ledger.Policy.Recall.{
  LedgerRecallPolicy, recall_init, exclusion, sort_out, consider, file_record, LedgerRecallDecision,
  is_missing, is_foreign, positive_int, finite_non_negative, check_origins,
}
use protoprompt.Ledger.Policy.Composed.{MemoryPolicy, policy_init, declared_origins}

module _ {A : Type 0} ⦃e : Eq A⦄ where
  any_of-false :
      (p : A → Bool) (x : A) (xs : List A)
      → any_of p xs ≡ false
      → is_among x xs ≡ true
      → p x ≡ false
  unfolding is_among
  any_of-false p x [] h k = cc
  any_of-false p x (y ∷ ys) h k = elim (Bool-cases (e.same x y)) [
    | inl same ↦
        let equal = (e.same_iff x y).0 same in
        subst (λ z. p z ≡ false) (sym equal) (ground (arith, h))
    | inr other ↦ any_of-false p x ys (ground (arith, h)) (ground (arith, k, other))
  ]

  not_among :
      (x : A) (xs ys : List A)
      → do_overlap xs ys ≡ false
      → is_among x xs ≡ true
      → is_among x ys ≡ false
  unfolding do_overlap
  not_among x xs ys h k = any_of-false (λ z. is_among z ys) x xs h k

  among_both :
      (x : A) (xs ys : List A)
      → is_subset xs ys ≡ true
      → is_among x xs ≡ true
      → is_among x ys ≡ true
  unfolding is_subset
  among_both x xs ys h k =
      let within : any_of (λ z. not (is_among z ys)) xs ≡ false = ground (arith, h) in
      let here = any_of-false (λ z. not (is_among z ys)) x xs within k in ground (arith, here)

module _ {A : Type 0} where
  unless_none :
      (b : Bool) (a : A) (rest : Option A)
      → (if b then some a else rest) ≡ none
      → (b ≡ false) × (rest ≡ none)
  unless_none true a rest h = cc
  unless_none false a rest h = (refl, h)

module _ {F : Type 0} (floats : Floats F) where
  -- An admission policy that was constructed allows no origin that it rejects.
  admission_init-apart :
      (p q : MemoryAdmissionPolicy F)
      → admission_init floats p ≡ ok q
      → do_overlap q.allowed_origins q.rejected_origins ≡ false
  unfolding admission_init
  admission_init-apart p q h =
      let (e1, k1) = then_ok (raise_if (not (p.schema_version == 1)) _) _ q h in
      let (i, e2, k2) = bind_ok (validate_identifier p.policy_id) _ q k1 in
      let (v, e3, k3) = bind_ok (validate_identifier p.policy_version) _ q k2 in
      let (e4, k4) = then_ok (raise_if (has_repeats p.allowed_origins) _) _ q k3 in
      let (e5, k5) = then_ok (raise_if (has_repeats p.rejected_origins) _) _ q k4 in
      let (e6, k6) =
        then_ok (raise_if (do_overlap p.allowed_origins p.rejected_origins) _) _ q k5 in
      let (e7, k7) = then_ok (raise_if (is_empty p.allowed_kinds) _) _ q k6 in
      let (e8, k8) = then_ok (raise_if (has_repeats p.allowed_kinds) _) _ q k7 in
      let (m, e9, k9) = bind_ok (finite_confidence floats p.minimum_confidence) _ q k8 in
      ap (λ x. do_overlap x.allowed_origins x.rejected_origins) (sym (ok_inj k9))
      ∙ raise_if_ok _ _ e6

  finite_non_negative-finite :
      (x y : F) → finite_non_negative floats x ≡ ok y → floats.is_finite y ≡ true
  finite_non_negative-finite x y h =
      let (e, k) =
        then_ok (raise_if (not (floats.is_finite x) || floats.lt x (floats.hundredths 0)) _) _ y
          h in
      let clear = raise_if_ok _ _ e in
      subst (λ z. floats.is_finite z ≡ true) (ok_inj k) (ground (arith, clear))

  -- The least confidence of a recall policy that was constructed is a finite number.
  recall_init-finite :
      (p q : LedgerRecallPolicy F)
      → recall_init floats p ≡ ok q
      → floats.is_finite q.minimum_confidence ≡ true
  unfolding recall_init
  recall_init-finite p q h =
      let (e1, k1) = then_ok (raise_if (not (p.schema_version == 1)) _) _ q h in
      let (i, e2, k2) = bind_ok (validate_identifier p.policy_id) _ q k1 in
      let (e3, k3) = then_ok (raise_if (is_empty p.allowed_kinds) _) _ q k2 in
      let (e4, k4) = then_ok (raise_if (has_repeats p.allowed_kinds) _) _ q k3 in
      let (m, e5, k5) = bind_ok (finite_non_negative floats p.minimum_confidence) _ q k4 in
      let (e6, k6) = then_ok (raise_if (floats.lt (floats.hundredths 100) m) _) _ q k5 in
      let (a, e7, k7) = bind_ok (positive_int (some 10000) p.active_read_limit) _ q k6 in
      let (b, e8, k8) = bind_ok (positive_int (some 10000) p.candidate_limit) _ q k7 in
      let (e9, k9) = then_ok (raise_if _ _) _ q k8 in
      let (c, e10, k10) = bind_ok (positive_int none p.candidate_scan_byte_budget) _ q k9 in
      let (w1, e11, k11) = bind_ok (finite_non_negative floats p.relevance_weight) _ q k10 in
      let (w2, e12, k12) = bind_ok (finite_non_negative floats p.confidence_weight) _ q k11 in
      let (w3, e13, k13) = bind_ok (finite_non_negative floats p.recency_weight) _ q k12 in
      let (e14, k14) = then_ok (raise_if _ _) _ q k13 in
      let (e15, k15) = then_ok (check_origins p.allowed_origins) _ q k14 in
      subst (λ x. floats.is_finite x.minimum_confidence ≡ true) (ok_inj k15)
        (finite_non_negative-finite p.minimum_confidence m e5)

  declared_origins-some :
      (found : Option (List MemoryOrigin)) (origins : List MemoryOrigin)
      → declared_origins found ≡ ok origins
      → found ≡ some origins
  declared_origins-some none origins h = cc
  declared_origins-some (some o) origins h = ap some (ok_inj h)

  -- What the constructor of a composed policy has checked.
  policy_init-checked :
      (p q : MemoryPolicy F)
      → policy_init floats p ≡ ok q
      → (q.admission ≡ p.admission)
        × (q.recall ≡ p.recall)
        × (origins : List MemoryOrigin) × (p.recall.allowed_origins ≡ some origins)
        × (any_of is_raw_origin origins ≡ false)
        × (is_subset origins p.admission.allowed_origins ≡ true)
        × (is_subset p.recall.allowed_kinds p.admission.allowed_kinds ≡ true)
        × (floats.lt p.recall.minimum_confidence p.admission.minimum_confidence ≡ false)
  unfolding policy_init
  policy_init-checked p q h =
      let (e1, k1) = then_ok (raise_if (not (p.schema_version == 1)) _) _ q h in
      let (i, e2, k2) = bind_ok (validate_identifier p.policy_id) _ q k1 in
      let (v, e3, k3) = bind_ok (validate_identifier p.policy_version) _ q k2 in
      let (e4, k4) = then_ok (raise_if (not p.recall.require_admission_audit) _) _ q k3 in
      let (origins, e5, k5) = bind_ok (declared_origins p.recall.allowed_origins) _ q k4 in
      let (e6, k6) = then_ok (raise_if (any_of is_raw_origin origins) _) _ q k5 in
      let (e7, k7) =
        then_ok (raise_if (not (is_subset origins p.admission.allowed_origins)) _) _ q k6 in
      let (e8, k8) =
        then_ok (raise_if (not (is_subset p.recall.allowed_kinds p.admission.allowed_kinds)) _) _ q
          k7 in
      let (e9, k9) =
        then_ok (raise_if (floats.lt p.recall.minimum_confidence p.admission.minimum_confidence) _)
          _ q k8 in
      (
        ap (λ x. x.admission) (sym (ok_inj k9)),
        ap (λ x. x.recall) (sym (ok_inj k9)),
        origins,
        declared_origins-some p.recall.allowed_origins origins e5,
        raise_if_ok _ _ e6,
        raise_unless_ok _ _ e7,
        raise_unless_ok _ _ e8,
        raise_if_ok _ _ e9,
      )

  evaluate-allows :
      (p : MemoryAdmissionPolicy F) (r : MemoryRecord F)
      → is_raw_origin r.origin ≡ false
      → is_among r.origin p.rejected_origins ≡ false
      → is_among r.origin p.allowed_origins ≡ true
      → is_among r.row.kind p.allowed_kinds ≡ true
      → floats.lt r.row.confidence p.minimum_confidence ≡ false
      → evaluate floats p r ≡ record { action = allow; reason_code = codes "policy_allowed" }
  unfolding evaluate
  evaluate-allows p r h1 h2 h3 h4 h5 = rw (h1, h2, h3, h4, h5) refl

  -- What the planner has checked of a record that it does not exclude.
  exclusion-none :
      (p : LedgerRecallPolicy F) (r : MemoryRecord F)
      → exclusion floats p r ≡ none
      → (is_foreign p.allowed_origins r.origin ≡ false)
        × (is_among r.row.kind p.allowed_kinds ≡ true)
        × (floats.lt r.row.confidence p.minimum_confidence ≡ false)
  unfolding exclusion
  exclusion-none p r h =
      let (h1, k1) = unless_none (is_missing r.content) _ _ h in
      let (h2, k2) = unless_none (p.require_admission_audit && is_raw_origin r.origin) _ _ k1 in
      let (h3, k3) = unless_none (is_foreign p.allowed_origins r.origin) _ _ k2 in
      let (h4, k4) = unless_none (not (is_among r.row.kind p.allowed_kinds)) _ _ k3 in
      let (h5, k5) = unless_none (floats.lt r.row.confidence p.minimum_confidence) _ _ k4 in
      (h3, ground (arith, h4), h5)

  file_record-All :
      (P : MemoryRecord F → Type 0) (found : Option Text) (r : MemoryRecord F)
      (rest : List (LedgerRecallDecision F) × List (MemoryRecord F))
      → (found ≡ none → P r)
      → All P rest.1
      → All P (file_record found r rest).1
  file_record-All P none r rest f all = (f refl, all)
  file_record-All P (some reason) r rest f all = all

  sort_out-All :
      (P : MemoryRecord F → Type 0) (p : LedgerRecallPolicy F) (rs : List (MemoryRecord F))
      → ((r : MemoryRecord F) → exclusion floats p r ≡ none → P r)
      → All P (sort_out floats p rs).1
  unfolding sort_out
  sort_out-All P p [] f = tt
  sort_out-All P p (r ∷ rs) f =
      file_record-All P (exclusion floats p r) r (sort_out floats p rs) (f r)
        (sort_out-All P p rs f)

  module _
      (order : (a b c : F)
        → floats.is_finite b ≡ true
        → floats.lt a b ≡ false
        → floats.lt b c ≡ false
        → floats.lt a c ≡ false) where
    eligible-allowed :
        (p q : MemoryPolicy F) (r : MemoryRecord F)
        → do_overlap p.admission.allowed_origins p.admission.rejected_origins ≡ false
        → floats.is_finite p.recall.minimum_confidence ≡ true
        → policy_init floats p ≡ ok q
        → exclusion floats p.recall r ≡ none
        → evaluate floats p.admission r
          ≡ record { action = allow; reason_code = codes "policy_allowed" }
    unfolding is_among
    eligible-allowed p q r apart finite made h =
        let (a, b, origins, declared, concrete, within, kinds, least) =
          policy_init-checked p q made in
        let (near, kind, sure) = exclusion-none p.recall r h in
        let known : not (is_among r.origin origins) ≡ false =
          subst (λ o. is_foreign o r.origin ≡ false) declared near in
        let listed : is_among r.origin origins ≡ true = ground (arith, known) in
        let allowed = among_both r.origin origins p.admission.allowed_origins within listed in
        evaluate-allows p.admission r (any_of-false is_raw_origin r.origin origins concrete listed)
          (not_among r.origin p.admission.allowed_origins p.admission.rejected_origins apart
            allowed)
          allowed
          (among_both r.row.kind p.recall.allowed_kinds p.admission.allowed_kinds kinds kind)
          (order r.row.confidence p.recall.minimum_confidence p.admission.minimum_confidence finite
            sure least)

    -- Where the comparison of floats is transitive through finite numbers, every record that a plan
    -- considers under a composed policy is one that the admission policy of the contract allows,
    -- when both policies and the contract were constructed.
    pub consider-Allowed :
        (a : MemoryAdmissionPolicy F) (r : LedgerRecallPolicy F) (p q : MemoryPolicy F)
        (records : List (MemoryRecord F))
        → admission_init floats a ≡ ok p.admission
        → recall_init floats r ≡ ok p.recall
        → policy_init floats p ≡ ok q
        → All
            (λ x.
              evaluate floats q.admission x
              ≡ record { action = allow; reason_code = codes "policy_allowed" })
            (consider floats q.recall records).1
    unfolding consider
    consider-Allowed a r p q records admission recall made =
        let parts = policy_init-checked p q made in
        All-take _ q.recall.candidate_limit _ (
          sort_out-All _ q.recall records λ x eligible.
            ap (λ t. evaluate floats t x) parts.0
            ∙ eligible-allowed p q x (admission_init-apart a p.admission admission)
                (recall_init-finite r p.recall recall) made
                (ap (λ t. exclusion floats t x) (sym parts.1) ∙ eligible))
