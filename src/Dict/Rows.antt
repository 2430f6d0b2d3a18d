-- ===== src/Dict/Rows.antt =====
-- What `get` finds after the `update` and `keep` of every row.
use mathlib.Core.Path.{subst}
use protoprompt.Prelude.{
  ◌≡◌, refl, inl, inr, Bool, true, none, some, [], ◌∷◌, Eq, ◌==◌, if◌then◌else◌, arith, Bool-cases,
  Option-cases, ◌++◌, ◌⊎◌, ◌≢◌, sym, some_inj,
}
use protoprompt.Dict.{Dict, get, update, keep, Unique}

module _ {ℓ} {K V : Type ℓ} ⦃e : Eq K⦄ where
  pub get-update :
      (f : K → V → V) (k : K) (d : Dict K V)
      → get k (update f d) ≡ elim (get k d) [ none ↦ none | some v ↦ some (f k v) ]
  unfolding get update
  get-update f k [] = refl
  get-update f k ((i, w) ∷ d) = ground (arith, get-update f k d, e.same_iff i k)

  pub get-update-some :
      (f : K → V → V) (k : K) (v : V) (d : Dict K V)
      → get k d ≡ some v
      → get k (update f d) ≡ some (f k v)
  get-update-some f k v d h = ground (arith, get-update f k d)

  pub get-update-none :
      (f : K → V → V) (k : K) (d : Dict K V) → get k d ≡ none → get k (update f d) ≡ none
  get-update-none f k d h = ground (arith, get-update f k d)

  pub update-Unique : (f : K → V → V) (d : Dict K V) → Unique d → Unique (update f d)
  unfolding update
  update-Unique f [] u = tt
  update-Unique f ((i, w) ∷ d) u = (get-update-none f i d u.0, update-Unique f d u.1)

  pub get-keep-none :
      (p : K → V → Bool) (k : K) (d : Dict K V) → get k d ≡ none → get k (keep p d) ≡ none
  unfolding get keep
  get-keep-none p k [] h = refl
  get-keep-none p k ((i, w) ∷ d) h = ground (arith, get-keep-none p k d)

  pub keep-Unique : (p : K → V → Bool) (d : Dict K V) → Unique d → Unique (keep p d)
  unfolding keep
  keep-Unique p [] u = tt
  keep-Unique p ((i, w) ∷ d) u = elim (Bool-cases (p i w)) [
    | inl kept ↦ rw kept (get-keep-none p i d u.0, keep-Unique p d u.1)
    | inr dropped ↦ rw dropped (keep-Unique p d u.1)
  ]

  -- A row that is found after `keep` was there, and passes the test.
  pub get-keep-some :
      (p : K → V → Bool) (k : K) (v : V) (d : Dict K V)
      → Unique d
      → get k (keep p d) ≡ some v
      → (get k d ≡ some v) × (p k v ≡ true)
  unfolding get keep
  get-keep-some p k v [] u h = cc
  get-keep-some p k v ((i, w) ∷ d) u h =
      ground (arith, get-keep-some p k v d, get-keep-none p k d, e.same_iff i k)

  pub get-update_inv :
      (f : K → V → V) (k : K) (v : V) (d : Dict K V)
      → get k (update f d) ≡ some v
      → (w : V) × (get k d ≡ some w) × (v ≡ f k w)
  get-update_inv f k v d h = elim (Option-cases (get k d)) [
    | inl absent ↦ cc (get-update-none f k d absent)
    | inr (w, found) ↦ (w, found, cc (get-update-some f k w d found))
  ]

  pub get-update_gone :
      (f : K → V → V) (k : K) (d : Dict K V) → get k (update f d) ≡ none → get k d ≡ none
  get-update_gone f k d h = elim (Option-cases (get k d)) [
    | inl absent ↦ absent
    | inr (w, found) ↦ cc (get-update-some f k w d found)
  ]

  pub get-insert_inv :
      (k j : K) (v w : V) (d : Dict K V)
      → get k (d ++ (j, v) ∷ []) ≡ some w
      → (get k d ≡ some w) ⊎ ((get k d ≡ none) × (j ≡ k) × (w ≡ v))
  unfolding get
  get-insert_inv k j v w [] h = elim (Bool-cases (j == k)) [
    | inl same ↦ inr (
      refl,
      (e.same_iff j k).0 same,
      sym (some_inj (subst (λ b. (if b then some v else none) ≡ some w) same h)),
    )
    | inr other ↦ ground (arith, e.same_iff j k)
  ]
  get-insert_inv k j v w ((i, u) ∷ d) h = elim (Bool-cases (i == k)) [
    | inl same ↦
        inl
          (rw same (subst (λ b. (if b then some u else get k (d ++ (j, v) ∷ [])) ≡ some w) same h))
    | inr other ↦ rw other (
        get-insert_inv k j v w d
          (subst (λ b. (if b then some u else get k (d ++ (j, v) ∷ [])) ≡ some w) other h))
  ]

  pub get-insert_gone :
      (k j : K) (v : V) (d : Dict K V)
      → get k (d ++ (j, v) ∷ []) ≡ none
      → (get k d ≡ none) × (j ≢ k)
  unfolding get
  get-insert_gone k j v [] h = (refl, ground (arith, e.same_iff j k))
  get-insert_gone k j v ((i, u) ∷ d) h = ground (arith, get-insert_gone k j v d)

  pub get-insert_other :
      (k j : K) (v : V) (d : Dict K V) → j ≢ k → get k (d ++ (j, v) ∷ []) ≡ get k d
  unfolding get
  get-insert_other k j v [] h = ground (arith, e.same_iff j k)
  get-insert_other k j v ((i, u) ∷ d) h = ground (arith, get-insert_other k j v d)

  pub get-insert_old :
      (k j : K) (v w : V) (d : Dict K V) → get k d ≡ some w → get k (d ++ (j, v) ∷ []) ≡ some w
  unfolding get
  get-insert_old k j v w [] h = cc
  get-insert_old k j v w ((i, u) ∷ d) h = ground (arith, get-insert_old k j v w d)

  pub get-insert_self :
      (k : K) (v : V) (d : Dict K V) → get k d ≡ none → get k (d ++ (k, v) ∷ []) ≡ some v
  unfolding get
  get-insert_self k v [] h = ground (arith, e.same_iff k k)
  get-insert_self k v ((i, u) ∷ d) h = ground (arith, get-insert_self k v d)
