-- ===== src/Prelude/Order.antt =====
-- Python's `sorted(..., reverse=True)` and `min(...)` by a key that is compared with `<`.
use mathlib.Core.Path.{◌≡◌, refl, ◌∙◌}
use mathlib.Core.Logic.{inl, inr}
use mathlib.Core.Bool.{Bool, true, false}
use mathlib.Core.List.{List, [], ◌∷◌, Perm}
use mathlib.Core.List.Perm
use protoprompt.Prelude.Tests.{if◌then◌else◌, Bool-cases}
use protoprompt.Prelude.Lists.{All}

module _ {A S : Type 0} (lt : S → S → Bool) (key : A → S) where
  -- `x` goes before the first element whose key is not greater, so equal keys keep their order.
  unfoldable pub insert_desc : A → List A → List A
  insert_desc x [] = x ∷ []
  insert_desc x (y ∷ ys) =
      let later = y ∷ insert_desc x ys in if lt (key x) (key y) then later else x ∷ y ∷ ys

  -- sorted(xs, key=key, reverse=True)
  unfoldable pub sort_desc : List A → List A
  unfolding insert_desc
  sort_desc [] = []
  sort_desc (x ∷ xs) = insert_desc x (sort_desc xs)

  -- The loop of min(xs, key=key): a later element wins only with a smaller key.
  unfoldable pub min_from : A → List A → A
  min_from best [] = best
  min_from best (x ∷ xs) = min_from (if lt (key x) (key best) then x else best) xs

  -- No key in the list is greater than that of its head.
  abbrev pub Descending : List A → Type 0
  Descending [] = Unit
  Descending (x ∷ xs) = All (λ y. lt (key x) (key y) ≡ false) xs × Descending xs

  pub insert_desc-perm : (x : A) (ys : List A) → Perm (insert_desc x ys) (x ∷ ys)
  unfolding insert_desc
  insert_desc-perm x [] = Perm.refl (x ∷ [])
  insert_desc-perm x (y ∷ ys) = elim (Bool-cases (lt (key x) (key y))) [
    | inl before ↦ rw before (Perm.trans (Perm.cons y (insert_desc-perm x ys)) (Perm.swap x y ys))
    | inr here ↦ rw here (Perm.refl (x ∷ y ∷ ys))
  ]

  pub sort_desc-perm : (xs : List A) → Perm (sort_desc xs) xs
  unfolding sort_desc
  sort_desc-perm [] = Perm.refl []
  sort_desc-perm (x ∷ xs) =
      Perm.trans (insert_desc-perm x (sort_desc xs)) (Perm.cons x (sort_desc-perm xs))

  module _ (P : A → Type 0) where
    insert_desc-All : (x : A) (ys : List A) → P x → All P ys → All P (insert_desc x ys)
    unfolding insert_desc
    insert_desc-All x [] p all = (p, tt)
    insert_desc-All x (y ∷ ys) p all = elim (Bool-cases (lt (key x) (key y))) [
      | inl before ↦ rw before (all.0, insert_desc-All x ys p all.1)
      | inr here ↦ rw here (p, all)
    ]

    pub sort_desc-All : (xs : List A) → All P xs → All P (sort_desc xs)
    unfolding sort_desc
    sort_desc-All [] all = tt
    sort_desc-All (x ∷ xs) all = insert_desc-All x (sort_desc xs) all.0 (sort_desc-All xs all.1)

    pub min_from-All : (best : A) (xs : List A) → P best → All P xs → P (min_from best xs)
    unfolding min_from
    min_from-All best [] p all = p
    min_from-All best (x ∷ xs) p all = elim (Bool-cases (lt (key x) (key best))) [
      | inl less ↦ rw less (min_from-All x xs all.0 all.1)
      | inr keep ↦ rw keep (min_from-All best xs p all.1)
    ]

-- What is assumed of the comparison of scores: it is that of a total order, as for floats that are
-- not NaN.
pub record IsOrder {S : Type 0} (lt : S → S → Bool) : Type 0 where
  pub asym : (a b : S) → lt a b ≡ true → lt b a ≡ false
  pub le_trans : (a b c : S) → lt b a ≡ false → lt c b ≡ false → lt c a ≡ false

module _ {A S : Type 0} (lt : S → S → Bool) (key : A → S) (order : IsOrder lt) where
  All-below :
      (x y : A) (ys : List A)
      → lt (key x) (key y) ≡ false
      → All (λ z. lt (key y) (key z) ≡ false) ys
      → All (λ z. lt (key x) (key z) ≡ false) ys
  All-below x y [] h all = tt
  All-below x y (z ∷ ys) h all =
      (order.le_trans (key z) (key y) (key x) all.0 h, All-below x y ys h all.1)

  insert_desc-Descending :
      (x : A) (ys : List A) → Descending lt key ys → Descending lt key (insert_desc lt key x ys)
  unfolding insert_desc
  insert_desc-Descending x [] d = (tt, tt)
  insert_desc-Descending x (y ∷ ys) d = elim (Bool-cases (lt (key x) (key y))) [
    | inl before ↦ rw before (
      insert_desc-All lt key (λ z. lt (key y) (key z) ≡ false) x ys
          (order.asym (key x) (key y) before) d.0,
      insert_desc-Descending x ys d.1,
    )
    | inr here ↦ rw here ((here, All-below x y ys here d.0), d)
  ]

  pub sort_desc-Descending : (xs : List A) → Descending lt key (sort_desc lt key xs)
  unfolding sort_desc
  sort_desc-Descending [] = tt
  sort_desc-Descending (x ∷ xs) = insert_desc-Descending x _ (sort_desc-Descending xs)

  irrefl : (x : A) → lt (key x) (key x) ≡ false
  irrefl x = elim (Bool-cases (lt (key x) (key x))) [
    | inl less ↦ order.asym (key x) (key x) less
    | inr keep ↦ keep
  ]

  least_of :
      (best : A) (xs : List A) (m : A)
      → m ≡ min_from lt key best xs
      → (lt (key best) (key m) ≡ false) × All (λ x. lt (key x) (key m) ≡ false) xs
  unfolding min_from
  least_of best [] m e = (rw e (irrefl best), tt)
  least_of best (x ∷ xs) m e = elim (Bool-cases (lt (key x) (key best))) [
    | inl less ↦
        let ih = least_of x xs m (e ∙ (rw less)) in
        (order.le_trans (key m) (key x) (key best) ih.0 (order.asym _ _ less), ih)
    | inr keep ↦
        let ih = least_of best xs m (e ∙ (rw keep)) in
        (ih.0, (order.le_trans (key m) (key best) (key x) ih.0 keep, ih.1))
  ]

  -- No element has a smaller key than the minimum.
  pub min_from-least :
      (best : A) (xs : List A)
      → (lt (key best) (key (min_from lt key best xs)) ≡ false)
        × All (λ x. lt (key x) (key (min_from lt key best xs)) ≡ false) xs
  min_from-least best xs = least_of best xs (min_from lt key best xs) refl
