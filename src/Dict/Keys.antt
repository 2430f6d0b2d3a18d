-- ===== src/Dict/Keys.antt =====
-- Keys stand once, and what that says of sizes and sums.
use protoprompt.Prelude.{ℕ, ◌+◌, ◌≡◌, refl, none, some, [], ◌∷◌, ◌++◌, Eq, arith, length, sum_by}
use protoprompt.Dict.{Dict, get, put, remove, values, Unique}
use protoprompt.Dict.Laws.{get-put, get-remove, get-append, remove_absent}

module _ {ℓ} {K V : Type ℓ} ⦃e : Eq K⦄ where
  pub put-Unique : (k : K) (v : V) (d : Dict K V) → Unique d → Unique (put k v d)
  unfolding put get
  put-Unique k v [] u = (refl, tt)
  put-Unique k v ((i, w) ∷ d) u =
      ground (arith, put-Unique k v d, get-put k i v d, e.same_iff i k, e.same_iff k i)

  pub remove-Unique : (k : K) (d : Dict K V) → Unique d → Unique (remove k d)
  unfolding remove
  remove-Unique k [] u = tt
  remove-Unique k ((i, w) ∷ d) u = ground (arith, remove-Unique k d, get-remove k i d)

  pub append-Unique :
      (k : K) (v : V) (d : Dict K V) → Unique d → get k d ≡ none → Unique (d ++ (k, v) ∷ [])
  unfolding get
  append-Unique k v [] u h = (refl, tt)
  append-Unique k v ((i, w) ∷ d) u h =
      ground
        (arith, append-Unique k v d, get-append i d ((k, v) ∷ []), e.same_iff k i, e.same_iff i k)

  pub length-remove :
      (k : K) (v : V) (d : Dict K V)
      → Unique d
      → get k d ≡ some v
      → length (remove k d) + 1 ≡ length d
  unfolding get remove
  length-remove k v [] u h = cc
  length-remove k v ((i, w) ∷ d) u h =
      ground (arith, length-remove k v d, remove_absent k d, e.same_iff i k)

  pub sum-remove :
      (f : V → ℕ) (k : K) (v : V) (d : Dict K V)
      → Unique d
      → get k d ≡ some v
      → sum_by f (values (remove k d)) + f v ≡ sum_by f (values d)
  unfolding get remove
  sum-remove f k v [] u h = cc
  sum-remove f k v ((i, w) ∷ d) u h =
      ground (arith, sum-remove f k v d, remove_absent k d, e.same_iff i k)

  pub sum-put_fresh :
      (f : V → ℕ) (k : K) (v : V) (d : Dict K V)
      → get k d ≡ none
      → sum_by f (values (put k v d)) ≡ sum_by f (values d) + f v
  unfolding get put
  sum-put_fresh f k v [] h = omega arith
  sum-put_fresh f k v ((i, w) ∷ d) h = ground (arith, sum-put_fresh f k v d)

  pub sum-put_old :
      (f : V → ℕ) (k : K) (v w : V) (d : Dict K V)
      → get k d ≡ some w
      → sum_by f (values (put k v d)) + f w ≡ sum_by f (values d) + f v
  unfolding get put
  sum-put_old f k v w [] h = cc
  sum-put_old f k v w ((i, u) ∷ d) h = ground (arith, sum-put_old f k v w d)

  pub length-put_old :
      (k : K) (v w : V) (d : Dict K V) → get k d ≡ some w → length (put k v d) ≡ length d
  unfolding get put
  length-put_old k v w [] h = cc
  length-put_old k v w ((i, u) ∷ d) h = ground (arith, length-put_old k v w d)
