-- ===== src/Cache/Lookup.antt =====
-- The cache (protoprompt/cache.py) beside an ideal one that forgets nothing.
use protoprompt.Prelude.{
  ℤ, pos_part, max, ℕ, zero, suc, ◌+◌, ◌-◌, ◌≤◌, ◌<◌, ◌≡◌, refl, sym, ap, ◌∙◌, inl, inr, none, some,
  List, [], ◌∷◌, ◌++◌, Text, text_eq, text_eqb_iff, length, drop, leb, leb→le, arith, Bool-cases,
  Option-cases, length-append, leb-false→lt,
}
use protoprompt.Dict
use protoprompt.Dict.{Dict, Unique}
use protoprompt.Dict.Laws.{remove_absent}
use protoprompt.Dict.Keys.{length-remove}
use protoprompt.Cache.{LruCache, init, get, put, shrink, move_to_end}
use protoprompt.Cache.Bounded.{move_to_end-Unique, length-move_to_end, shrink-le, shrink-Unique}

module _ {V : Type 0} where
  remove-put :
      (k : Text) (v : V) (d : Dict Text V) → Dict.remove k (Dict.put k v d) ≡ Dict.remove k d
  unfolding Dict.remove Dict.put
  remove-put k v [] = ground (arith, text_eqb_iff k k)
  remove-put k v ((j, w) ∷ d) = ground (arith, remove-put k v d)

  -- The last `n` entries
  abbrev pub recent : ℕ → Dict Text V → Dict Text V
  recent n d = drop (length d - n) d

  drop_one : (n m : ℕ) (x : Text × V) (d : Dict Text V) → n ≡ suc m → drop n (x ∷ d) ≡ drop m d
  drop_one zero m x d h = absurd (omega arith)
  drop_one (suc n) m x d h = ap (λ k. drop k d) (omega arith)

  drop_none : (n : ℕ) (d : Dict Text V) → n ≡ 0 → drop n d ≡ d
  drop_none zero d h = refl
  drop_none (suc n) d h = absurd (omega arith)

  shrink-eq-recent : (n : ℕ) (d : Dict Text V) → shrink n d ≡ recent n d
  unfolding shrink
  shrink-eq-recent n [] = sym (drop_of_empty (0 - n))
    where
      drop_of_empty : (k : ℕ) → drop {A = Text × V} k [] ≡ []
      drop_of_empty zero = refl
      drop_of_empty (suc k) = refl
  shrink-eq-recent n (x ∷ d) = elim (Bool-cases (leb (length (x ∷ d)) n)) [
    | inl fits ↦ rw fits (sym (drop_none _ (x ∷ d) (omega (arith, leb→le (length (x ∷ d)) n fits))))
    | inr over ↦ rw over (
        shrink-eq-recent n d
        ∙ sym (drop_one _ (length d - n) x d (omega (arith, leb-false→lt (length (x ∷ d)) n over))))
  ]

  shrink_whole : (n : ℕ) (d : Dict Text V) → length d ≤ n → shrink n d ≡ d
  unfolding shrink
  shrink_whole n [] h = refl
  shrink_whole n (x ∷ d) h = ground (arith)

  shrink-append :
      (n : ℕ) (d : Dict Text V) (x : Text × V) → shrink (suc n) (d ++ x ∷ []) ≡ shrink n d ++ x ∷ []
  unfolding shrink
  shrink-append n [] x = ground arith
  shrink-append n (y ∷ d) x = ground (arith, shrink-append n d x, length-append d (x ∷ []))

  length-remove-ge :
      (k : Text) (d : Dict Text V) → Unique d → length d ≤ length (Dict.remove k d) + 1
  length-remove-ge k d u = elim (Option-cases (Dict.get k d)) [
    | inl miss ↦ rw (remove_absent k d miss) (omega arith)
    | inr (v, hit) ↦ omega (arith, length-remove k v d u hit)
  ]

  shrink-remove :
      (n : ℕ) (k : Text) (d : Dict Text V)
      → Unique d
      → shrink n (Dict.remove k (shrink (suc n) d)) ≡ shrink n (Dict.remove k d)
  unfolding shrink Dict.remove
  shrink-remove n k [] u = refl
  shrink-remove n k ((j, v) ∷ d) u = elim (Bool-cases (leb (length ((j, v) ∷ d)) (suc n))) [
    | inl fits ↦ rw fits
    | inr over ↦ rw over (
        ground (
          arith,
          shrink-remove n k d u.1,
          length-remove-ge k d u.1,
          remove_absent k d,
          text_eqb_iff j k,
        ))
  ]

pub data Call (V : Type 0) : Type 0 where
  get_call : Text → Call V
  put_call : Text → V → Call V

module _ {V : Type 0} where
  unfoldable pub run : LruCache V → List (Call V) → LruCache V
  run c [] = c
  run c (get_call k ∷ calls) = run (get c k).0 calls
  run c (put_call k v ∷ calls) = run (put c k v) calls

  -- The history of an ideal cache: every entry ever stored, the most recently used last. A `get`
  -- is a use where the key is among the `n` most recent.
  pub history : ℕ → Dict Text V → List (Call V) → Dict Text V
  history n h [] = h
  history n h (get_call k ∷ calls) =
      history n (elim (Dict.get k (recent n h)) [ none ↦ h | some v ↦ move_to_end k v h ]) calls
  history n h (put_call k v ∷ calls) = history n (move_to_end k v h) calls

  touch-shrink :
      (n : ℕ) (k : Text) (v : V) (h : Dict Text V)
      → Unique h
      → 0 < n
      → shrink n (move_to_end k v (shrink n h)) ≡ shrink n (move_to_end k v h)
  unfolding move_to_end
  touch-shrink zero k v h u p = absurd (omega arith)
  touch-shrink (suc n) k v h u p =
      shrink-append n (Dict.remove k (shrink (suc n) h)) (k, v)
      ∙ ap (λ d. d ++ (k, v) ∷ []) (shrink-remove n k h u)
      ∙ sym (shrink-append n (Dict.remove k h) (k, v))

  pub record Tracks (c : LruCache V) (n : ℕ) (h : Dict Text V) : Type 0 where
    pub capacity : c.capacity ≡ n
    pub positive : 0 < n
    pub unique : Unique h
    pub window : c.entries ≡ shrink n h

  put-Tracks :
      (c : LruCache V) (n : ℕ) (h : Dict Text V) (k : Text) (v : V)
      → Tracks c n h
      → Tracks (put c k v) n (move_to_end k v h)
  unfolding put
  put-Tracks c n h k v t = record {
    capacity = t.capacity;
    positive = t.positive;
    unique = move_to_end-Unique k v h t.unique;
    window =
        rw (t.capacity, t.window)
          (ap (λ d. shrink n (d ++ (k, v) ∷ [])) (remove-put k v (shrink n h))
            ∙ touch-shrink n k v h t.unique t.positive);
  }

  hit-Tracks :
      (c : LruCache V) (n : ℕ) (h : Dict Text V) (k : Text) (v : V)
      → Tracks c n h
      → Dict.get k (shrink n h) ≡ some v
      → Tracks (record c { entries = move_to_end k v c.entries }) n (move_to_end k v h)
  hit-Tracks c n h k v t hit = record {
    capacity = t.capacity;
    positive = t.positive;
    unique = move_to_end-Unique k v h t.unique;
    window = rw t.window (
        sym (
          shrink_whole n _ (
            omega (
              arith,
              length-move_to_end k v v (shrink n h) (shrink-Unique n h t.unique) hit,
              shrink-le n h,
            )))
        ∙ touch-shrink n k v h t.unique t.positive);
  }

  run-Tracks :
      (calls : List (Call V)) (c : LruCache V) (n : ℕ) (h : Dict Text V)
      → Tracks c n h
      → Tracks (run c calls) n (history n h calls)
  unfolding run history get
  run-Tracks [] c n h t = t
  run-Tracks (put_call k v ∷ calls) c n h t =
      run-Tracks calls (put c k v) n _ (put-Tracks c n h k v t)
  run-Tracks (get_call k ∷ calls) c n h t = elim (Option-cases (Dict.get k (shrink n h))) [
    | inl miss ↦ rw (← shrink-eq-recent n h, miss, get, t.window, miss) (run-Tracks calls c n h t)
    | inr (v, hit) ↦
        rw (← shrink-eq-recent n h, hit, get, t.window, hit)
          (run-Tracks calls (record c { entries = move_to_end k v c.entries }) n (move_to_end k v h)
            (hit-Tracks c n h k v t hit))
  ]

-- After any calls on a fresh cache, its entries are the most recently used ones of the ideal cache,
-- in order and up to the capacity: what is evicted is always the least recently used.
pub run-recent :
    {V : Type 0} (capacity : ℤ) (calls : List (Call V))
    → (run (init capacity) calls).entries
      ≡ recent (init {V = V} capacity).capacity (history (init {V = V} capacity).capacity [] calls)
unfolding init
run-recent capacity calls =
    (run-Tracks calls (init capacity) (max 1 (pos_part capacity)) [] (record {
      capacity = refl;
      positive = omega arith;
      unique = tt;
      window = sym (shrink_whole _ [] (omega arith));
    })).window
    ∙ shrink-eq-recent _ _
