-- ===== src/Cache/Bounded.antt =====
-- The size and the keys of the cache (protoprompt/cache.py).
use protoprompt.Prelude.{
  ℕ, ◌≤◌, ◌<◌, ◌≡◌, inl, inr, some, [], ◌∷◌, Text, length, arith, Option-cases, ℤ, text_eq,
  length-append,
}
use protoprompt.Dict
use protoprompt.Dict.{Dict, Unique}
use protoprompt.Dict.Laws.{get-remove_self}
use protoprompt.Dict.Keys.{put-Unique, remove-Unique, append-Unique, length-remove}
use protoprompt.Cache.{LruCache, init, get, put, shrink, move_to_end}

pub record IsValid {V : Type 0} (c : LruCache V) : Type 0 where
  pub positive : 0 < c.capacity
  pub bounded : length c.entries ≤ c.capacity
  pub unique : Unique c.entries

module _ {V : Type 0} where
  pub init-IsValid : (capacity : ℤ) → IsValid (init {V = V} capacity)
  unfolding init
  init-IsValid capacity = record { positive = omega arith; bounded = omega arith; unique = tt }

  pub shrink-le : (n : ℕ) (d : Dict Text V) → length (shrink n d) ≤ n
  unfolding shrink
  shrink-le n [] = omega arith
  shrink-le n (x ∷ d) = ground (arith, shrink-le n d)

  pub shrink-Unique : (n : ℕ) (d : Dict Text V) → Unique d → Unique (shrink n d)
  unfolding shrink
  shrink-Unique n [] u = tt
  shrink-Unique n (x ∷ d) u = ground (arith, shrink-Unique n d)

  pub move_to_end-Unique :
      (key : Text) (v : V) (d : Dict Text V) → Unique d → Unique (move_to_end key v d)
  unfolding move_to_end
  move_to_end-Unique key v d u =
      append-Unique key v (Dict.remove key d) (remove-Unique key d u) (get-remove_self key d)

  pub length-move_to_end :
      (key : Text) (v w : V) (d : Dict Text V)
      → Unique d
      → Dict.get key d ≡ some w
      → length (move_to_end key v d) ≡ length d
  unfolding move_to_end
  length-move_to_end key v w d u h =
      omega (arith, length-append (Dict.remove key d) ((key, v) ∷ []), length-remove key w d u h)

  pub get-IsValid : (c : LruCache V) (key : Text) → IsValid c → IsValid (get c key).0
  unfolding get
  get-IsValid c key h = elim (Option-cases (Dict.get key c.entries)) [
    | inl miss ↦ rw (miss, get) h
    | inr (v, hit) ↦
        rw (hit, get)
          (record {
            positive = h.positive;
            bounded = omega (arith, length-move_to_end key v v c.entries h.unique hit, h.bounded);
            unique = move_to_end-Unique key v c.entries h.unique;
          })
  ]

  pub put-IsValid : (c : LruCache V) (key : Text) (v : V) → IsValid c → IsValid (put c key v)
  unfolding put
  put-IsValid c key v h = record {
    positive = h.positive;
    bounded = shrink-le c.capacity _;
    unique =
        shrink-Unique c.capacity _
          (move_to_end-Unique key v _ (put-Unique key v c.entries h.unique));
  }
