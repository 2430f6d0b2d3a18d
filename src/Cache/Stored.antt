-- ===== src/Cache/Stored.antt =====
-- What `get` and `put` (protoprompt/cache.py) do to the entries that are stored.
use protoprompt.Prelude.{
  ℕ, ◌<◌, ◌≡◌, inl, inr, none, some, [], ◌∷◌, ◌++◌, Text, text_eq, text_eqb_iff, All, All-append,
  arith, Option-cases,
}
use protoprompt.Dict
use protoprompt.Dict.{Dict}
use protoprompt.Dict.Laws.{get-remove_self, get-append}
use protoprompt.Cache.{LruCache, get, put, shrink, move_to_end}
use protoprompt.Cache.Bounded.{IsValid}

module _ {V : Type 0} (P : Text × V → Type 0) where
  All-get : (k : Text) (v : V) (d : Dict Text V) → All P d → Dict.get k d ≡ some v → P (k, v)
  unfolding Dict.get
  All-get k v [] all h = cc
  All-get k v ((j, w) ∷ d) all h = ground (arith, text_eqb_iff j k, All-get k v d)

  All-remove : (k : Text) (d : Dict Text V) → All P d → All P (Dict.remove k d)
  unfolding Dict.remove
  All-remove k [] all = tt
  All-remove k ((j, w) ∷ d) all = ground (arith, All-remove k d)

  All-put : (k : Text) (v : V) (d : Dict Text V) → P (k, v) → All P d → All P (Dict.put k v d)
  unfolding Dict.put
  All-put k v [] p all = (p, tt)
  All-put k v ((j, w) ∷ d) p all = ground (arith, text_eqb_iff j k, All-put k v d)

  All-shrink : (n : ℕ) (d : Dict Text V) → All P d → All P (shrink n d)
  unfolding shrink
  All-shrink n [] all = tt
  All-shrink n (x ∷ d) all = ground (arith, All-shrink n d)

  All-move_to_end :
      (k : Text) (v : V) (d : Dict Text V) → P (k, v) → All P d → All P (move_to_end k v d)
  unfolding move_to_end
  All-move_to_end k v d p all = All-append P _ ((k, v) ∷ []) (All-remove k d all) (p, tt)

  pub get-Stored : (c : LruCache V) (k : Text) → All P c.entries → All P (get c k).0.entries
  unfolding get
  get-Stored c k all = elim (Option-cases (Dict.get k c.entries)) [
    | inl miss ↦ rw (miss, get) all
    | inr (v, hit) ↦
        rw (hit, get) (All-move_to_end k v c.entries (All-get k v c.entries all hit) all)
  ]

  pub get-sound :
      (c : LruCache V) (k : Text) (v : V) → All P c.entries → (get c k).1 ≡ some v → P (k, v)
  unfolding get
  get-sound c k v all h = All-get k v c.entries all (ground arith)

  pub put-Stored :
      (c : LruCache V) (k : Text) (v : V) → P (k, v) → All P c.entries → All P (put c k v).entries
  unfolding put
  put-Stored c k v p all =
      All-shrink c.capacity _ (All-move_to_end k v _ p (All-put k v c.entries p all))

module _ {V : Type 0} where
  last_kept :
      (n : ℕ) (k : Text) (v : V) (d : Dict Text V)
      → 0 < n
      → Dict.get k d ≡ none
      → Dict.get k (shrink n (d ++ (k, v) ∷ [])) ≡ some v
  unfolding shrink Dict.get
  last_kept n k v [] p h = ground (arith, text_eqb_iff k k)
  last_kept n k v ((j, w) ∷ d) p h =
      ground (arith, last_kept n k v d, get-append k d ((k, v) ∷ []), text_eqb_iff k k)

-- A `get` right after a `put` of the same key finds the value that was put.
pub get-put_self :
    {V : Type 0} (c : LruCache V) (k : Text) (v : V) → IsValid c → (get (put c k v) k).1 ≡ some v
unfolding get put move_to_end
get-put_self c k v h = rw (
  last_kept c.capacity k v (Dict.remove k (Dict.put k v c.entries)) h.positive
      (get-remove_self k (Dict.put k v c.entries)),
  get,
)
