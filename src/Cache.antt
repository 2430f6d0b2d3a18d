-- ===== src/Cache.antt =====
-- The embedding cache of protoprompt/cache.py: an LRU cache with a bounded number of entries, and
-- the client that serves repeated texts from it. A vector is of any type, and the digest of a text
-- and the wrapped client's `embed` are parameters. The proofs are in the modules below.
pub mod Bounded
pub mod Lookup
pub mod Stored
pub mod Client
use protoprompt.Prelude.{
  ℕ, zero, suc, max, Bool, true, false, Option, none, some, List, [], ◌∷◌, ◌++◌, Text, length, leb,
  if◌then◌else◌, ℤ, pos_part, text_eq,
}
use protoprompt.Dict
use protoprompt.Dict.{Dict}

pub record LruCache (V : Type 0) : Type 0 where
  pub capacity : ℕ
  pub entries : Dict Text V

module _ {V : Type 0} where
  -- InMemoryEmbeddingCache.__init__
  unfoldable pub init : ℤ → LruCache V
  init capacity = record { capacity = max 1 (pos_part capacity); entries = [] }

  -- OrderedDict.move_to_end of a key that is there
  pub move_to_end : Text → V → Dict Text V → Dict Text V
  move_to_end key v entries = Dict.remove key entries ++ (key, v) ∷ []

  -- InMemoryEmbeddingCache.get
  unfoldable pub get : LruCache V → Text → LruCache V × Option V
  unfolding move_to_end
  get c key = elim (Dict.get key c.entries) [
    | none ↦ (c, none)
    | some v ↦ (record c { entries = move_to_end key v c.entries }, some v)
  ]

  -- while len(self._data) > self._capacity: self._data.popitem(last=False)
  pub shrink : ℕ → Dict Text V → Dict Text V
  shrink capacity [] = []
  shrink capacity (entry ∷ rest) =
      let shorter = shrink capacity rest in
      if leb (length (entry ∷ rest)) capacity then entry ∷ rest else shorter

  -- InMemoryEmbeddingCache.put
  unfoldable pub put : LruCache V → Text → V → LruCache V
  unfolding shrink move_to_end
  put c key v = record c {
    entries = shrink c.capacity (move_to_end key v (Dict.put key v c.entries));
  }

  -- InMemoryEmbeddingCache.__len__
  pub len : LruCache V → ℕ
  len c = length c.entries
