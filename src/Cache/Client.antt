-- ===== src/Cache/Client.antt =====
-- CachedLLMClient of protoprompt/cache.py: which texts `embed` looks up, asks for and stores.
pub mod Key
pub mod Transparent
pub mod Calls
use protoprompt.Prelude.{
  ℕ, zero, suc, Bool, true, false, Option, none, some, List, [], ◌∷◌, ◌++◌, map, Text, get_elem?,
  set, Result, ok, err, index_error, ◌>>=◌, if◌then◌else◌,
}
use protoprompt.PyText.{is_empty}
use protoprompt.Cache.{LruCache, get, put}

-- cache_key, over the hex digest of SHA-256
unfoldable pub cache_key : (Text → Text) → Text → Text → Text
cache_key digest model text = model ++ 0 ∷ digest text

-- result[i] for each text, the indices without one, and the cache after the lookups
pub record Scan (Vec : Type 0) : Type 0 where
  pub results : List (Option Vec)
  pub missing : List ℕ
  pub cache : LruCache (List Vec)

-- [texts[i] for i in missing]: the indices come from `enumerate(texts)`, so each is in range.
pub texts_at : List Text → List ℕ → List Text
texts_at texts [] = []
texts_at texts (i ∷ missing) = elim (get_elem? texts i) [
  | none ↦ texts_at texts missing
  | some text ↦ text ∷ texts_at texts missing
]

module _ {Vec : Type 0} (digest : Text → Text) where
  -- hit[0]
  abbrev pub first : List Vec → Result Vec
  first [] = err (index_error "list index out of range")
  first (v ∷ vs) = ok v

  -- What one lookup adds before the rest of the scan
  pub scan_one : ℕ → Option (List Vec) → Result (Scan Vec) → Result (Scan Vec)
  scan_one i none rest = do
    s ← rest
    ok (record s { results = none ∷ s.results; missing = i ∷ s.missing })
  scan_one i (some hit) rest = do
    v ← first hit
    s ← rest
    ok (record s { results = some v ∷ s.results })

  -- The first loop of CachedLLMClient.embed, from the index `i`
  pub scan : LruCache (List Vec) → Text → ℕ → List Text → Result (Scan Vec)
  unfolding scan_one cache_key
  scan c model i [] = ok (record { results = []; missing = []; cache = c })
  scan c model i (text ∷ texts) =
      let (c', hit) = get c (cache_key digest model text) in
      scan_one i hit (scan c' model (suc i) texts)

  store_one : LruCache (List Vec) → Text → Option Text → Vec → LruCache (List Vec)
  unfolding cache_key
  store_one c model none v = c
  store_one c model (some text) v = put c (cache_key digest model text) (v ∷ [])

  -- The second loop, over zip(missing, vectors)
  pub fill :
      LruCache (List Vec)
      → Text
      → List Text
      → List (Option Vec)
      → List ℕ
      → List Vec
      → List (Option Vec) × LruCache (List Vec)
  unfolding store_one
  fill c model texts results (i ∷ missing) (v ∷ vectors) =
      fill (store_one c model (get_elem? texts i) v) model texts (set results i (some v)) missing
        vectors
  fill c model texts results _ _ = (results, c)

  -- [v for v in result if v is not None]
  pub present : List (Option Vec) → List Vec
  present [] = []
  present (none ∷ vs) = present vs
  present (some v ∷ vs) = v ∷ present vs

  -- What the wrapped client's vectors for the missing texts make of a scan, or its exception
  pub completed :
      List Text → Text → Scan Vec → Result (List Vec) → Result (List Vec) × LruCache (List Vec)
  unfolding fill present
  completed texts model s (ok asked) =
      let (results, c') = fill s.cache model texts s.results s.missing asked in
      (ok (present results), c')
  completed texts model s (err e) = (err e, s.cache)

  -- CachedLLMClient.embed after its first loop, over the wrapped client's `embed(texts, model)`
  pub complete :
      (List Text → Text → Result (List Vec))
      → List Text
      → Text
      → Scan Vec
      → Result (List Vec) × LruCache (List Vec)
  unfolding completed texts_at present
  complete inner texts model s =
      if is_empty s.missing
      then (ok (present s.results), s.cache)
      else completed texts model s (inner (texts_at texts s.missing) model)

  -- The lookup of a list that is empty, which `embed` never stores, is the one that raises; the
  -- order of use is then left as it was.
  pub after_scan :
      (List Text → Text → Result (List Vec))
      → LruCache (List Vec)
      → List Text
      → Text
      → Result (Scan Vec)
      → Result (List Vec) × LruCache (List Vec)
  unfolding complete
  after_scan inner c texts model (ok s) = complete inner texts model s
  after_scan inner c texts model (err e) = (err e, c)

  -- CachedLLMClient.embed
  pub embed :
      (List Text → Text → Result (List Vec))
      → LruCache (List Vec)
      → List Text
      → Text
      → Result (List Vec) × LruCache (List Vec)
  unfolding scan after_scan
  embed inner c texts model = after_scan inner c texts model (scan c model 0 texts)
