-- ===== src/Cache/Client/Calls.antt =====
-- Sequences of calls of CachedLLMClient.embed (protoprompt/cache.py) on one cache.
use protoprompt.Prelude.{◌≡◌, ◌⊎◌, List, [], ◌∷◌, map, Text, length, All, ℤ, Error, Result, ok, err}
use protoprompt.Cache.{LruCache, init}
use protoprompt.Cache.Client.{embed}
use protoprompt.Cache.Client.Transparent.{Right, embed-IsAnswer}

-- What one call of embed after the other gives, each with its texts and its model, on the cache that
-- the one before it left
pub embeds :
    {Vec : Type 0}
    → (Text → Text)
    → (List Text → Text → Result (List Vec))
    → LruCache (List Vec)
    → List (List Text × Text)
    → List (Result (List Vec))
unfolding embed
embeds digest inner c [] = []
embeds digest inner c ((texts, model) ∷ calls) =
    let (answer, c') = embed digest inner c texts model in
    let later = embeds digest inner c' calls in answer ∷ later

-- Every call got the vectors of its texts under its model, in order, or raised what the client
-- raised for some texts.
abbrev pub Answered :
    {Vec : Type 0}
    → (Text → Text → Vec)
    → (List Text → Text → Result (List Vec))
    → List (List Text × Text)
    → List (Result (List Vec))
    → Type 0
Answered vector inner [] [] = Unit
Answered vector inner ((texts, model) ∷ calls) (answer ∷ answers) =
    ((answer ≡ ok (map (vector model) texts))
      ⊎ ((e : Error) × (asked : List Text) × (inner asked model ≡ err e) × (answer ≡ err e)))
    × Answered vector inner calls answers
Answered _ _ _ _ = ⊥

module _ {Vec : Type 0} (digest : Text → Text) (vector : Text → Text → Vec)
    (inner : List Text → Text → Result (List Vec))
    (same_length : (s t : Text) → length (digest s) ≡ length (digest t))
    (injective : (s t : Text) → digest s ≡ digest t → s ≡ t)
    (pointwise : (texts : List Text) (model : Text) (vs : List Vec)
      → inner texts model ≡ ok vs
      → vs ≡ map (vector model) texts) where
  embeds-Answered :
      (c : LruCache (List Vec)) (calls : List (List Text × Text))
      → All (Right digest vector) c.entries
      → Answered vector inner calls (embeds digest inner c calls)
  unfolding embeds
  embeds-Answered c [] all = tt
  embeds-Answered c ((texts, model) ∷ calls) all =
      let (answered, right) =
        embed-IsAnswer digest vector same_length injective model inner pointwise c texts all in
      (answered, embeds-Answered (embed digest inner c texts model).1 calls right)

  -- On a fresh cache of any capacity, where the digests do not collide and are equally long and the
  -- vectors that the client returns for a list of texts are those of the texts one by one, every
  -- call of any sequence of calls returns the vectors of its texts under its model, in order, or
  -- raises what the client raised for some texts under that model.
  pub embeds-transparent :
      (capacity : ℤ) (calls : List (List Text × Text))
      → Answered vector inner calls (embeds digest inner (init capacity) calls)
  unfolding init
  embeds-transparent capacity calls = embeds-Answered (init capacity) calls tt
