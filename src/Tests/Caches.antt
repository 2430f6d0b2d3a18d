-- ===== src/Tests/Caches.antt =====
-- Runs of the embedding cache (protoprompt/cache.py).
use protoprompt.Prelude.{
  ℕ, ◌+◌, ◌≡◌, refl, List, [], ◌∷◌, map, Text, codes, text_eqb, length, arith, pos, Result, ok, err,
  value_error,
}
use protoprompt.Dict
use protoprompt.Cache.{LruCache, init, get, put}
use protoprompt.Cache.Bounded.{IsValid}
use protoprompt.Cache.Lookup.{Call, get_call, put_call, run, history, recent, run-recent}
use protoprompt.Cache.Client.Calls.{Answered, embeds, embeds-transparent}
use protoprompt.Tests.Encoding.{text_digest, length-text_digest, text_digest-injective}

-- A full cache
abbrev full : LruCache ℕ
full = record { capacity = 2; entries = (codes "a", 1) ∷ (codes "b", 2) ∷ [] }

full-IsValid : IsValid full
unfolding Dict.get text_eqb
full-IsValid = record { positive = omega arith; bounded = omega arith; unique = (refl, (refl, tt)) }

put_runs : (put full (codes "c") 3).entries ≡ (codes "b", 2) ∷ (codes "c", 3) ∷ []
unfolding put Dict.remove Dict.put text_eqb
put_runs = refl

abbrev some_calls : List (Call ℕ)
some_calls =
    put_call (codes "a") 1
    ∷ put_call (codes "b") 2
    ∷ get_call (codes "a")
    ∷ put_call (codes "c") 3
    ∷ []

run_runs : (run (init (pos 2)) some_calls).entries ≡ (codes "a", 1) ∷ (codes "c", 3) ∷ []
unfolding run init get put Dict.remove Dict.put Dict.get text_eqb
run_runs = refl

run-recent_example :
    (run (init (pos 2)) some_calls).entries
    ≡ recent (init {V = ℕ} (pos 2)).capacity (history (init {V = ℕ} (pos 2)).capacity [] some_calls)
run-recent_example = run-recent (pos 2) some_calls

-- A model whose vector of a text is its length, next to that of the model's name
abbrev lengths : Text → Text → ℕ
lengths model text = length model + length text

-- It raises for a single text that is empty.
abbrev embed_lengths : List Text → Text → Result (List ℕ)
embed_lengths ([] ∷ []) model = err (value_error "empty text")
embed_lengths texts model = ok (map (lengths model) texts)

embed_lengths-pointwise :
    (texts : List Text) (model : Text) (vs : List ℕ)
    → embed_lengths texts model ≡ ok vs
    → vs ≡ map (lengths model) texts
embed_lengths-pointwise [] model vs h = cc
embed_lengths-pointwise ([] ∷ []) model vs h = cc
embed_lengths-pointwise ([] ∷ t ∷ ts) model vs h = cc
embed_lengths-pointwise ((x ∷ t) ∷ ts) model vs h = cc

abbrev asked : List Text
asked = codes "one" ∷ codes "three" ∷ codes "one" ∷ []

abbrev embed_calls : List (List Text × Text)
embed_calls = (asked, codes "m") ∷ (codes "one" ∷ [] ∷ [], codes "m") ∷ (asked, codes "other") ∷ []

embeds-transparent_example :
    Answered lengths embed_lengths embed_calls
      (embeds text_digest embed_lengths (init (pos 4)) embed_calls)
embeds-transparent_example =
    embeds-transparent text_digest lengths embed_lengths length-text_digest text_digest-injective
      embed_lengths-pointwise (pos 4) embed_calls
