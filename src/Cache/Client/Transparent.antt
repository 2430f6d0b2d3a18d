-- ===== src/Cache/Client/Transparent.antt =====
-- One call of CachedLLMClient.embed (protoprompt/cache.py) on a cache whose entries are right.
use protoprompt.Prelude.{
  ℕ, suc, ◌≡◌, refl, sym, ap, ◌∙◌, inl, inr, Option, none, some, List, [], ◌∷◌, ◌++◌, append_assoc,
  map, Text, length, All, Error, Result, err, ◌⊎◌, get_elem?, set, arith, ok, Option-cases,
  get_elem?-append_length, set-append_length, length-append,
}
use protoprompt.Prelude.{Result-cases}
use protoprompt.Cache.{LruCache, get, put}
use protoprompt.Cache.Stored.{get-Stored, get-sound, put-Stored}
use protoprompt.Cache.Client.Key.{cache_key-injective}
use mathlib.Core.Path.{ap₂}
use protoprompt.Cache.Client.{
  Scan, cache_key, scan, texts_at, store_one, fill, present, completed, complete, after_scan, embed,
}

module _ {Vec : Type 0} (digest : Text → Text) (vector : Text → Text → Vec) where
  -- An entry for the key of a model and a text holds that model's vector of the text.
  abbrev pub Right : Text × List Vec → Type 0
  Right entry =
      (model text : Text) → entry.0 ≡ cache_key digest model text → entry.1 ≡ vector model text ∷ []

  -- The results and missing indices of a scan of the texts that stand from the index `i` on
  abbrev Scanned : Text → ℕ → List Text → List (Option Vec) → List ℕ → Type 0
  Scanned model i [] [] [] = Unit
  Scanned model i (t ∷ ts) (some v ∷ r) m = (v ≡ vector model t) × Scanned model (suc i) ts r m
  Scanned model i (t ∷ ts) (none ∷ r) (j ∷ m) = (j ≡ i) × Scanned model (suc i) ts r m
  Scanned _ _ _ _ _ = ⊥

  scan-Scanned :
      (model : Text) (c : LruCache (List Vec)) (i : ℕ) (texts : List Text)
      → All Right c.entries
      → (s : Scan Vec) × (scan digest c model i texts ≡ ok s)
        × Scanned model i texts s.results s.missing
        × All Right s.cache.entries
  unfolding scan
  scan-Scanned model c i [] all = (record { results = []; missing = []; cache = c }, refl, tt, all)
  scan-Scanned model c i (t ∷ ts) all =
      let key = cache_key digest model t in
      let (s, returned, scanned, kept) =
        scan-Scanned model (get c key).0 (suc i) ts (get-Stored Right c key all) in
      elim (Option-cases (get c key).1) [
        | inl miss ↦ (
          record s { results = none ∷ s.results; missing = i ∷ s.missing },
          rw (miss, returned),
          (refl, scanned),
          kept,
        )
        | inr (hit, found) ↦
            let right = get-sound Right c key hit all found model t refl in
            (
              record s { results = some (vector model t) ∷ s.results },
              rw (found, right, returned),
              (refl, scanned),
              kept,
            )
      ]

-- The texts without a result, in order
abbrev missed : {Vec : Type 0} → List Text → List (Option Vec) → List Text
missed (t ∷ ts) (none ∷ r) = t ∷ missed ts r
missed (t ∷ ts) (some v ∷ r) = missed ts r
missed _ _ = []

shift {ℓ} :
    {A : Type ℓ} (pre ts : List A) (t : A) (whole : List A)
    → whole ≡ pre ++ t ∷ ts
    → whole ≡ (pre ++ t ∷ []) ++ ts
shift pre ts t whole e = e ∙ sym (append_assoc pre (t ∷ []) ts)

length-snoc {ℓ} :
    {A : Type ℓ} (pre : List A) (t : A) (i : ℕ) → i ≡ length pre → suc i ≡ length (pre ++ t ∷ [])
length-snoc pre t i e = omega (arith, length-append pre (t ∷ []))

found {ℓ} :
    {A : Type ℓ} (pre ts whole : List A) (t : A) (j : ℕ)
    → j ≡ length pre
    → whole ≡ pre ++ t ∷ ts
    → get_elem? whole j ≡ some t
found pre ts whole t j e w = rw w (get_elem?-append_length pre ts t j e)

present-map :
    {Vec : Type 0} (digest : Text → Text) (vs : List Vec) → present digest (map some vs) ≡ vs
unfolding present
present-map digest [] = refl
present-map digest (v ∷ vs) = ap (◌∷◌ v) (present-map digest vs)

module _ {Vec : Type 0} (digest : Text → Text) (vector : Text → Text → Vec)
    (same_length : (s t : Text) → length (digest s) ≡ length (digest t))
    (injective : (s t : Text) → digest s ≡ digest t → s ≡ t) (model : Text) where
  texts_at-missed :
      (i : ℕ) (pre ts whole : List Text) (r : List (Option Vec)) (m : List ℕ)
      → Scanned digest vector model i ts r m
      → i ≡ length pre
      → whole ≡ pre ++ ts
      → texts_at whole m ≡ missed ts r
  unfolding texts_at
  texts_at-missed i pre [] whole [] [] sc e w = refl
  texts_at-missed i pre (t ∷ ts) whole (some v ∷ r) m sc e w =
      texts_at-missed (suc i) (pre ++ t ∷ []) ts whole r m sc.1 (length-snoc pre t i e)
        (shift pre ts t whole w)
  texts_at-missed i pre (t ∷ ts) whole (none ∷ r) (j ∷ m) sc e w =
      rw (found pre ts whole t j (sc.0 ∙ e) w, texts_at)
        (ap (◌∷◌ t) (
          texts_at-missed (suc i) (pre ++ t ∷ []) ts whole r m sc.1 (length-snoc pre t i e)
            (shift pre ts t whole w)))
  texts_at-missed i pre ts whole r m sc e w = absurd sc

  store-Right :
      (c : LruCache (List Vec)) (t : Text)
      → All (Right digest vector) c.entries
      → All (Right digest vector) (put c (cache_key digest model t) (vector model t ∷ [])).entries
  store-Right c t all =
      put-Stored (Right digest vector) c (cache_key digest model t) (vector model t ∷ [])
        (λ n text e.
          let same = cache_key-injective digest same_length injective model n t text e in
          ap₂ (λ a b. vector a b ∷ []) same.0 same.1)
        all

  fill_complete :
      (c : LruCache (List Vec)) (i : ℕ) (pre ts whole : List Text)
      (before r results : List (Option Vec)) (m : List ℕ)
      → Scanned digest vector model i ts r m
      → i ≡ length pre
      → i ≡ length before
      → whole ≡ pre ++ ts
      → results ≡ before ++ r
      → All (Right digest vector) c.entries
      → ((fill digest c model whole results m (map (vector model) (missed ts r))).0
          ≡ before ++ map some (map (vector model) ts))
        × All
            (Right digest vector)
            (fill digest c model whole results m (map (vector model) (missed ts r))).1.entries
  unfolding fill
  fill_complete c i pre [] whole before [] results [] sc e l w q all = (q, all)
  fill_complete c i pre (t ∷ ts) whole before (some v ∷ r) results m sc e l w q all =
      let ih =
        fill_complete c (suc i) (pre ++ t ∷ []) ts whole (before ++ some v ∷ []) r results m sc.1
          (length-snoc pre t i e) (length-snoc before (some v) i l) (shift pre ts t whole w)
          (shift before r (some v) results q) all in
      (
        ih.0
            ∙ append_assoc before (some v ∷ []) _
            ∙ ap (λ x. before ++ some x ∷ map some (map (vector model) ts)) sc.0,
        ih.1,
      )
  fill_complete c i pre (t ∷ ts) whole before (none ∷ r) results (j ∷ m) sc e l w q all =
      let x = some (vector model t) in
      let ih =
        fill_complete (put c (cache_key digest model t) (vector model t ∷ [])) (suc i)
          (pre ++ t ∷ []) ts whole (before ++ x ∷ []) r (set results j x) m sc.1
          (length-snoc pre t i e) (length-snoc before x i l) (shift pre ts t whole w)
          (shift before r x (set results j x)
            (ap (λ z. set z j x) q ∙ set-append_length before r none x j (sc.0 ∙ l)))
          (store-Right c t all) in
      rw (found pre ts whole t j (sc.0 ∙ e) w, store_one)
        (ih.0 ∙ append_assoc before (x ∷ []) _, ih.1)
  fill_complete c i pre ts whole before r results m sc e l w q all = absurd sc

  all-present :
      (i : ℕ) (ts : List Text) (r : List (Option Vec))
      → Scanned digest vector model i ts r []
      → r ≡ map some (map (vector model) ts)
  all-present i [] [] sc = refl
  all-present i (t ∷ ts) (some v ∷ r) sc =
      ap₂ (λ x xs. some x ∷ xs) sc.0 (all-present (suc i) ts r sc.1)
  all-present i ts r sc = absurd sc

  -- What a call must give: the vectors of its texts, or what the client raised for some of them,
  -- and a cache whose entries are right.
  abbrev pub IsAnswer :
      (List Text → Text → Result (List Vec))
      → List Text
      → Result (List Vec) × LruCache (List Vec)
      → Type 0
  IsAnswer inner texts answer =
      ((answer.0 ≡ ok (map (vector model) texts))
        ⊎ ((e : Error) × (asked : List Text) × (inner asked model ≡ err e) × (answer.0 ≡ err e)))
      × All (Right digest vector) answer.1.entries

  complete-All :
      (inner : List Text → Text → Result (List Vec))
      → ((ts : List Text) (n : Text) (vs : List Vec) → inner ts n ≡ ok vs → vs ≡ map (vector n) ts)
      → (texts : List Text) (results : List (Option Vec)) (missing : List ℕ)
        (c : LruCache (List Vec))
      → Scanned digest vector model 0 texts results missing
      → All (Right digest vector) c.entries
      → IsAnswer inner texts (
          complete digest inner texts model
            (record { results = results; missing = missing; cache = c }))
  unfolding complete completed
  complete-All inner pointwise texts results [] c sc all = (
    inl (
        ap (λ r. ok (present digest r)) (all-present 0 texts results sc)
        ∙ ap ok (present-map digest _)),
    all,
  )
  complete-All inner pointwise texts results (j ∷ m) c sc all =
      elim (Result-cases (inner (texts_at texts (j ∷ m)) model)) [
        | inl (vs, returned) ↦
            let filled =
              fill_complete c 0 [] texts texts [] results results (j ∷ m) sc refl refl refl refl
                all in
            let these =
              pointwise (texts_at texts (j ∷ m)) model vs returned
              ∙ ap (map (vector model))
                  (texts_at-missed 0 [] texts texts results (j ∷ m) sc refl refl) in
            rw (returned, these)
              (
                inl (ap (λ r. ok (present digest r)) filled.0 ∙ ap ok (present-map digest _)),
                filled.1,
              )
        | inr (e, raised) ↦ rw raised (inr (e, texts_at texts (j ∷ m), raised, refl), all)
      ]

  -- Where the digests do not collide and are equally long, the vectors that the client returns are
  -- those of its texts one by one, and every entry of the cache holds its text's vector, `embed`
  -- returns the vector of every text, in order, or raises what the client raised; and afterwards
  -- every entry still holds its text's vector.
  pub embed-IsAnswer :
      (inner : List Text → Text → Result (List Vec))
      → ((ts : List Text) (n : Text) (vs : List Vec) → inner ts n ≡ ok vs → vs ≡ map (vector n) ts)
      → (c : LruCache (List Vec)) (texts : List Text) → All (Right digest vector) c.entries
      → IsAnswer inner texts (embed digest inner c texts model)
  unfolding embed after_scan
  embed-IsAnswer inner pointwise c texts all =
      let (s, returned, scanned, kept) = scan-Scanned digest vector model c 0 texts all in
      rw returned (complete-All inner pointwise texts s.results s.missing s.cache scanned kept)
