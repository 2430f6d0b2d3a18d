-- ===== src/Chunker/Windows.antt =====
-- FixedSizeChunker (protoprompt/rag/chunker.py): its loop over the windows of a text.
use protoprompt.Prelude.{
  ℕ, zero, suc, ◌+◌, ◌-◌, ◌≤◌, ◌<◌, min, ◌≡◌, refl, sym, ap, ◌∙◌, inl, inr, List, [], ◌∷◌, ◌++◌,
  append-nil, Option, some, Text, arith, All, length, take, drop, slice, Bool-cases, nat_eqb,
  nat_eqb_iff, leb, lt→ltb, leb→le, take-append-drop, length-take, length-drop, drop-drop,
  drop-append, take_of_length-le, ℤ, ok,
}
use protoprompt.PyText.{strip}
use protoprompt.Chunker.{FixedSizeChunker, fixed_init, windows, split_stripped, fixed_split}
use mathlib.Core.Option

-- What a later chunk adds to the text: all but its overlap with the chunk before.
unfoldable pub tails : ℕ → List Text → Text
tails overlap [] = []
tails overlap (c ∷ cs) = drop overlap c ++ tails overlap cs

-- The text that a list of overlapping chunks covers
unfoldable pub rejoin : ℕ → List Text → Text
unfolding tails
rejoin overlap [] = []
rejoin overlap (c ∷ cs) = c ++ tails overlap cs

-- What the constructor guarantees
pub record IsValid (c : FixedSizeChunker) : Type 0 where
  pub smaller : c.overlap < c.size

abbrev pub Fits : ℕ → Text → Type 0
Fits size chunk = (0 < length chunk) × (length chunk ≤ size)

pub fixed_init-IsValid :
    (chunk_size overlap : ℤ) {c : FixedSizeChunker}
    → fixed_init chunk_size overlap ≡ ok c
    → IsValid c
unfolding fixed_init
fixed_init-IsValid chunk_size overlap h = ground arith

module _ (text : Text) (start size : ℕ) where
  -- A window that ends inside the text
  pub slice-inner :
      start + size < length text
      → slice text start (min (start + size) (length text)) ≡ take size (drop start text)
  slice-inner h =
      let e : min (start + size) (length text) - start ≡ size = omega arith in
      ap (λ n. take n (drop start text)) e

  -- A window that ends with the text
  pub slice-last :
      min (start + size) (length text) ≡ length text
      → slice text start (min (start + size) (length text)) ≡ drop start text
  slice-last h = take_of_length-le _ (drop start text) (omega (arith, length-drop start text))

  inner_cover :
      start + size < length text
      → (overlap : ℕ) → overlap ≤ size
      → drop overlap (take size (drop start text)) ++ drop (start + size) text
        ≡ drop (start + overlap) text
  inner_cover h overlap le =
      ap (◌++◌ (drop overlap (take size (drop start text))))
        (sym (drop-drop size start _ text (omega arith)))
      ∙ sym (
          drop-append overlap (take size (drop start text)) (drop size (drop start text))
            (omega (arith, length-take size (drop start text), length-drop start text)))
      ∙ ap (drop overlap) (take-append-drop size (drop start text))
      ∙ drop-drop overlap start (start + overlap) text (omega arith)

pub record Covers (text : Text) (start size overlap : ℕ) (r : Option (List Text)) : Type 0 where
  pub chunks : List Text
  pub returned : r ≡ some chunks
  pub rest : tails overlap chunks ≡ drop (start + overlap) text
  pub whole : rejoin overlap chunks ≡ drop start text
  pub fit : All (Fits size) chunks

module _ (text : Text) (size step overlap : ℕ) (pos_step : 0 < step)
    (sum : step + overlap ≡ size) where
  last-Covers :
      (start : ℕ)
      → start < length text
      → (chunk : Text) → length chunk ≤ size
      → chunk ≡ drop start text
      → Covers text start size overlap (some (chunk ∷ []))
  unfolding rejoin
  last-Covers start h chunk fits e = record {
    chunks = chunk ∷ [];
    returned = refl;
    rest =
        append-nil (drop overlap chunk)
        ∙ ap (drop overlap) e
        ∙ drop-drop overlap start _ text (omega arith);
    whole = append-nil chunk ∙ e;
    fit = ((omega (arith, ap length e, length-drop start text), fits), tt);
  }

  inner-Covers :
      (start : ℕ)
      → start + size < length text
      → (r : Option (List Text)) → Covers text (start + step) size overlap r
      → Covers text start size overlap
          (Option.map (◌∷◌ (slice text start (min (start + size) (length text)))) r)
  unfolding rejoin
  inner-Covers start h r next =
      let e : start + step + overlap ≡ start + size = omega arith in
      let rest : tails overlap next.chunks ≡ drop (start + size) text =
        next.rest ∙ ap (λ n. drop n text) e in
      rw (next.returned, slice-inner text start size h)
        (record {
          chunks = take size (drop start text) ∷ next.chunks;
          returned = refl;
          rest =
              ap (◌++◌ (drop overlap (take size (drop start text)))) rest
              ∙ inner_cover text start size h overlap (omega arith);
          whole =
              ap (◌++◌ (take size (drop start text)))
                (rest ∙ sym (drop-drop size start _ text (omega arith)))
              ∙ take-append-drop size (drop start text);
          fit =
              (omega (arith, length-take size (drop start text), length-drop start text), next.fit);
        })

  -- From any position inside the text, enough fuel gives chunks that cover the rest of it.
  pub windows-Covers :
      (fuel start : ℕ)
      → start < length text
      → length text ≤ start + fuel
      → Covers text start size overlap (windows fuel size step text start)
  unfolding windows
  windows-Covers zero start h f = absurd (omega arith)
  windows-Covers (suc fuel) start h f =
      elim (Bool-cases (nat_eqb (min (start + size) (length text)) (length text))) [
        | inl done ↦
            rw (lt→ltb start (length text) h, done)
              (last-Covers start h _
                (omega
                  (arith, length-take (min (start + size) (length text) - start) (drop start text)))
                (slice-last text start size ((nat_eqb_iff _ _).0 done)))
        | inr more ↦
            rw (lt→ltb start (length text) h, more)
              (inner-Covers start (ground arith) (windows fuel size step text (start + step))
                (windows-Covers fuel (start + step) (ground arith) (omega arith)))
      ]

split_stripped-covers :
    (c : FixedSizeChunker) (text : Text)
    → IsValid c
    → (chunks : List Text) × (split_stripped c text ≡ some chunks)
      × (rejoin c.overlap chunks ≡ text)
      × All (Fits c.size) chunks
unfolding split_stripped rejoin
split_stripped-covers c [] v = ([], refl, refl, tt)
split_stripped-covers c (a ∷ s) v = elim (Bool-cases (leb (length (a ∷ s)) c.size)) [
  | inl short ↦ ((a ∷ s) ∷ [], rw short, append-nil (a ∷ s), ((omega arith, leb→le _ _ short), tt))
  | inr long ↦
      let covers =
        windows-Covers (a ∷ s) c.size (c.size - c.overlap) c.overlap (omega (arith, v.smaller))
          (omega (arith, v.smaller)) (length (a ∷ s)) 0 (omega arith) (omega arith) in
      (covers.chunks, rw long covers.returned, covers.whole, covers.fit)
]

-- Whatever the text, a valid chunker returns chunks that are not empty and no longer than the
-- size, and the first chunk followed by each later one less its overlap is the stripped text.
pub fixed_split-covers :
    (c : FixedSizeChunker) (raw : Text)
    → IsValid c
    → (chunks : List Text) × (fixed_split c raw ≡ some chunks)
      × (rejoin c.overlap chunks ≡ strip raw)
      × All (Fits c.size) chunks
unfolding fixed_split
fixed_split-covers c raw v = split_stripped-covers c (strip raw) v
