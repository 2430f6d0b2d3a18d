-- ===== src/Chunker/Paragraphs.antt =====
-- ParagraphChunker (protoprompt/rag/chunker.py): its chunks and its paragraphs.
use protoprompt.Prelude.{
  map, ℕ, zero, suc, ◌+◌, ◌<◌, min, max, ◌≡◌, refl, sym, ap, append-nil, ◌∙◌, inl, inr, List, [],
  ◌∷◌, ◌++◌, append_assoc, Option, none, some, Text, arith, All, All-append, length, Bool-cases,
  not, leb, leb→le, nat_eqb, select, ℤ, pos_part, if◌then◌else◌,
}
use protoprompt.PyText.{is_empty, strip}
use protoprompt.Chunker.{
  windows, split_long_from, split_long, chunk_paragraphs, split_gap, paragraphs, paragraph_split,
}
use protoprompt.Chunker.Windows.{Fits, tails, rejoin, windows-Covers}
use mathlib.Core.Option
use mathlib.Core.Path.{ap₂}

unfoldable pub concat : List Text → Text
concat [] = []
concat (c ∷ cs) = c ++ concat cs

concat-append : (xs ys : List Text) → concat (xs ++ ys) ≡ concat xs ++ concat ys
unfolding concat
concat-append [] ys = refl
concat-append (x ∷ xs) ys = rw (concat-append xs ys, append_assoc)

tails-zero : (cs : List Text) → tails 0 cs ≡ concat cs
unfolding tails concat
tails-zero [] = refl
tails-zero (c ∷ cs) = ap (◌++◌ c) (tails-zero cs)

rejoin-zero : (cs : List Text) → rejoin 0 cs ≡ concat cs
unfolding rejoin concat
rejoin-zero [] = refl
rejoin-zero (c ∷ cs) = ap (◌++◌ c) (tails-zero cs)

-- Cutting where the last piece ended is cutting windows of which none overlap.
split_long_from-eq-windows :
    (fuel limit : ℕ) (para : Text) (start : ℕ)
    → split_long_from fuel limit para start ≡ windows fuel limit limit para start
unfolding split_long_from windows
split_long_from-eq-windows zero limit para start = refl
split_long_from-eq-windows (suc fuel) limit para start =
    elim (Bool-cases (nat_eqb (min (start + limit) (length para)) (length para))) [
      | inl done ↦ rw done
      | inr more ↦
          let e : min (start + limit) (length para) ≡ start + limit = ground arith in
          rw (more, e, split_long_from-eq-windows fuel limit para (start + limit))
    ]

abbrev Pieces : ℕ → Text → Option (List Text) → Type 0
Pieces limit text r =
    (chunks : List Text) × (r ≡ some chunks) × (concat chunks ≡ text) × All (Fits limit) chunks

split_long-Pieces :
    (limit : ℕ) (para : Text)
    → 0 < limit
    → 0 < length para
    → Pieces limit para (split_long limit para)
unfolding split_long
split_long-Pieces limit para h k =
    let covers =
      windows-Covers para limit limit 0 h (omega arith) (suc (length para)) 0 k (omega arith) in
    (
      covers.chunks,
      split_long_from-eq-windows (suc (length para)) limit para 0 ∙ covers.returned,
      sym (rejoin-zero covers.chunks) ∙ covers.whole,
      covers.fit,
    )

para-Pieces :
    (limit : ℕ) (para : Text)
    → 0 < limit
    → 0 < length para
    → Pieces limit para
        (if leb (length para) limit then some (para ∷ []) else split_long limit para)
unfolding concat
para-Pieces limit para h k = elim (Bool-cases (leb (length para) limit)) [
  | inl short ↦ (para ∷ [], rw short, append-nil para, ((k, leb→le _ _ short), tt))
  | inr long ↦ rw long (split_long-Pieces limit para h k)
]

chunk_paragraphs-Pieces :
    (limit : ℕ) (paras : List Text)
    → 0 < limit
    → All (λ p. 0 < length p) paras
    → Pieces limit (concat paras) (chunk_paragraphs limit paras)
unfolding chunk_paragraphs concat Option.bind
chunk_paragraphs-Pieces limit [] h all = ([], refl, refl, tt)
chunk_paragraphs-Pieces limit (para ∷ paras) h all =
    let (now, returned, same, fit) = para-Pieces limit para h all.0 in
    let (later, returned', same', fit') = chunk_paragraphs-Pieces limit paras h all.1 in
    (
      now ++ later,
      rw (returned, returned'),
      concat-append now later ∙ ap₂ ◌++◌ same same',
      All-append (Fits limit) now later fit fit',
    )

select-nonempty : (ps : List Text) → All (λ p. 0 < length p) (select (λ p. not (is_empty p)) ps)
select-nonempty [] = tt
select-nonempty ([] ∷ ps) = select-nonempty ps
select-nonempty ((c ∷ p) ∷ ps) = (omega arith, select-nonempty ps)

-- Whatever the text and the limit asked for, ParagraphChunker.split returns chunks that are not
-- empty and no longer than max(1, max_chars), and together they are the paragraphs, in order.
pub paragraph_split-pieces :
    (max_chars : ℤ) (text : Text)
    → (chunks : List Text) × (paragraph_split max_chars text ≡ some chunks)
      × (concat chunks ≡ concat (paragraphs text))
      × All (Fits (max 1 (pos_part max_chars))) chunks
unfolding paragraph_split paragraphs
paragraph_split-pieces max_chars text =
    chunk_paragraphs-Pieces (max 1 (pos_part max_chars)) _ (omega arith)
      (select-nonempty (map strip (split_gap [] none text)))
