-- ===== src/Chunker/Words.antt =====
-- TokenChunker (protoprompt/rag/chunker.py): its words, and what its chunks cost.
use protoprompt.Prelude.{
  ℕ, zero, suc, ◌+◌, ◌-◌, ◌≤◌, ◌<◌, min, ◌≡◌, refl, sym, ap, ◌⊎◌, inl, inr, List, [], ◌∷◌, ◌++◌,
  append_assoc, Text, arith, length, drop, Bool-cases, ltb, length-drop, length-append, drop-append,
  sum_by,
}
use protoprompt.PyText.{join}
use protoprompt.Chunker.{space, TokenChunker, last_words, word_tokens, carried_tokens, pack}

-- The words of a list of chunks, each less the words that it carries over from the chunk before,
-- of which there are at most `overlap`.
unfoldable pub fresh_words : ℕ → ℕ → List (List Text) → List Text
fresh_words overlap before [] = []
fresh_words overlap before (g ∷ gs) =
    drop (min overlap before) g ++ fresh_words overlap (length g) gs

length-last_words : (n : ℕ) (cur : List Text) → length (last_words n cur) ≡ min n (length cur)
unfolding last_words
length-last_words zero cur = omega arith
length-last_words (suc n) cur = omega (arith, length-drop (length cur - suc n) cur)

drop-length-append : (xs ys : List Text) (n : ℕ) → n ≡ length xs → drop n (xs ++ ys) ≡ ys
drop-length-append [] ys zero e = refl
drop-length-append [] ys (suc n) e = absurd (omega arith)
drop-length-append (x ∷ xs) ys zero e = absurd (omega arith)
drop-length-append (x ∷ xs) ys (suc n) e = drop-length-append xs ys n (omega arith)

-- The chunks from a state hold, beyond what the first carries over, the rest of the words.
pack-fresh :
    (c : TokenChunker) (before tokens : ℕ) (cur words : List Text)
    → min c.overlap before < length cur
    → fresh_words c.overlap before (pack c cur tokens words)
      ≡ drop (min c.overlap before) cur ++ words
unfolding pack fresh_words
pack-fresh c before tokens [] [] h = absurd (omega arith)
pack-fresh c before tokens [] (w ∷ ws) h = absurd (omega arith)
pack-fresh c before tokens (x ∷ cur) [] h = refl
pack-fresh c before tokens (x ∷ cur) (w ∷ ws) h =
    elim (Bool-cases (ltb c.chunk_tokens (tokens + word_tokens c w))) [
      | inl close ↦
          let carry = last_words c.overlap (x ∷ cur) in
          let carried = length-last_words c.overlap (x ∷ cur) in
          rw (
            close,
            pack-fresh c (length (x ∷ cur)) (carried_tokens c (x ∷ cur) + word_tokens c w)
                (carry ++ w ∷ []) ws (omega (arith, carried, length-append carry (w ∷ []))),
            drop-length-append carry (w ∷ []) (min c.overlap (length (x ∷ cur))) (sym carried),
          )
      | inr more ↦ rw (
        more,
        pack-fresh c before (tokens + word_tokens c w) (x ∷ cur ++ w ∷ []) ws
            (omega (arith, length-append cur (w ∷ []))),
        drop-append (min c.overlap before) (x ∷ cur) (w ∷ []) (omega arith),
        append_assoc,
      )
    ]

-- No word is lost, repeated or moved: the words of the chunks, each chunk less the words that it
-- carries over from the one before, are the words that came in, whatever counter is used.
pub pack-fresh_words :
    (c : TokenChunker) (words : List Text) → fresh_words c.overlap 0 (pack c [] 0 words) ≡ words
unfolding pack fresh_words
pack-fresh_words c [] = refl
pack-fresh_words c (w ∷ ws) =
    rw (pack-fresh c 0 (0 + word_tokens c w) (w ∷ []) ws (omega arith))
      (ap (λ n. drop n (w ∷ []) ++ ws) {x = min c.overlap 0} {y = 0} (omega arith))

-- The tokens of a chunk, one word at a time
abbrev pub chunk_cost : TokenChunker → List Text → ℕ
chunk_cost c = sum_by (word_tokens c)

-- A chunk whose words together cost no more than the budget, or one that is no more than what it
-- carries over and one word
abbrev Affordable : TokenChunker → List Text → Type 0
Affordable c g = (0 < length g) × ((chunk_cost c g ≤ c.chunk_tokens) ⊎ (length g ≤ c.overlap + 1))

-- A chunk whose text counts no more than the budget, or one that is no more than what it carries
-- over and one word
abbrev pub WithinBudget : TokenChunker → List Text → Type 0
WithinBudget c g = (c.count (join space g) ≤ c.chunk_tokens) ⊎ (length g ≤ c.overlap + 1)
