-- ===== src/Tests/Chunks.antt =====
-- Runs of the chunkers (protoprompt/rag/chunker.py) on small texts.
use protoprompt.Prelude.{
  suc, ◌+◌, nat_eqb, if◌then◌else◌, ℕ, max, ◌≡◌, refl, some, List, [], ◌∷◌, Text, codes, All,
  length, arith, pos, pos_part,
}
use protoprompt.PyText.{strip}
use mathlib.Core.Option
use protoprompt.Chunker.{
  FixedSizeChunker, fixed_split, paragraph_split, paragraphs, TokenChunker, pack, token_split,
}
use protoprompt.Chunker.Windows.{IsValid, Fits, rejoin, fixed_split-covers}
use protoprompt.Chunker.Paragraphs.{concat, paragraph_split-pieces}
use protoprompt.Chunker.Words.{fresh_words, pack-fresh_words}

abbrev small_chunker : FixedSizeChunker
small_chunker = record { size = 4; overlap = 1 }

small_chunker-IsValid : IsValid small_chunker
small_chunker-IsValid = record { smaller = omega arith }

fixed_split_runs :
    fixed_split small_chunker (codes " abcdefgh ")
    ≡ some (codes "abcd" ∷ codes "defg" ∷ codes "gh" ∷ [])
unfolding fixed_split
fixed_split_runs = refl

fixed_split-covers_example :
    (chunks : List Text) × (fixed_split small_chunker (codes " abcdefgh ") ≡ some chunks)
    × (rejoin 1 chunks ≡ strip (codes " abcdefgh "))
    × All (Fits 4) chunks
fixed_split-covers_example =
    fixed_split-covers small_chunker (codes " abcdefgh ") small_chunker-IsValid

abbrev two_paragraphs : Text
two_paragraphs = codes "abcdef\n\ngh"

paragraph_split_runs :
    paragraph_split (pos 4) two_paragraphs ≡ some (codes "abcd" ∷ codes "ef" ∷ codes "gh" ∷ [])
unfolding paragraph_split Option.bind
paragraph_split_runs = refl

paragraph_split-pieces_example :
    (chunks : List Text) × (paragraph_split (pos 4) two_paragraphs ≡ some chunks)
    × (concat chunks ≡ concat (paragraphs two_paragraphs))
    × All (Fits (max 1 (pos_part (pos 4)))) chunks
paragraph_split-pieces_example = paragraph_split-pieces (pos 4) two_paragraphs

-- A chunker that counts a token for each letter
abbrev letters : ℕ → TokenChunker
letters overlap = record { count = length; chunk_tokens = 5; overlap = overlap }

abbrev four_words : List Text
four_words = codes "ab" ∷ codes "cd" ∷ codes "e" ∷ codes "fgh" ∷ []

token_split_runs :
    token_split (letters 1) (codes "ab cd e fgh") ≡ codes "ab cd e" ∷ codes "e fgh" ∷ []
unfolding token_split
token_split_runs = refl

pack-fresh_words_example : fresh_words 1 0 (pack (letters 1) [] 0 four_words) ≡ four_words
pack-fresh_words_example = pack-fresh_words (letters 1) four_words

-- A counter that counts the pieces between spaces
abbrev count_spaces : Text → ℕ
count_spaces [] = 0
count_spaces (x ∷ s) = (if nat_eqb x 32 then 1 else 0) + count_spaces s

abbrev pieces : TokenChunker
pieces = record { count = λ t. suc (count_spaces t); chunk_tokens = 3; overlap = 1 }
