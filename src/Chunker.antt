-- ===== src/Chunker.antt =====
-- The text chunkers of protoprompt/rag/chunker.py. The proofs are in the modules below.
pub mod Windows
pub mod Paragraphs
pub mod Words
use protoprompt.Prelude.{
  ℕ, zero, suc, ◌+◌, ◌-◌, min, max, Bool, true, false, ◌&&◌, not, Option, none, some, List, [], ◌∷◌,
  ◌++◌, map, Text, length, drop, slice, select, ltb, leb, nat_eqb, if◌then◌else◌, Result, ok,
  value_error, ◌>>=◌, ◌>>◌, raise_if, ℤ, pos, pos_part, int_leb, int_ltb,
}
use protoprompt.PyText.{is_space, strip, split_words, join, is_empty}
use mathlib.Core.Option

pub record FixedSizeChunker : Type 0 where
  pub size : ℕ
  pub overlap : ℕ

-- FixedSizeChunker.__init__
unfoldable pub fixed_init : ℤ → ℤ → Result FixedSizeChunker
fixed_init chunk_size overlap = do
  raise_if (int_leb chunk_size (pos 0)) (value_error "chunk_size must be positive")
  raise_if (int_ltb overlap (pos 0)) (value_error "overlap must be non-negative")
  raise_if (int_leb chunk_size overlap) (value_error "overlap must be smaller than chunk_size")
  ok (record { size = pos_part chunk_size; overlap = pos_part overlap })

-- The `while start < len(text)` loop of FixedSizeChunker.split; `none` means that the fuel ran out.
pub windows : ℕ → ℕ → ℕ → Text → ℕ → Option (List Text)
windows zero size step text start = none
windows (suc fuel) size step text start =
    let end = min (start + size) (length text) in
    let rest =
      Option.map (◌∷◌ (slice text start end)) (windows fuel size step text (start + step)) in
    if ltb start (length text)
    then (if nat_eqb end (length text) then some (slice text start end ∷ []) else rest)
    else some []

-- FixedSizeChunker.split after `text.strip()`, with fuel for one round at each position
pub split_stripped : FixedSizeChunker → Text → Option (List Text)
unfolding windows
split_stripped c text =
    if is_empty text
    then some []
    else if leb (length text) c.size
    then some (text ∷ [])
    else windows (length text) c.size (c.size - c.overlap) text 0

-- FixedSizeChunker.split
unfoldable pub fixed_split : FixedSizeChunker → Text → Option (List Text)
unfolding split_stripped strip
fixed_split c raw = split_stripped c (strip raw)

-- The `while` loop of ParagraphChunker._split_long, where the next window starts at the end of
-- the last.
pub split_long_from : ℕ → ℕ → Text → ℕ → Option (List Text)
split_long_from zero limit para start = none
split_long_from (suc fuel) limit para start =
    let end = min (start + limit) (length para) in
    let rest = Option.map (◌∷◌ (slice para start end)) (split_long_from fuel limit para end) in
    if ltb start (length para)
    then (if nat_eqb end (length para) then some (slice para start end ∷ []) else rest)
    else some []

-- ParagraphChunker._split_long
pub split_long : ℕ → Text → Option (List Text)
unfolding split_long_from
split_long limit para = split_long_from (suc (length para)) limit para 0

-- A run of white space, from its first newline on: whether another newline came, what came since
-- the last one, and the whole run.
pub record Gap : Type 0 where
  pub blank : Bool
  pub since : Text
  pub run : Text

-- re.split(r"\n\s*\n", text), reading one character at a time. `cur` is the piece being read.
pub split_gap : Text → Option Gap → Text → List Text
split_gap cur none [] = cur ∷ []
split_gap cur (some g) [] = if g.blank then cur ∷ g.since ∷ [] else (cur ++ g.run) ∷ []
split_gap cur none (c ∷ s) =
    let open_gap = split_gap cur (some (record { blank = false; since = []; run = c ∷ [] })) s in
    let more = split_gap (cur ++ c ∷ []) none s in if nat_eqb c 10 then open_gap else more
split_gap cur (some g) (c ∷ s) =
    let second =
      split_gap cur (some (record { blank = true; since = []; run = g.run ++ c ∷ [] })) s in
    let space =
      split_gap cur
        (some (record { blank = g.blank; since = g.since ++ c ∷ []; run = g.run ++ c ∷ [] })) s in
    let close = cur ∷ split_gap (g.since ++ c ∷ []) none s in
    let join_run = split_gap (cur ++ (g.run ++ c ∷ [])) none s in
    if nat_eqb c 10
    then second
    else if is_space c
    then space
    else if g.blank
    then close
    else join_run

-- [p.strip() for p in re.split(...) if p.strip()]
pub paragraphs : Text → List Text
unfolding split_gap strip
paragraphs text = select (λ p. not (is_empty p)) (map strip (split_gap [] none text))

-- The loop of ParagraphChunker.split over its paragraphs
pub chunk_paragraphs : ℕ → List Text → Option (List Text)
unfolding split_long
chunk_paragraphs limit [] = some []
chunk_paragraphs limit (para ∷ paras) =
    let whole = some (para ∷ []) in
    Option.bind (if leb (length para) limit then whole else split_long limit para)
      (λ now. Option.map (◌++◌ now) (chunk_paragraphs limit paras))

-- ParagraphChunker(max_chars).split(text)
unfoldable pub paragraph_split : ℤ → Text → Option (List Text)
unfolding chunk_paragraphs paragraphs
paragraph_split max_chars text = chunk_paragraphs (max 1 (pos_part max_chars)) (paragraphs text)

pub record TokenChunker : Type 0 where
  pub count : Text → ℕ
  pub chunk_tokens : ℕ
  pub overlap : ℕ

-- TokenChunker.__init__
pub token_init : (Text → ℕ) → ℤ → ℤ → Result TokenChunker
token_init count chunk_tokens overlap_words = do
  let limit = max 1 (pos_part chunk_tokens)
  raise_if (leb limit (pos_part overlap_words))
      (value_error "overlap_words must be smaller than chunk_tokens")
  ok (record { count = count; chunk_tokens = limit; overlap = pos_part overlap_words })

-- cur[-n:] for a positive n, and the empty list for n = 0
pub last_words : ℕ → List Text → List Text
last_words zero cur = []
last_words (suc n) cur = drop (length cur - suc n) cur

abbrev pub space : Text
space = 32 ∷ []

-- max(1, self._counter.count(word))
unfoldable pub word_tokens : TokenChunker → Text → ℕ
word_tokens c word = max 1 (c.count word)

-- cur_tokens after a chunk is closed
pub carried_tokens : TokenChunker → List Text → ℕ
carried_tokens c cur =
    if ltb 0 c.overlap then c.count (join space (last_words c.overlap cur)) else 0

-- The loop of TokenChunker.split: the words of each chunk.
pub pack : TokenChunker → List Text → ℕ → List Text → List (List Text)
unfolding word_tokens carried_tokens last_words join
pack c cur cur_tokens [] = if is_empty cur then [] else cur ∷ []
pack c cur cur_tokens (word ∷ words) =
    let w = word_tokens c word in
    let close =
      cur ∷ pack c (last_words c.overlap cur ++ word ∷ []) (carried_tokens c cur + w) words in
    let more = pack c (cur ++ word ∷ []) (cur_tokens + w) words in
    if not (is_empty cur) && ltb c.chunk_tokens (cur_tokens + w) then close else more

-- TokenChunker.split
unfoldable pub token_split : TokenChunker → Text → List Text
unfolding pack split_words
token_split c text = map (join space) (pack c [] 0 (split_words text))
