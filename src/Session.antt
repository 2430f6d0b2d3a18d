-- ===== src/Session.antt =====
-- Compressing a session (protoprompt/session/strategy.py): the sliding windows of HeuristicStrategy
-- and the summaries of LLMSummaryStrategy. A message is a `dict` of which only `role` and `content`
-- are read; case folding, the keywords and the chat model are parameters, and counts are not
-- negative.
pub mod Regions
pub mod Summaries
pub mod Fallback
use protoprompt.Prelude.{
  ℕ, zero, suc, ◌+◌, ◌-◌, min, max, ◌≡◌, refl, Bool, true, false, not, ◌&&◌, Option, none, some,
  List, [], ◌∷◌, ◌++◌, Text, codes, String, length, take, drop, select, any_of, ltb, leb,
  if◌then◌else◌, Result, ok, err, key_error, ◌>>=◌,
}
use protoprompt.PyText.{is_empty, join, strip}
use protoprompt.Value.{Metadata, str, int}
use protoprompt.Store.{decimal}
use protoprompt.Agent.Manifest.{occurs_in}

pub record Message : Type 0 where
  pub role : Option Text
  pub content : Option Text

pub record CompressedBlock : Type 0 where
  pub text : Text
  pub metadata : Metadata

pub record HeuristicStrategy : Type 0 where
  pub head : ℕ
  pub tail : ℕ
  pub min_length : ℕ
  pub min_messages : ℕ
  pub keywords : List Text
  pub lower : Text → Text

abbrev pub default_keywords : List Text
default_keywords =
    codes "хочешь"
    ∷ codes "думаю"
    ∷ codes "считаю"
    ∷ codes "предпочитаю"
    ∷ codes "важно"
    ∷ codes "нравится"
    ∷ codes "надо"
    ∷ codes "план"
    ∷ codes "задача"
    ∷ codes "цель"
    ∷ codes "проблема"
    ∷ codes "решение"
    ∷ codes "итог"
    ∷ codes "вывод"
    ∷ codes "хочу"
    ∷ codes "хотел"
    ∷ []

-- HeuristicStrategy.__init__, over the case folding that `_is_important` calls
pub heuristic_init : ℕ → ℕ → ℕ → ℕ → List Text → (Text → Text) → HeuristicStrategy
heuristic_init head_count tail_count min_length min_messages keywords lower = record {
  head = head_count;
  tail = tail_count;
  min_length = min_length;
  min_messages = min_messages;
  keywords = if is_empty keywords then default_keywords else keywords;
  lower = lower;
}

-- m[key]
pub required : String → Option Text → Result Text
required key none = err (key_error key)
required key (some t) = ok t

-- m.get("content", "")
pub content_or_empty : Message → Text
content_or_empty m = elim m.content [ none ↦ [] | some t ↦ t ]

-- f"[{m['role']}]: {m['content']}"
unfoldable pub message_line : Message → Result Text
unfolding required
message_line m = do
  role ← required "role" m.role
  content ← required "content" m.content
  ok (codes "[" ++ (role ++ (codes "]: " ++ content)))

unfoldable pub message_lines : List Message → Result (List Text)
unfolding message_line
message_lines [] = ok []
message_lines (m ∷ ms) = do line ← message_line m; lines ← message_lines ms; ok (line ∷ lines)

abbrev pub newline : Text
newline = 10 ∷ []

-- A block of the given messages under a title
unfoldable pub block_of_messages : String → List Message → Metadata → Result CompressedBlock
unfolding message_lines join
block_of_messages title ms metadata = do
  lines ← message_lines ms
  ok (record { text = codes title ++ join newline lines; metadata = metadata })

-- f"{a}-{b}"
pub turn_range : ℕ → ℕ → Text
unfolding decimal
turn_range a b = decimal a ++ (codes "-" ++ decimal b)

-- HeuristicStrategy._is_important
pub mentions_keyword : HeuristicStrategy → Text → Bool
unfolding occurs_in
mentions_keyword c text = any_of (λ kw. occurs_in kw (c.lower text)) c.keywords

pub tail_start : HeuristicStrategy → List Message → ℕ
tail_start c msgs = length msgs - c.tail

-- msgs[: self._head]
unfoldable pub head_messages : HeuristicStrategy → List Message → List Message
head_messages c msgs = take c.head msgs

-- The messages of the block of the last ones: none where they begin within the head
unfoldable pub tail_messages : HeuristicStrategy → List Message → List Message
unfolding tail_start
tail_messages c msgs = if ltb c.head (tail_start c msgs) then drop (tail_start c msgs) msgs else []

-- msgs[self._head : tail_start] if tail_start > self._head else []
unfoldable pub middle_messages : HeuristicStrategy → List Message → List Message
unfolding tail_start
middle_messages c msgs =
    if ltb c.head (tail_start c msgs)
    then take (tail_start c msgs - c.head) (drop c.head msgs)
    else []

-- The messages of the middle that are long enough and have a keyword
unfoldable pub important_messages : HeuristicStrategy → List Message → List Message
unfolding mentions_keyword content_or_empty middle_messages
important_messages c msgs =
    select
      (λ m.
        leb c.min_length (length (content_or_empty m)) && mentions_keyword c (content_or_empty m))
      (middle_messages c msgs)

abbrev pub head_metadata : HeuristicStrategy → List Message → Metadata
head_metadata c msgs =
    (codes "segment", str (codes "head"))
    ∷ (codes "turn_range", str (turn_range 0 (min (c.head - 1) (length msgs - 1))))
    ∷ []

abbrev pub tail_metadata : HeuristicStrategy → List Message → Metadata
tail_metadata c msgs =
    (codes "segment", str (codes "tail"))
    ∷ (codes "turn_range", str (turn_range (tail_start c msgs) (length msgs - 1)))
    ∷ []

abbrev pub important_metadata : HeuristicStrategy → List Message → Metadata
important_metadata c msgs =
    (codes "segment", str (codes "important"))
    ∷ (codes "count", int (length (important_messages c msgs)))
    ∷ []

-- if messages: blocks.append(...)
unfoldable pub block_if_any : String → List Message → Metadata → Result (List CompressedBlock)
unfolding block_of_messages
block_if_any title [] metadata = ok []
block_if_any title (m ∷ ms) metadata = do
  block ← block_of_messages title (m ∷ ms) metadata
  ok (block ∷ [])

-- HeuristicStrategy.compress
unfoldable pub compress : HeuristicStrategy → List Message → Result (List CompressedBlock)
unfolding block_if_any head_messages tail_messages important_messages turn_range tail_start
compress c msgs = if ltb (length msgs) c.min_messages then ok [] else (do
  head ← block_if_any "Начало диалога:\n" (head_messages c msgs) (head_metadata c msgs)
  tail ← block_if_any "Последние сообщения:\n" (tail_messages c msgs) (tail_metadata c msgs)
  important ←
      block_if_any "Ключевые реплики:\n" (important_messages c msgs) (important_metadata c msgs)
  ok (head ++ (tail ++ important)))
