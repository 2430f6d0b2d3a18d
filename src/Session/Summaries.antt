-- ===== src/Session/Summaries.antt =====
-- LLMSummaryStrategy (protoprompt/session/strategy.py): rolling windows, a summary of each, and the
-- fallback. The answer of the chat model is a parameter, which may raise.
use protoprompt.Prelude.{
  ℕ, zero, suc, ◌-◌, ◌*◌, ◌≤◌, ◌<◌, max, ◌≡◌, refl, ap, ◌∙◌, Bool, none, some, List, [], ◌∷◌, ◌++◌,
  map, Text, codes, length, take, drop, length-take, length-drop, take-append-drop, All, ltb, arith,
  if◌then◌else◌, Result, ok, err, ◌>>=◌,
}
use protoprompt.PyText.{is_empty, join, strip}
use protoprompt.Value.{str, int}
use protoprompt.Session.{Message, CompressedBlock, message_line, turn_range, newline}

pub record SummaryStrategy : Type 0 where
  pub window : ℕ
  pub max_blocks : ℕ
  pub target_chars : ℕ
  pub russian : Bool
  pub min_messages : ℕ
  pub chat : Text → Result Text
  pub fallback : List Message → Result (List CompressedBlock)

-- LLMSummaryStrategy.__init__, of the fields that `compress` reads
pub summary_init :
    ℕ
    → ℕ
    → ℕ
    → Bool
    → (List Message → Result (List CompressedBlock))
    → ℕ
    → (Text → Result Text)
    → SummaryStrategy
summary_init window_size max_blocks target_chars russian fallback min_messages chat = record {
  window = max 1 window_size;
  max_blocks = max 1 max_blocks;
  target_chars = max 80 target_chars;
  russian = russian;
  min_messages = min_messages;
  chat = chat;
  fallback = fallback;
}

-- {**m, "__i": i}
pub index_from : ℕ → List Message → List (ℕ × Message)
index_from i [] = []
index_from i (m ∷ ms) = (i, m) ∷ index_from (suc i) ms

-- [indexed[i : i + w] for i in range(0, len(indexed), w)], with fuel for a window of each message
pub windows_of : ℕ → ℕ → List (ℕ × Message) → List (List (ℕ × Message))
windows_of zero w ms = []
windows_of (suc fuel) w ms =
    let rest = windows_of fuel w (drop w ms) in if is_empty ms then [] else take w ms ∷ rest

-- LLMSummaryStrategy._split_windows
unfoldable pub split_windows : ℕ → List Message → List (List (ℕ × Message))
unfolding windows_of index_from
split_windows w msgs = windows_of (length msgs) w (index_from 0 msgs)

-- "\n".join(f"[{m['role']}]: {m['content']}" for m in window if "content" in m), its lines
pub transcript_lines : List (ℕ × Message) → Result (List Text)
transcript_lines [] = ok []
transcript_lines (m ∷ ms) = elim m.1.content [
  | none ↦ transcript_lines ms
  | some text ↦ (do line ← message_line m.1; lines ← transcript_lines ms; ok (line ∷ lines))
]

abbrev prompt_ru : Text → Text
prompt_ru transcript =
    codes
      "Ты ассистент, который сжимает фрагмент длинного диалога. Сохрани факты, намерения пользователя, принятые решения и открытые вопросы. Выкини приветствия, междометия и повторы. Пиши кратко, на русском, без списков-маркеров.\n\nФрагмент диалога:\n"
    ++ (transcript ++ codes "\n\nСжатие:")

abbrev prompt_en : Text → Text
prompt_en transcript =
    codes
      "You compress a fragment of a long conversation. Preserve facts, user intents, decisions made, and open questions. Drop greetings, filler, and repetitions. Write concisely in English, no bullet markers.\n\nFragment:\n"
    ++ (transcript ++ codes "\n\nSummary:")

-- LLMSummaryStrategy._summarise_window
unfoldable pub summarise_window : SummaryStrategy → List (ℕ × Message) → Result Text
unfolding transcript_lines
summarise_window c window = do
  lines ← transcript_lines window
  let transcript = join newline lines
  response ← c.chat (if c.russian then prompt_ru transcript else prompt_en transcript)
  ok (take (c.target_chars * 4) (strip response))

-- LLMSummaryStrategy._safe_fallback
pub safe_fallback : SummaryStrategy → List Message → List CompressedBlock
safe_fallback c msgs = elim (c.fallback msgs) [ ok blocks ↦ blocks | err e ↦ [] ]

-- window[0]['__i'], and window[-1]['__i']
pub first_index : List (ℕ × Message) → ℕ
first_index [] = 0
first_index (m ∷ ms) = m.0

pub last_index : List (ℕ × Message) → ℕ
last_index [] = 0
last_index (m ∷ []) = m.0
last_index (m ∷ n ∷ ms) = last_index (n ∷ ms)

pub summary_block : ℕ → List (ℕ × Message) → Text → CompressedBlock
unfolding first_index last_index
summary_block idx window summary = record {
  text = summary;
  metadata =
      (codes "segment", str (codes "summary"))
      ∷ (codes "window_index", int idx)
      ∷ (codes "turn_range", str (turn_range (first_index window) (last_index window)))
      ∷ [];
}

-- The loop of LLMSummaryStrategy.compress
unfoldable pub summaries :
    SummaryStrategy → ℕ → List (List (ℕ × Message)) → Result (List CompressedBlock)
unfolding summarise_window summary_block
summaries c idx [] = ok []
summaries c idx (window ∷ windows) = do
  summary ← summarise_window c window
  blocks ← summaries c (suc idx) windows
  ok (if is_empty (strip summary) then blocks else summary_block idx window summary ∷ blocks)

-- windows[-self._max_blocks:]
unfoldable pub last_windows :
    SummaryStrategy → List (List (ℕ × Message)) → List (List (ℕ × Message))
last_windows c windows = drop (length windows - c.max_blocks) windows

-- LLMSummaryStrategy.compress, which handles every exception
unfoldable pub compress_summaries : SummaryStrategy → List Message → List CompressedBlock
unfolding safe_fallback summaries last_windows split_windows
compress_summaries c msgs =
    if ltb (length msgs) c.min_messages
    then safe_fallback c msgs
    else elim (summaries c 0 (last_windows c (split_windows c.window msgs))) [
      | ok blocks ↦ blocks
      | err e ↦ safe_fallback c msgs
    ]

-- The messages of the windows, one window after the other
pub concat_windows : List (List (ℕ × Message)) → List (ℕ × Message)
concat_windows [] = []
concat_windows (w ∷ ws) = w ++ concat_windows ws

-- Not empty, and no longer than `w`
abbrev pub Fitting : ℕ → List (ℕ × Message) → Type 0
Fitting w ms = (0 < length ms) × (length ms ≤ w)

windows_of-cover :
    (fuel w : ℕ) (ms : List (ℕ × Message))
    → 0 < w
    → length ms ≤ fuel
    → (concat_windows (windows_of fuel w ms) ≡ ms) × All (Fitting w) (windows_of fuel w ms)
unfolding windows_of concat_windows
windows_of-cover zero w [] h f = (refl, tt)
windows_of-cover zero w (m ∷ ms) h f = absurd (omega arith)
windows_of-cover (suc fuel) w [] h f = (refl, tt)
windows_of-cover (suc fuel) w (m ∷ ms) h f =
    let ih = windows_of-cover fuel w (drop w (m ∷ ms)) h (omega (arith, length-drop w (m ∷ ms))) in
    (
      ap (◌++◌ (take w (m ∷ ms))) ih.0 ∙ take-append-drop w (m ∷ ms),
      (omega (arith, length-take w (m ∷ ms)), ih.1),
    )

length-index_from : (i : ℕ) (ms : List Message) → length (index_from i ms) ≡ length ms
unfolding index_from
length-index_from i [] = refl
length-index_from i (m ∷ ms) = ap suc (length-index_from (suc i) ms)

map-index_from : (i : ℕ) (ms : List Message) → map (λ m. m.1) (index_from i ms) ≡ ms
unfolding index_from
map-index_from i [] = refl
map-index_from i (m ∷ ms) = ap (◌∷◌ m) (map-index_from (suc i) ms)

-- The windows of a positive size are not empty and no longer than it, and one after the other they
-- are the messages of the session.
split_windows-cover :
    (w : ℕ) (msgs : List Message)
    → 0 < w
    → (map (λ m. m.1) (concat_windows (split_windows w msgs)) ≡ msgs)
      × All (Fitting w) (split_windows w msgs)
unfolding split_windows
split_windows-cover w msgs h =
    let cover =
      windows_of-cover (length msgs) w (index_from 0 msgs) h
        (omega (arith, length-index_from 0 msgs)) in
    (ap (map (λ m. m.1)) cover.0 ∙ map-index_from 0 msgs, cover.1)
