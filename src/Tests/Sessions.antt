-- ===== src/Tests/Sessions.antt =====
-- Runs of the session strategies (protoprompt/session/strategy.py).
use protoprompt.Prelude.{
  ◌≡◌, refl, false, some, List, [], ◌∷◌, Text, codes, take, arith, err, runtime_error,
}
use protoprompt.Session.{
  Message, HeuristicStrategy, head_metadata, block_if_any, compress, message_line,
}
use protoprompt.Session.Regions.{compress-short}
use protoprompt.Session.Summaries.{
  SummaryStrategy, split_windows, summarise_window, last_windows, compress_summaries, safe_fallback,
}
use protoprompt.Session.Fallback.{compress_summaries-fallback}

abbrev says : Text → Message
says t = record { role = some (codes "user"); content = some t }

abbrev four_messages : List Message
four_messages = says (codes "a") ∷ says (codes "b") ∷ says (codes "c") ∷ says (codes "d") ∷ []

abbrev strategy : HeuristicStrategy
strategy = record {
  head = 1;
  tail = 2;
  min_length = 0;
  min_messages = 2;
  keywords = [];
  lower = λ t. t;
}

abbrev three_messages : List Message
three_messages = says (codes "a") ∷ says (codes "b") ∷ says (codes "c") ∷ []

compress-short_example :
    compress strategy three_messages
    ≡ block_if_any "Начало диалога:\n"
        (take 1 three_messages)
        (head_metadata strategy three_messages)
compress-short_example = compress-short strategy three_messages (omega arith) (omega arith)

-- A model that never answers
abbrev silent : SummaryStrategy
silent = record {
  window = 3;
  max_blocks = 1;
  target_chars = 80;
  russian = false;
  min_messages = 2;
  chat = λ prompt. err (runtime_error "no answer");
  fallback = compress strategy;
}

compress_summaries-fallback_example :
    compress_summaries silent four_messages ≡ safe_fallback silent four_messages
compress_summaries-fallback_example =
    compress_summaries-fallback silent four_messages [] [] ((3, says (codes "d")) ∷ [])
      (runtime_error "no answer") (unfold last_windows split_windows in refl)
      (unfold summarise_window message_line in refl)
