-- ===== src/Session/Regions.antt =====
-- HeuristicStrategy (protoprompt/session/strategy.py): which messages each block is about.
use protoprompt.Prelude.{
  ◌+◌, ◌-◌, ◌≤◌, ◌<◌, ◌≡◌, refl, ap, false, some, List, [], ◌++◌, append-nil, Text, length, take,
  drop, take-append-drop, drop-drop, All, ltb, lt→ltb, arith, Result, ok, err, ◌>>=◌,
}
use protoprompt.Session.{
  Message, CompressedBlock, HeuristicStrategy, block_if_any, tail_start, head_messages,
  tail_messages, middle_messages, important_messages, head_metadata, compress,
}

-- Every message has a role and a content.
abbrev pub IsComplete : List Message → Type 0
IsComplete = All (λ m. (r : Text) × (t : Text) × (m.role ≡ some r) × (m.content ≡ some t))

-- Of a session that is longer than its head and its tail together, every message is in the head, in
-- the middle or in the tail, in this order, and the head and the tail are as long as asked for.
pub regions-cover :
    (c : HeuristicStrategy) (msgs : List Message)
    → c.head + c.tail < length msgs
    → head_messages c msgs ++ (middle_messages c msgs ++ tail_messages c msgs) ≡ msgs
unfolding head_messages middle_messages tail_messages tail_start
regions-cover c msgs h =
    let n = length msgs - c.tail in
    let split : drop (n - c.head) (drop c.head msgs) ≡ drop n msgs =
      drop-drop (n - c.head) c.head n msgs (omega arith) in
    rw (lt→ltb c.head n (omega arith), ← split, take-append-drop) (take-append-drop c.head msgs)

no_tail :
    (c : HeuristicStrategy) (msgs : List Message)
    → length msgs ≤ c.head + c.tail
    → (tail_messages c msgs ≡ []) × (important_messages c msgs ≡ [])
unfolding tail_messages important_messages middle_messages tail_start
no_tail c msgs h =
    let within : ltb c.head (length msgs - c.tail) ≡ false = ground arith in (rw within, rw within)

-- A session that is no longer than its head and its tail together, but long enough to be compressed,
-- has the block of its head and no other: no block has any of its later messages.
pub compress-short :
    (c : HeuristicStrategy) (msgs : List Message)
    → c.min_messages ≤ length msgs
    → length msgs ≤ c.head + c.tail
    → compress c msgs ≡ block_if_any "Начало диалога:\n" (take c.head msgs) (head_metadata c msgs)
unfolding compress head_messages
compress-short c msgs long short =
    let none_there = no_tail c msgs short in
    let enough : ltb (length msgs) c.min_messages ≡ false = ground arith in
    rw (enough, none_there.0, none_there.1, block_if_any)
      (only_head (block_if_any "Начало диалога:\n" (take c.head msgs) (head_metadata c msgs)))
  where
    only_head : (r : Result (List CompressedBlock)) → (r >>= (λ head. ok (head ++ []))) ≡ r
    only_head (ok bs) = ap ok (append-nil bs)
    only_head (err e) = refl
