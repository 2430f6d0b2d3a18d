-- ===== src/Tests/Memories.antt =====
-- Runs of the working memory (protoprompt/agent/working.py) on two small items.
use protoprompt.Prelude.{
  map, ℕ, ℤ, Result, value_error, ◌==◌, nat_eq, ◌+◌, ◌≡◌, refl, Bool, true, false, none, some, List,
  [], ◌∷◌, Text, codes, text_eq, text_eqb, length, arith, ltb, pos, select, negsuc, ok, err,
  index_error,
}
use mathlib.Core.List.{Perm}
use protoprompt.PyText.{strip}
use protoprompt.Dict
use protoprompt.Agent.Item.{MemoryItem, summary_or_label, item_id}
use protoprompt.Agent.Memory.{
  Config, Memory, used_tokens, pinned_items, evict_item, enforce_budget, enforce_pin_cap, next_seq,
}
use protoprompt.Agent.Memory.Count.{IsIndexed, IsLabelled, IsLabelled-of_All}
use protoprompt.Agent.Memory.Demotion.{Demoted, evict_item-Demoted, evict_item-loses_blank}
use protoprompt.Agent.Memory.Budget.{Balanced, enforce_budget-Balanced}
use protoprompt.Agent.Memory.PinCap.{PinCapped, enforce_pin_cap-PinCapped}
use protoprompt.Agent.Memory.Note.{note, note-merges, find_duplicate_note}
use protoprompt.Agent.Manifest.{ManifestEntry, Manifest, by_symbols}
use protoprompt.Agent.Manifest.Symbols.{shared, Ordered, by_symbols-Ranked}
use protoprompt.Agent.References.{Owners}
use protoprompt.Agent.Memory.Snapshot.{json_text, get_or, export_state, import_state}
use protoprompt.Agent.Memory.Snapshot.Restored.{Restored, import_state-export_state}
use protoprompt.Agent.Ids.{next_seq-fresh}
use protoprompt.Store
use protoprompt.Tests.Encoding.{scope_digest}
use protoprompt.Tests.Scopes.{alice}

-- Tokens are letters, vectors and scores are numbers, and all items score their step.
abbrev config : Config ℕ ℕ
config = record {
  count = length;
  identifiers = λ t. [];
  definitions = λ t. [];
  embed = some length;
  embed_all = λ ts. ok (map length ts);
  is_empty_vector = λ v. false;
  round_score = λ x. x;
  similarity = λ a b. 1;
  no_vector = 0;
  score = λ i now goal. i.step;
  lt = ltb;
  digest = scope_digest;
  max_tokens = 5;
  namespace = codes "ns";
  scope = some alice;
  dedup_off = false;
  dedup_threshold = 1;
  zero_score = 0;
  max_pinned_tokens = some 2;
}

abbrev item_of : Text → Text → Text → ℕ → Bool → MemoryItem ℕ
item_of id kind text step pinned = record {
  kind = kind;
  text = text;
  step = step;
  id = id;
  tokens = length text;
  refs = [];
  defs = [];
  pinned = pinned;
  summary = [];
  refcount = 0;
  last_touched = negsuc 0;
  recall_count = 0;
  lineage = [];
  vector = some (length text);
}

abbrev old_note : MemoryItem ℕ
old_note = item_of (codes "m000001") (codes "note") (codes "abc") 1 false

abbrev pinned_read : MemoryItem ℕ
pinned_read = item_of (codes "m000002") (codes "read") (codes "defg") 2 true

abbrev blank_log : MemoryItem ℕ
blank_log = item_of (codes "m000003") (codes "log") (codes " ") 3 false

abbrev memory_of : List (Text × MemoryItem ℕ) → Memory ℕ
memory_of items = record {
  items = items;
  owners = [];
  step = 3;
  evictions = 0;
  manifest = [];
  store = some Store.empty;
  seq = 1;
  goal = none;
  goal_text = [];
}

-- Seven tokens, where the budget is five
abbrev crowded : Memory ℕ
crowded = memory_of ((codes "m000001", old_note) ∷ (codes "m000002", pinned_read) ∷ [])

abbrev with_blank : Memory ℕ
with_blank = memory_of ((codes "m000003", blank_log) ∷ [])

crowded-IsIndexed : IsIndexed crowded.items
unfolding Dict.get text_eqb
crowded-IsIndexed = record { unique = (refl, (refl, tt)); keyed = (refl, (refl, tt)) }

old_note_there : Dict.get old_note.id crowded.items ≡ some old_note
unfolding Dict.get text_eqb
old_note_there = refl

blank_log_there : Dict.get blank_log.id with_blank.items ≡ some blank_log
unfolding Dict.get text_eqb
blank_log_there = refl

-- The label of the note
abbrev note_label : Text
note_label = codes "abc…"

old_note_label : summary_or_label old_note ≡ ok note_label
unfolding summary_or_label
old_note_label = refl

crowded-IsLabelled : IsLabelled crowded.items
unfolding summary_or_label
crowded-IsLabelled =
    IsLabelled-of_All crowded.items ((note_label, refl), ((codes "defg…", refl), tt))

next_seq-fresh_example : Dict.get (item_id (next_seq crowded)) crowded.items ≡ none
next_seq-fresh_example = next_seq-fresh crowded crowded-IsIndexed.unique

evict_item-Demoted_example :
    Demoted config old_note note_label
      (codes "manual")
      crowded
      (evict_item config old_note.id (codes "manual") crowded).1
evict_item-Demoted_example =
    evict_item-Demoted config (codes "manual") note_label crowded old_note Store.empty
      old_note_there refl old_note_label

evict_item-loses_blank_example :
    ((evict_item config blank_log.id (codes "manual") with_blank).0
      ≡ err (index_error "list index out of range"))
    × (Dict.get blank_log.id (evict_item config blank_log.id (codes "manual") with_blank).1.items
        ≡ none)
    × ((evict_item config blank_log.id (codes "manual") with_blank).1.store ≡ with_blank.store)
    × ((evict_item config blank_log.id (codes "manual") with_blank).1.manifest
        ≡ with_blank.manifest)
evict_item-loses_blank_example =
    evict_item-loses_blank config (codes "manual") with_blank blank_log blank_log_there refl
      (unfold strip in refl)

enforce_budget-Balanced_example : Balanced config crowded (enforce_budget config crowded)
enforce_budget-Balanced_example =
    enforce_budget-Balanced config crowded crowded-IsIndexed crowded-IsLabelled (omega arith)

enforce_pin_cap-PinCapped_example : PinCapped 2 crowded (enforce_pin_cap config crowded)
enforce_pin_cap-PinCapped_example =
    enforce_pin_cap-PinCapped config crowded 2 refl crowded-IsIndexed
      (unfold pinned_items in omega arith)

note-merges_example :
    (note config (codes "abcde") false crowded ≡ (
      ok old_note.id,
      record crowded {
        items =
            Dict.put old_note.id
              (record old_note {
                last_touched = pos (crowded.step + 1);
                text = codes "abcde";
                tokens = 5;
              })
              crowded.items;
        step = crowded.step + 1;
      },
    ))
    × (used_tokens (note config (codes "abcde") false crowded).1 + 3 ≡ used_tokens crowded + 5)
    × (length (note config (codes "abcde") false crowded).1.items ≡ length crowded.items)
note-merges_example =
    note-merges config length (codes "abcde") false crowded old_note refl crowded-IsIndexed
      (unfold find_duplicate_note text_eqb in refl) (omega arith)

abbrev entry_with : Text → List Text → ManifestEntry
entry_with id symbols = record {
  item_id = id;
  kind = codes "read";
  summary = codes "s";
  tokens = 3;
  evicted_at = 1;
  symbols = symbols;
  lineage = id;
  important = false;
}

abbrev two_entries : Manifest
two_entries =
    entry_with (codes "m1") (codes "f" ∷ codes "g" ∷ [])
    ∷ entry_with (codes "m2") (codes "h" ∷ [])
    ∷ []

by_symbols-Ranked_example :
    Perm
      (by_symbols (codes "g" ∷ []) two_entries)
      (select (λ e. ltb 0 (shared (codes "g" ∷ []) e.symbols)) two_entries)
    × Ordered (codes "g" ∷ []) (by_symbols (codes "g" ∷ []) two_entries)
by_symbols-Ranked_example = by_symbols-Ranked (codes "g" ∷ []) two_entries

abbrev one_owner : Owners
one_owner = (codes "f", codes "m1" ∷ []) ∷ []

-- int() of a text, which no snapshot of `export_state` asks for
abbrev no_int : Text → Result ℤ
no_int t = err (value_error "invalid literal for int()")

import_state-export_state_example :
    (s' : Memory ℕ) × (import_state
        (λ v. v == 0)
        no_int
        (export_state (codes "ns") crowded)
        with_blank
      ≡ (ok tt, s'))
    × Restored (λ v. v == 0) no_int crowded s'
import_state-export_state_example =
    import_state-export_state (λ v. v == 0) no_int (codes "ns") crowded with_blank crowded-IsIndexed

import_state_raises :
    import_state
      (λ v. v == 0)
      no_int
      (record { fields = (codes "step", json_text (codes "x")) ∷ []; items = []; manifest = [] })
      crowded
    ≡ (err (value_error "invalid literal for int()"), crowded)
unfolding import_state get_or Dict.get text_eqb
import_state_raises = refl
