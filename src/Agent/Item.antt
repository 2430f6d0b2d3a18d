-- ===== src/Agent/Item.antt =====
-- MemoryItem and its label (protoprompt/agent/types.py).
use protoprompt.Prelude.{
  ℕ, zero, suc, ◌-◌, ◌≡◌, refl, Bool, ◌||◌, ◌&&◌, ltb, Option, List, [], ◌∷◌, ◌++◌, Text, codes,
  text_eq, nat_eq, ◌==◌, length, take, any_of, leb, if◌then◌else◌, Result, ok, err, index_error,
  ◌>>=◌, ℤ,
}
use protoprompt.PyText.{strip, is_empty}
use protoprompt.Store.{decimal}

-- `refs` and `defs` are Python's frozensets, as lists without repetition.
pub record MemoryItem (Vec : Type 0) : Type 0 where
  pub kind : Text
  pub text : Text
  pub step : ℕ
  pub id : Text
  pub tokens : ℕ
  pub refs : List Text
  pub defs : List Text
  pub pinned : Bool
  pub summary : Text
  pub refcount : ℕ
  pub last_touched : ℤ
  pub recall_count : ℕ
  pub lineage : Text
  pub vector : Option Vec

-- A line boundary of str.splitlines()
pub is_break : ℕ → Bool
is_break c = (leb 10 c && leb c 13) || (leb 28 c && leb c 30) || c == 133 || c == 8232 || c == 8233

-- The characters before the first line boundary
pub first_line : Text → Text
unfolding is_break
first_line [] = []
first_line (c ∷ s) = let more = c ∷ first_line s in if is_break c then [] else more

-- s.splitlines()[0]: the empty text has no lines.
unfoldable pub split_first : Text → Result Text
unfolding first_line
split_first [] = err (index_error "list index out of range")
split_first (c ∷ s) = ok (first_line (c ∷ s))

abbrev pub ellipsis : Text
ellipsis = 8230 ∷ []

-- MemoryItem.label
unfoldable pub label : {Vec : Type 0} → MemoryItem Vec → Result Text
unfolding split_first strip
label i = do
  base ← if is_empty (strip i.summary) then split_first (strip i.text) else ok (strip i.summary)
  ok (take 72 base ++ ellipsis)

-- item.summary or item.label
unfoldable pub summary_or_label : {Vec : Type 0} → MemoryItem Vec → Result Text
unfolding label
summary_or_label i = if is_empty i.summary then label i else ok i.summary

-- item.lineage or item.id
unfoldable pub lineage_or_id : {Vec : Type 0} → MemoryItem Vec → Text
lineage_or_id i = if is_empty i.lineage then i.id else i.lineage

abbrev pub important_kinds : List Text
important_kinds = codes "edit" ∷ codes "note" ∷ codes "recalled" ∷ []

-- item.refcount > 0 or item.kind in _IMPORTANT_KINDS or item.pinned
unfoldable pub is_important : {Vec : Type 0} → MemoryItem Vec → Bool
is_important i = ltb 0 i.refcount || any_of (λ k. k == i.kind) important_kinds || i.pinned

-- Zeros in front, up to `width` digits
abbrev pub zeros : ℕ → Text
zeros zero = []
zeros (suc n) = 48 ∷ zeros n

-- f"m{n:06d}", as new_item_id makes of the count `n`
unfoldable pub item_id : ℕ → Text
unfolding decimal
item_id n = codes "m" ++ (zeros (6 - length (decimal n)) ++ decimal n)

item_id_runs : item_id 42 ≡ codes "m000042"
unfolding item_id
item_id_runs = refl
