-- ===== src/Ledger/Policy/Packing.antt =====
-- How a recall plan packs the ranked records into its budgets (protoprompt/ledger/recall/planner.py).
-- JSON texts and token counts come from outside.
pub mod Fits
use protoprompt.Prelude.{
  ℕ, ◌+◌, ◌-◌, Bool, true, false, not, ◌&&◌, ◌||◌, Option, none, some, List, [], ◌∷◌, ◌++◌, map,
  Text, String, codes, nat_eqb, ltb, leb, if◌then◌else◌, Result, ok, err, value_error,
  runtime_error, raise_if, ◌>>=◌, ◌>>◌,
}
use protoprompt.PyText.{is_empty}
use protoprompt.Ledger.{MemoryKind, MemoryRecord}
use protoprompt.Ledger.Policy.Recall.{LedgerRecallDecision, selected, excluded}

-- What the planner has from outside: `json_record` and `json_envelope` are json.dumps of the object of
-- one record and of the envelope over the records' objects, `count` is TokenCounter.count, and
-- `is_regex` says whether the counter is a RegexTokenCounter.
pub record Printer : Type 0 where
  pub json_record : Option Text × MemoryKind → Text
  pub json_envelope : List (Option Text × MemoryKind) → Text
  pub count : Text → ℕ
  pub is_regex : Bool

-- text.replace(chr(c), new)
unfoldable pub replace_char : ℕ → Text → Text → Text
replace_char c new [] = []
replace_char c new (x ∷ xs) =
    let rest = replace_char c new xs in if nat_eqb x c then new ++ rest else x ∷ rest

-- .replace("<", "\\u003c").replace(">", "\\u003e").replace("&", "\\u0026")
unfoldable pub escape : Text → Text
unfolding replace_char
escape text =
    replace_char 38 (92 ∷ codes "u0026")
      (replace_char 62 (92 ∷ codes "u003e") (replace_char 60 (92 ∷ codes "u003c") text))

-- The bytes of a code point in UTF-8
unfoldable pub utf8_width : ℕ → ℕ
utf8_width c = if ltb c 128 then 1 else if ltb c 2048 then 2 else if ltb c 65536 then 3 else 4

-- _utf8_size, with none where `encode` raises UnicodeEncodeError: at a surrogate
unfoldable pub utf8_size : Text → Option ℕ
unfolding utf8_width
utf8_size [] = some 0
utf8_size (c ∷ cs) =
    if leb 55296 c && leb c 57343
    then none
    else elim (utf8_size cs) [ none ↦ none | some n ↦ some (utf8_width c + n) ]

-- A call of _utf8_size that nothing guards
unfoldable pub utf8_or_raise : Text → Result ℕ
unfolding utf8_size
utf8_or_raise text = elim (utf8_size text) [
  | none ↦ err (value_error "UnicodeEncodeError")
  | some n ↦ ok n
]

pub record ScoredCandidate (F : Type 0) : Type 0 where
  pub entry : MemoryRecord F
  pub score : F
  pub relevance : F
  pub confidence_signal : F
  pub recency_signal : F
  pub scan_bytes : ℕ

-- Its constructor checks what a record that was read has been checked for.
pub record RecallSelection : Type 0 where
  pub record_id : Text
  pub revision : ℕ
  pub content_hash : Text
  pub kind : MemoryKind

-- What the loop changes
pub record Packing (F : Type 0) : Type 0 where
  pub chosen : List (MemoryRecord F)
  pub selections : List RecallSelection
  pub decisions : List (LedgerRecallDecision F)
  pub used_tokens : ℕ
  pub used_bytes : ℕ

module _ {F : Type 0} where
  abbrev pub shape_of : MemoryRecord F → Option Text × MemoryKind
  shape_of r = (r.content, r.row.kind)

  abbrev pub selection_of : MemoryRecord F → RecallSelection
  selection_of r = record {
    record_id = r.record_id;
    revision = r.row.revision;
    content_hash = r.row.content_hash;
    kind = r.row.kind;
  }

  -- The decision to leave a candidate out, before its size is known
  abbrev pub unreadable : ScoredCandidate F → LedgerRecallDecision F
  unreadable c = record {
    kind = c.entry.row.kind;
    decision = excluded;
    reason = codes "non_utf8_content";
    token_cost = 0;
    byte_cost = 0;
    candidate_tokens = none;
    candidate_bytes = none;
    score = some c.score;
  }

  -- The decision to leave a candidate out for its size
  abbrev pub too_large : String → ScoredCandidate F → ℕ → ℕ → LedgerRecallDecision F
  too_large reason c tokens bytes = record (unreadable c) {
    reason = codes reason;
    candidate_tokens = some tokens;
    candidate_bytes = some bytes;
  }

  abbrev pub chosen_decision : ScoredCandidate F → ℕ → ℕ → LedgerRecallDecision F
  chosen_decision c tokens bytes = record {
    kind = c.entry.row.kind;
    decision = selected;
    reason = codes "selected";
    token_cost = tokens;
    byte_cost = bytes;
    candidate_tokens = some tokens;
    candidate_bytes = some bytes;
    score = some c.score;
  }

  abbrev pub decide : LedgerRecallDecision F → Packing F → Packing F
  decide d p = record p { decisions = p.decisions ++ d ∷ [] }

-- The tokens and bytes of the whole text
abbrev pub whole : Printer → Text → Option ℕ → Option (ℕ × ℕ)
whole printer text none = none
whole printer text (some bytes) = some (printer.count text, bytes)

-- The checks of the text of the envelope without records, and its bytes
unfoldable pub check_envelope : Printer → Text → ℕ → ℕ → Result ℕ
unfolding utf8_or_raise
check_envelope printer text max_tokens max_bytes = do
  bytes ← utf8_or_raise text
  raise_if (ltb max_tokens (printer.count text))
      (value_error "token_budget does not fit the mandatory ledger data envelope")
  raise_if (ltb max_bytes bytes)
      (value_error "byte_budget does not fit the mandatory ledger data envelope")
  ok bytes

module _ {F : Type 0} (printer : Printer) where
  -- _render_data
  unfoldable pub render_data : List (MemoryRecord F) → Text
  unfolding escape
  render_data records = escape (printer.json_envelope (map shape_of records))

  -- _render_record_data
  unfoldable pub render_record : MemoryRecord F → Text
  unfolding escape
  render_record r = escape (printer.json_record (shape_of r))

  -- The tokens and bytes that a text adds to what is used, with its separator
  abbrev pub added : Packing F → Text → Option ℕ → Option (ℕ × ℕ)
  added p text none = none
  added p text (some bytes) = some (
    p.used_tokens
        + (if is_empty p.chosen then 0 else printer.count (codes ","))
        + printer.count text,
    p.used_bytes + (if is_empty p.chosen then 0 else 1) + bytes,
  )

  -- The prospective tokens and bytes with a record, or none where its text has no UTF-8
  unfoldable pub prospective : Packing F → MemoryRecord F → Option (ℕ × ℕ)
  unfolding render_data render_record utf8_size
  prospective p r =
      if printer.is_regex
      then added p (render_record r) (utf8_size (render_record r))
      else whole printer (render_data (p.chosen ++ r ∷ []))
          (utf8_size (render_data (p.chosen ++ r ∷ [])))

  module _ (max_tokens max_bytes : ℕ) where
    -- The rest of the round for a candidate with its prospective tokens and bytes. A negative number
    -- of bytes makes the constructor of the decision raise.
    unfoldable pub place : Packing F → ScoredCandidate F → ℕ → ℕ → Result (Packing F)
    place p c tokens bytes =
        raise_if (ltb bytes p.used_bytes)
          (value_error "candidate_bytes must be a non-negative integer or None")
        >> ok (
            if ltb max_tokens tokens
            then decide
                (too_large "over_token_budget" c (tokens - p.used_tokens) (bytes - p.used_bytes)) p
            else if ltb max_bytes bytes
            then decide
                (too_large "over_byte_budget" c (tokens - p.used_tokens) (bytes - p.used_bytes)) p
            else record {
              chosen = p.chosen ++ c.entry ∷ [];
              selections = p.selections ++ selection_of c.entry ∷ [];
              decisions =
                  p.decisions
                  ++ chosen_decision c (tokens - p.used_tokens) (bytes - p.used_bytes) ∷ [];
              used_tokens = tokens;
              used_bytes = bytes;
            })

    abbrev pub place_found : Packing F → ScoredCandidate F → Option (ℕ × ℕ) → Result (Packing F)
    place_found p c none = ok (decide (unreadable c) p)
    place_found p c (some (tokens, bytes)) = place p c tokens bytes

    -- The loop over the scored candidates
    unfoldable pub pack : List (ScoredCandidate F) → Packing F → Result (Packing F)
    unfolding prospective place
    pack [] p = ok p
    pack (c ∷ cs) p = place_found p c (prospective p c.entry) >>= λ q. pack cs q

  -- The check after the loop, which only the incremental count needs
  unfoldable pub reconcile : Packing F → Result (Unit {0})
  unfolding render_data utf8_or_raise
  reconcile p =
      if printer.is_regex
      then (utf8_or_raise (render_data p.chosen) >>= λ bytes.
          raise_if
            (not (nat_eqb p.used_tokens (printer.count (render_data p.chosen)))
              || not (nat_eqb p.used_bytes bytes))
            (runtime_error
              "incremental regex accounting did not reconcile with the ledger data envelope"))
      else ok tt

  -- What the loop starts from
  abbrev pub unpacked : List (LedgerRecallDecision F) → ℕ → Packing F
  unpacked decisions bytes = record {
    chosen = [];
    selections = [];
    decisions = decisions;
    used_tokens = printer.count (render_data []);
    used_bytes = bytes;
  }

  -- The parts of `plan` that keep its budgets, for the candidates in their order and the decisions
  -- made before
  unfoldable pub pack_plan :
      ℕ → ℕ → List (LedgerRecallDecision F) → List (ScoredCandidate F) → Result (Packing F)
  unfolding render_data check_envelope pack reconcile
  pack_plan max_tokens max_bytes decisions scored = do
    bytes ← check_envelope printer (render_data []) max_tokens max_bytes
    p ← pack max_tokens max_bytes scored (unpacked decisions bytes)
    reconcile p
    ok p
