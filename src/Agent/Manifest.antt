-- ===== src/Agent/Manifest.antt =====
-- The manifest of evicted items (protoprompt/agent/manifest.py). Case folding (`str.lower`) is a
-- parameter.
pub mod Restore
pub mod Symbols
use protoprompt.Prelude.{
  ℕ, zero, suc, ◌+◌, Bool, true, false, ◌||◌, ◌&&◌, Option, none, some, List, [], ◌∷◌, ◌++◌, map,
  Text, codes, text_eq, nat_eq, Eq, ◌==◌, length, select, any_of, ltb, if◌then◌else◌, sort_desc,
}
use protoprompt.PyText.{is_empty}
use protoprompt.Store.{decimal}

pub record ManifestEntry : Type 0 where
  pub item_id : Text
  pub kind : Text
  pub summary : Text
  pub tokens : ℕ
  pub evicted_at : ℕ
  pub symbols : List Text
  pub lineage : Text
  pub important : Bool

abbrev pub Manifest : Type 0
Manifest = List ManifestEntry

-- ManifestEntry.line
unfoldable pub line : ManifestEntry → Text
unfolding decimal
line e =
    e.item_id
    ++ (codes " ["
        ++ (e.kind
            ++ (codes "] " ++ (e.summary ++ (codes " (" ++ (decimal e.tokens ++ codes " tok)"))))))

-- Manifest.record
unfoldable pub record_entry : ManifestEntry → Manifest → Manifest
record_entry e entries = entries ++ e ∷ []

-- Manifest.restore: the first entry of the id, and the manifest without it
unfoldable pub restore : Text → Manifest → Option ManifestEntry × Manifest
restore id [] = (none, [])
restore id (e ∷ entries) =
    let (found, rest) = restore id entries in
    if e.item_id == id then (some e, entries) else (found, e ∷ rest)

-- text.startswith(needle)
unfoldable pub begins_with : Text → Text → Bool
begins_with [] s = true
begins_with (c ∷ n) [] = false
begins_with (c ∷ n) (d ∷ s) = c == d && begins_with n s

-- needle in text
unfoldable pub occurs_in : Text → Text → Bool
unfolding begins_with
occurs_in needle [] = is_empty needle
occurs_in needle (c ∷ s) = begins_with needle (c ∷ s) || occurs_in needle s

-- Manifest.search
unfoldable pub search_entries : (Text → Text) → Text → Manifest → Manifest
unfolding occurs_in
search_entries lower needle entries =
    select
      (λ e. occurs_in (lower needle) (lower e.summary) || occurs_in (lower needle) (lower e.kind))
      entries

-- len(wanted & e.symbols), for symbols without repetition
unfoldable pub overlap : List Text → ManifestEntry → ℕ
overlap wanted e = length (select (λ s. any_of (λ w. w == s) wanted) e.symbols)

-- (-overlap, evicted_at) of the second before that of the first
unfoldable pub ranks_before : ℕ × ManifestEntry → ℕ × ManifestEntry → Bool
ranks_before a b = ltb a.0 b.0 || (a.0 == b.0 && ltb b.1.evicted_at a.1.evicted_at)

-- The (overlap, entry) pairs of the entries that have a wanted symbol
unfoldable pub scored : List Text → Manifest → List (ℕ × ManifestEntry)
unfolding overlap
scored wanted [] = []
scored wanted (e ∷ entries) =
    if ltb 0 (overlap wanted e)
    then (overlap wanted e, e) ∷ scored wanted entries
    else scored wanted entries

-- Manifest.by_symbols
unfoldable pub by_symbols : List Text → Manifest → Manifest
unfolding scored ranks_before sort_desc
by_symbols wanted entries =
    if is_empty wanted
    then []
    else map (λ p. p.1) (sort_desc ranks_before (λ p. p) (scored wanted entries))

-- Manifest.lines
unfoldable pub lines : Manifest → List Text
unfolding line
lines = map line
