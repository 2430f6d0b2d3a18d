-- ===== src/Profile/Topics.antt =====
-- The topics of a merged profile (protoprompt/profile/merge.py).
use protoprompt.Prelude.{
  ◌≡◌, inl, inr, Bool, false, not, ◌&&◌, List, [], ◌∷◌, Text, text_eq, text_eqb_iff, ◌==◌, any_of,
  arith, Bool-cases,
}
use protoprompt.PyText.{is_empty}
use protoprompt.Profile.{dedupe, dedupe_from}

abbrev pub member : Text → List Text → Bool
member t = any_of (λ s. s == t)

-- No text stands twice.
abbrev pub Distinct : List Text → Type 0
Distinct [] = Unit
Distinct (t ∷ ts) = (member t ts ≡ false) × Distinct ts

member-dedupe_from :
    (t : Text) (seen items : List Text)
    → member t (dedupe_from seen items)
      ≡ (not (is_empty t) && not (member t seen) && member t items)
unfolding dedupe_from
member-dedupe_from t seen [] = ground arith
member-dedupe_from t seen (x ∷ items) = ground (
  arith,
  member-dedupe_from t seen items,
  member-dedupe_from t (x ∷ seen) items,
  text_eqb_iff x t,
)

dedupe_from-Distinct : (seen items : List Text) → Distinct (dedupe_from seen items)
unfolding dedupe_from
dedupe_from-Distinct seen [] = tt
dedupe_from-Distinct seen (x ∷ items) =
    elim (Bool-cases (not (is_empty x) && not (any_of (λ s. s == x) seen))) [
      | inl new ↦ rw new (
        ground (arith, member-dedupe_from x (x ∷ seen) items, text_eqb_iff x x),
        dedupe_from-Distinct (x ∷ seen) items,
      )
      | inr old ↦ rw old (dedupe_from-Distinct seen items)
    ]

-- `_dedupe` keeps exactly the texts that are not empty, each of them once.
pub dedupe-Distinct :
    (items : List Text)
    → Distinct (dedupe items)
      × ((t : Text) → member t (dedupe items) ≡ (not (is_empty t) && member t items))
unfolding dedupe
dedupe-Distinct items =
    (dedupe_from-Distinct [] items, λ t. ground (arith, member-dedupe_from t [] items))
