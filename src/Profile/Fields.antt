-- ===== src/Profile/Fields.antt =====
-- The traits and preferences of a merged profile (protoprompt/profile/merge.py).
use protoprompt.Prelude.{
  ◌≡◌, refl, none, some, [], ◌∷◌, Text, codes, text_eq, text_eqb_iff, arith, if◌then◌else◌,
}
use protoprompt.PyText.{is_empty}
use protoprompt.Dict
use protoprompt.Dict.{Dict, Unique}
use protoprompt.Profile.{Traits, set_trait, set_traits}

-- The value of a field after a delta: its own, if that is there and not empty.
pub newest : Text → Dict Text Text → Text → Text
newest name delta old = elim (Dict.get name delta) [
  | none ↦ old
  | some value ↦ if is_empty value then old else value
]

-- Each trait is the value that the delta has for it, and as it was where the delta has none or an
-- empty one.
pub set_traits-newest :
    (delta : Dict Text Text) (t : Traits)
    → Unique delta
    → ((set_traits delta t).style ≡ newest (codes "style") delta t.style)
      × ((set_traits delta t).expertise ≡ newest (codes "expertise") delta t.expertise)
      × ((set_traits delta t).verbosity ≡ newest (codes "verbosity") delta t.verbosity)
      × ((set_traits delta t).formality ≡ newest (codes "formality") delta t.formality)
unfolding set_traits newest Dict.get
set_traits-newest [] t u = (refl, refl, refl, refl)
set_traits-newest ((name, value) ∷ rest) t u =
    let ih = set_traits-newest rest (if is_empty value then t else set_trait name value t) u.1 in
    (
      ground (
        arith,
        ih.0,
        u.0,
        text_eqb_iff name (codes "style"),
        text_eqb_iff name (codes "expertise"),
        text_eqb_iff name (codes "verbosity"),
        text_eqb_iff name (codes "formality"),
      ),
      ground (
        arith,
        ih.1,
        u.0,
        text_eqb_iff name (codes "style"),
        text_eqb_iff name (codes "expertise"),
        text_eqb_iff name (codes "verbosity"),
        text_eqb_iff name (codes "formality"),
      ),
      ground (
        arith,
        ih.2,
        u.0,
        text_eqb_iff name (codes "style"),
        text_eqb_iff name (codes "expertise"),
        text_eqb_iff name (codes "verbosity"),
        text_eqb_iff name (codes "formality"),
      ),
      ground (
        arith,
        ih.3,
        u.0,
        text_eqb_iff name (codes "style"),
        text_eqb_iff name (codes "expertise"),
        text_eqb_iff name (codes "verbosity"),
        text_eqb_iff name (codes "formality"),
      ),
    )
