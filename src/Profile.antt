-- ===== src/Profile.antt =====
-- The user profile and its merge (protoprompt/profile/types.py and protoprompt/profile/merge.py).
pub mod Facts
pub mod Topics
pub mod Fields
use protoprompt.Prelude.{
  ℕ, ◌+◌, ◌≡◌, Bool, true, false, not, ◌&&◌, Option, none, some, List, [], ◌∷◌, Text, codes,
  text_eq, Eq, ◌==◌, any_of, if◌then◌else◌,
}
use protoprompt.PyText.{is_empty}
use protoprompt.Dict
use protoprompt.Dict.{Dict}

pub record Traits : Type 0 where
  pub style : Text
  pub expertise : Text
  pub verbosity : Text
  pub formality : Text

pub record Preferences : Type 0 where
  pub format : Text
  pub language : Text
  pub topics : List Text

pub record UserProfile : Type 0 where
  pub user_id : Text
  pub traits : Traits
  pub preferences : Preferences
  pub facts : Dict Text Text
  pub summary : Text
  pub updated_at : Text
  pub version : ℕ
  pub source : Text

pub record FactOp : Type 0 where
  pub op : Text
  pub key : Text
  pub value : Text

pub record ProfileDelta : Type 0 where
  pub fact_ops : List FactOp
  pub traits : Dict Text Text
  pub preferences : Dict Text Text
  pub topics : Option (List Text)
  pub summary : Text
  pub source : Text

-- value if value else old
unfoldable pub or_old : Text → Text → Text
or_old value old = if is_empty value then old else value

-- delta.topics is None
pub no_topics : Option (List Text) → Bool
no_topics none = true
no_topics (some topics) = false

-- _is_empty
unfoldable pub delta_is_empty : ProfileDelta → Bool
unfolding no_topics
delta_is_empty d =
    is_empty d.fact_ops
    && is_empty d.traits
    && is_empty d.preferences
    && no_topics d.topics
    && is_empty d.summary

-- The loop of _dedupe, over the items seen so far
pub dedupe_from : List Text → List Text → List Text
dedupe_from seen [] = []
dedupe_from seen (item ∷ items) =
    let new = item ∷ dedupe_from (item ∷ seen) items in
    let rest = dedupe_from seen items in
    if not (is_empty item) && not (any_of (λ s. s == item) seen) then new else rest

-- _dedupe
pub dedupe : List Text → List Text
unfolding dedupe_from
dedupe = dedupe_from []

-- One round of the loop of `merge` over the operations
unfoldable pub apply_op : FactOp → Dict Text Text → Dict Text Text
apply_op op facts =
    if op.op == codes "forget" then Dict.remove op.key facts else Dict.put op.key op.value facts

unfoldable pub apply_ops : List FactOp → Dict Text Text → Dict Text Text
unfolding apply_op
apply_ops [] facts = facts
apply_ops (op ∷ ops) facts = apply_ops ops (apply_op op facts)

-- setattr(traits, name, value), for a name of _TRAIT_FIELDS
unfoldable pub set_trait : Text → Text → Traits → Traits
set_trait name value t =
    if name == codes "style"
    then record t { style = value }
    else if name == codes "expertise"
    then record t { expertise = value }
    else if name == codes "verbosity"
    then record t { verbosity = value }
    else if name == codes "formality"
    then record t { formality = value }
    else t

-- The loop of `merge` over the traits
unfoldable pub set_traits : Dict Text Text → Traits → Traits
unfolding set_trait
set_traits [] t = t
set_traits ((name, value) ∷ rest) t =
    set_traits rest (if is_empty value then t else set_trait name value t)

-- setattr(prefs, name, value), for a name of _PREF_FIELDS
unfoldable pub set_preference : Text → Text → Preferences → Preferences
set_preference name value p =
    if name == codes "format"
    then record p { format = value }
    else if name == codes "language"
    then record p { language = value }
    else p

-- The loop of `merge` over the preferences
unfoldable pub set_preferences : Dict Text Text → Preferences → Preferences
unfolding set_preference
set_preferences [] p = p
set_preferences ((name, value) ∷ rest) p =
    set_preferences rest (if is_empty value then p else set_preference name value p)

-- if delta.topics is not None: prefs.topics = _dedupe(delta.topics)
unfoldable pub set_topics : Option (List Text) → Preferences → Preferences
unfolding dedupe
set_topics none p = p
set_topics (some topics) p = record p { topics = dedupe topics }

-- `merge` of a delta that is not empty
unfoldable pub merged_profile : UserProfile → ProfileDelta → Text → UserProfile
unfolding apply_ops set_traits set_preferences set_topics or_old
merged_profile p d now = record {
  user_id = p.user_id;
  traits = set_traits d.traits p.traits;
  preferences = set_topics d.topics (set_preferences d.preferences p.preferences);
  facts = apply_ops d.fact_ops p.facts;
  summary = or_old d.summary p.summary;
  updated_at = now;
  version = p.version + 1;
  source = or_old d.source p.source;
}

-- merge
unfoldable pub merge : UserProfile → ProfileDelta → Text → UserProfile
unfolding delta_is_empty merged_profile
merge p d now = if delta_is_empty d then p else merged_profile p d now
