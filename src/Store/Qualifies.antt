-- ===== src/Store/Qualifies.antt =====
-- Which entries of the store a query asks for (protoprompt/store/memory.py), apart from the code.
use protoprompt.Prelude.{
  ◌↔◌, ◌⊎◌, sym, none, some, ◌||◌, true, false, Text, text_eq, Option-cases, ◌≡◌, refl, inl, inr,
  Bool, true, Option, List, [], ◌∷◌, All, arith,
}
use mathlib.Core.Path.{subst}
use protoprompt.PyText.{is_empty}
use protoprompt.Dict
use protoprompt.Value.{
  Value, null, str, int, bool, texts, one_of, Metadata, value_eqb, value_eqb-str_iff,
}
use protoprompt.Store.{Entry, passes, value_of, is_one_of, meets, matches_where}

-- The value under a key, or None
abbrev pub or_null : Option Value → Value
or_null none = null
or_null (some v) = v

-- One of the texts
abbrev pub OneOf : Value → List Text → Type 0
OneOf actual [] = ⊥
OneOf actual (t ∷ ts) = (actual ≡ str t) ⊎ OneOf actual ts

-- A value meets a condition: it is one of the texts that the condition lists, or it equals it.
abbrev pub Meets : Value → Value → Type 0
Meets actual (one_of ts) = OneOf actual ts
Meets actual condition = value_eqb actual condition ≡ true

abbrev pub InFilter : Option Metadata → Metadata → Type 0
InFilter none m = Unit
InFilter (some w) m = All (λ kc. Meets (or_null (Dict.get kc.0 m)) kc.1) w

abbrev pub AtLeast : {S : Type 0} → (S → S → Bool) → Option S → S → Type 0
AtLeast lt none score = Unit
AtLeast lt (some t) score = lt score t ≡ false

abbrev pub Qualifies :
    {Vec S : Type 0} → (S → S → Bool) → Option Metadata → Option S → S × Entry Vec → Type 0
Qualifies lt filter threshold c = InFilter filter c.1.metadata × AtLeast lt threshold c.0

is_one_of_iff : (actual : Value) (ts : List Text) → (is_one_of actual ts ≡ true) ↔ OneOf actual ts
unfolding is_one_of
is_one_of_iff actual [] = ((λ h. cc), (λ h. absurd h))
is_one_of_iff actual (t ∷ ts) = ground (arith, value_eqb-str_iff actual t, is_one_of_iff actual ts)

meets_iff : (actual condition : Value) → (meets actual condition ≡ true) ↔ Meets actual condition
unfolding meets
meets_iff actual (one_of ts) = is_one_of_iff actual ts
meets_iff actual null = ((λ h. h), (λ h. h))
meets_iff actual (str t) = ((λ h. h), (λ h. h))
meets_iff actual (int n) = ((λ h. h), (λ h. h))
meets_iff actual (bool b) = ((λ h. h), (λ h. h))
meets_iff actual (texts ts) = ((λ h. h), (λ h. h))

value_of-lem : (key : Text) (m : Metadata) → value_of key m ≡ or_null (Dict.get key m)
unfolding value_of
value_of-lem key m = elim (Option-cases (Dict.get key m)) [
  | inl absent ↦ rw (absent, value_of) refl
  | inr (v, found) ↦ rw (found, value_of) refl
]

matches_where-InFilter : (m w : Metadata) → matches_where m w ≡ true → InFilter (some w) m
unfolding matches_where
matches_where-InFilter m [] h = tt
matches_where-InFilter m ((key, condition) ∷ w) h = (
  subst (λ v. Meets v condition) (value_of-lem key m)
      ((meets_iff (value_of key m) condition).0 (ground (arith, h))),
  matches_where-InFilter m w (ground (arith, h)),
)

InFilter-matches_where : (m w : Metadata) → InFilter (some w) m → matches_where m w ≡ true
unfolding matches_where
InFilter-matches_where m [] h = refl
InFilter-matches_where m ((key, condition) ∷ w) h =
    let here =
      (meets_iff (value_of key m) condition).1
        (subst (λ v. Meets v condition) (sym (value_of-lem key m)) h.0) in
    rw (here, InFilter-matches_where m w h.1) refl

filter-InFilter : (m w : Metadata) → (is_empty w || matches_where m w) ≡ true → InFilter (some w) m
filter-InFilter m [] h = tt
filter-InFilter m (kc ∷ w) h = matches_where-InFilter m (kc ∷ w) h

InFilter-filter : (m w : Metadata) → InFilter (some w) m → (is_empty w || matches_where m w) ≡ true
InFilter-filter m [] h = refl
InFilter-filter m (kc ∷ w) h = InFilter-matches_where m (kc ∷ w) h

module _ {Vec S : Type 0} (similarity : Vec → Vec → S) (lt : S → S → Bool) where
  -- The code passes exactly the entries that qualify.
  pub passes_iff :
      (filter : Option Metadata) (threshold : Option S) (c : S × Entry Vec)
      → (passes similarity lt filter threshold c.0 c.1 ≡ true) ↔ Qualifies lt filter threshold c
  unfolding passes
  passes_iff none none c = ((λ h. (tt, tt)), (λ q. refl))
  passes_iff none (some t) c = ((λ h. (tt, ground arith)), (λ q. ground arith))
  passes_iff (some w) none c = (
    (λ h. (filter-InFilter c.1.metadata w (ground arith), tt)),
    (λ q. ground (arith, InFilter-filter c.1.metadata w q.0)),
  )
  passes_iff (some w) (some t) c = (
    (λ h. (filter-InFilter c.1.metadata w (ground arith), ground arith)),
    (λ q. ground (arith, InFilter-filter c.1.metadata w q.0)),
  )
