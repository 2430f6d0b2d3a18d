-- ===== src/Ledger/Policy.antt =====
-- What the policies of the ledger share (protoprompt/ledger/admission.py, policy.py and
-- recall/policy.py): the equality of kinds and of origins, tests on tuples of them, and what is asked
-- of floats.
pub mod Admission
pub mod Recall
pub mod Composed
pub mod Admitted
pub mod Packing
use protoprompt.Prelude.{
  ℕ, ◌≡◌, ◌↔◌, refl, sym, ap, ◌∙◌, Bool, true, false, not, ◌||◌, List, [], ◌∷◌, Eq, ◌==◌, nat_eqb,
  nat_eqb_iff, any_of, if◌then◌else◌,
}
use protoprompt.Ledger.{
  MemoryKind, fact, decision, preference, episode, procedure, MemoryOrigin, unknown, legacy_unknown,
  user_input, document, tool_output, model_extraction, host_assertion,
}

-- Two members of an enumeration are equal if their places are.
abbrev kind_place : MemoryKind → ℕ
kind_place fact = 0
kind_place decision = 1
kind_place preference = 2
kind_place episode = 3
kind_place procedure = 4

abbrev kind_at : ℕ → MemoryKind
kind_at n =
    if nat_eqb n 0
    then fact
    else if nat_eqb n 1
    then decision
    else if nat_eqb n 2
    then preference
    else if nat_eqb n 3
    then episode
    else procedure

pub kind_at-kind_place : (k : MemoryKind) → kind_at (kind_place k) ≡ k
kind_at-kind_place fact = refl
kind_at-kind_place decision = refl
kind_at-kind_place preference = refl
kind_at-kind_place episode = refl
kind_at-kind_place procedure = refl

abbrev origin_place : MemoryOrigin → ℕ
origin_place unknown = 0
origin_place legacy_unknown = 1
origin_place user_input = 2
origin_place document = 3
origin_place tool_output = 4
origin_place model_extraction = 5
origin_place host_assertion = 6

abbrev origin_at : ℕ → MemoryOrigin
origin_at n =
    if nat_eqb n 0
    then unknown
    else if nat_eqb n 1
    then legacy_unknown
    else if nat_eqb n 2
    then user_input
    else if nat_eqb n 3
    then document
    else if nat_eqb n 4
    then tool_output
    else if nat_eqb n 5
    then model_extraction
    else host_assertion

pub origin_at-origin_place : (o : MemoryOrigin) → origin_at (origin_place o) ≡ o
origin_at-origin_place unknown = refl
origin_at-origin_place legacy_unknown = refl
origin_at-origin_place user_input = refl
origin_at-origin_place document = refl
origin_at-origin_place tool_output = refl
origin_at-origin_place model_extraction = refl
origin_at-origin_place host_assertion = refl

pub by_place :
    {A : Type 0} (place : A → ℕ) (at : ℕ → A)
    → ((x : A) → at (place x) ≡ x)
    → (x y : A) → (nat_eqb (place x) (place y) ≡ true) ↔ (x ≡ y)
by_place place at back x y = (
  (λ h. sym (back x) ∙ (ap at ((nat_eqb_iff (place x) (place y)).0 h) ∙ back y)),
  (λ e. (nat_eqb_iff (place x) (place y)).1 (ap place e)),
)

instance abbrev pub kind_eq : Eq MemoryKind
kind_eq = record {
  same = λ j k. nat_eqb (kind_place j) (kind_place k);
  same_iff = by_place kind_place kind_at kind_at-kind_place;
}

instance abbrev pub origin_eq : Eq MemoryOrigin
origin_eq = record {
  same = λ o p. nat_eqb (origin_place o) (origin_place p);
  same_iff = by_place origin_place origin_at origin_at-origin_place;
}

module _ {A : Type 0} ⦃e : Eq A⦄ where
  -- x in xs
  unfoldable pub is_among : A → List A → Bool
  is_among x xs = any_of (λ y. x == y) xs

  -- set(xs).intersection(ys)
  unfoldable pub do_overlap : List A → List A → Bool
  unfolding is_among
  do_overlap xs ys = any_of (λ x. is_among x ys) xs

  -- set(xs).issubset(ys)
  unfoldable pub is_subset : List A → List A → Bool
  unfolding is_among
  is_subset xs ys = not (any_of (λ x. not (is_among x ys)) xs)

  -- len(set(xs)) != len(xs)
  unfoldable pub has_repeats : List A → Bool
  unfolding is_among
  has_repeats [] = false
  has_repeats (x ∷ xs) = is_among x xs || has_repeats xs

-- Floats: `hundredths n` is the literal of n / 100.
pub record Floats (F : Type 0) : Type 0 where
  pub is_finite : F → Bool
  pub lt : F → F → Bool
  pub le : F → F → Bool
  pub same : F → F → Bool
  pub hundredths : ℕ → F
