-- ===== src/Value.antt =====
-- The values of metadata and of filters: Python's `None`, `str`, `int`, `bool`, a list of texts, and
-- the condition {"$in": [...]} over texts.
use protoprompt.Prelude.{
  ℕ, ◌≡◌, ◌↔◌, Bool, true, false, List, [], ◌∷◌, Text, ◌==◌, text_eq, nat_eq, text_eqb_iff,
  if◌then◌else◌, arith,
}
use protoprompt.Dict.{Dict}

pub data Value : Type 0 where
  null : Value
  str : Text → Value
  int : ℕ → Value
  bool : Bool → Value
  texts one_of : List Text → Value

abbrev pub Metadata : Type 0
Metadata = Dict Text Value

-- int(b)
abbrev pub bool_int : Bool → ℕ
bool_int false = 0
bool_int true = 1

unfoldable pub same_texts : List Text → List Text → Bool
same_texts [] [] = true
same_texts (s ∷ ss) (t ∷ ts) = if s == t then same_texts ss ts else false
same_texts _ _ = false

-- a == b, where a `bool` is the number that it stands for
unfoldable pub value_eqb : Value → Value → Bool
unfolding same_texts
value_eqb null null = true
value_eqb (str s) (str t) = s == t
value_eqb (int m) (int n) = m == n
value_eqb (int m) (bool b) = m == bool_int b
value_eqb (bool b) (int n) = bool_int b == n
value_eqb (bool a) (bool b) = bool_int a == bool_int b
value_eqb (texts ss) (texts ts) = same_texts ss ts
value_eqb (one_of ss) (one_of ts) = same_texts ss ts
value_eqb _ _ = false

pub value_eqb-str_iff : (v : Value) (t : Text) → (value_eqb v (str t) ≡ true) ↔ (v ≡ str t)
unfolding value_eqb
value_eqb-str_iff (str s) t = ground (arith, text_eqb_iff s t)
value_eqb-str_iff null t = ((λ h. cc), (λ h. cc))
value_eqb-str_iff _ t = ((λ h. cc), (λ h. cc))
