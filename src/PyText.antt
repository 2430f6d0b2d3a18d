-- ===== src/PyText.antt =====
-- The methods of Python's `str` that the program calls, on texts as lists of code points.
use protoprompt.Prelude.{
  ℕ, ◌≡◌, refl, Bool, true, false, ◌||◌, ◌&&◌, List, [], ◌∷◌, ◌++◌, Text, leb, ltb, nat_eqb,
  if◌then◌else◌,
}
use mathlib.Core.List.{reverse}

-- str.isspace() of one character
unfoldable pub is_space : ℕ → Bool
is_space c =
    (leb 9 c && leb c 13)
    || (leb 28 c && leb c 32)
    || nat_eqb c 133
    || nat_eqb c 160
    || nat_eqb c 5760
    || (leb 8192 c && leb c 8202)
    || nat_eqb c 8232
    || nat_eqb c 8233
    || nat_eqb c 8239
    || nat_eqb c 8287
    || nat_eqb c 12288

unfoldable pub lstrip : Text → Text
lstrip [] = []
lstrip (c ∷ s) = if is_space c then lstrip s else c ∷ s

-- s.strip()
unfoldable pub strip : Text → Text
unfolding lstrip is_space
strip s = reverse (lstrip (reverse (lstrip s)))

-- not s
abbrev pub is_empty {ℓ} : {A : Type ℓ} → List A → Bool
is_empty [] = true
is_empty (c ∷ s) = false

-- The words of s.split(), after the letters of the word that is being read.
unfoldable pub words_from : Text → Text → List Text
words_from w [] = if is_empty w then [] else w ∷ []
words_from w (c ∷ s) =
    let stop = words_from [] s in
    let more = words_from (w ++ c ∷ []) s in
    if is_space c then (if is_empty w then stop else w ∷ stop) else more

-- s.split()
unfoldable pub split_words : Text → List Text
unfolding words_from is_space
split_words = words_from []

-- sep.join(parts)
unfoldable pub join : Text → List Text → Text
join sep [] = []
join sep (p ∷ []) = p
join sep (p ∷ q ∷ ps) = p ++ (sep ++ join sep (q ∷ ps))

-- s < t, by code points, in which order UTF-8 agrees
unfoldable pub text_ltb : Text → Text → Bool
text_ltb [] [] = false
text_ltb [] (b ∷ t) = true
text_ltb (a ∷ s) [] = false
text_ltb (a ∷ s) (b ∷ t) =
    let rest = text_ltb s t in if ltb a b then true else (if nat_eqb a b then rest else false)

strip_runs : strip (32 ∷ 97 ∷ 32 ∷ 98 ∷ 10 ∷ []) ≡ 97 ∷ 32 ∷ 98 ∷ []
unfolding strip
strip_runs = refl

split_words_runs : split_words (32 ∷ 97 ∷ 32 ∷ 32 ∷ 98 ∷ []) ≡ (97 ∷ []) ∷ (98 ∷ []) ∷ []
unfolding split_words
split_words_runs = refl
