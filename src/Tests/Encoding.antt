-- ===== src/Tests/Encoding.antt =====
-- An injective numbering of texts: with it a digest that never collides, and a scope's digest.
use protoprompt.Prelude.{
  List, map, ℕ, zero, suc, ◌+◌, ◌*◌, ◌<◌, ◌≡◌, refl, ap, [], ◌∷◌, Text, length, arith,
}
use mathlib.Core.Path.{ap₂}

-- 2 ^ x * (2 * m + 1)
shift : ℕ → ℕ → ℕ
shift zero m = 2 * m + 1
shift (suc x) m = 2 * shift x m

shift-pos : (x m : ℕ) → 0 < shift x m
unfolding shift
shift-pos zero m = omega arith
shift-pos (suc x) m = omega (arith, shift-pos x m)

shift-injective : (x y m n : ℕ) → shift x m ≡ shift y n → (x ≡ y) × (m ≡ n)
unfolding shift
shift-injective zero zero m n h = (refl, omega arith)
shift-injective zero (suc y) m n h = absurd (omega arith)
shift-injective (suc x) zero m n h = absurd (omega arith)
shift-injective (suc x) (suc y) m n h =
    let ih = shift-injective x y m n (omega arith) in (ap suc ih.0, ih.1)

encode : Text → ℕ
encode [] = 0
encode (x ∷ xs) = shift x (encode xs)

encode-injective : (s t : Text) → encode s ≡ encode t → s ≡ t
unfolding encode
encode-injective [] [] h = refl
encode-injective [] (y ∷ t) h = absurd (omega (arith, shift-pos y (encode t)))
encode-injective (x ∷ s) [] h = absurd (omega (arith, shift-pos x (encode s)))
encode-injective (x ∷ s) (y ∷ t) h =
    let e = shift-injective x y (encode s) (encode t) h in ap₂ ◌∷◌ e.0 (encode-injective s t e.1)

pub text_digest : Text → Text
text_digest t = encode t ∷ []

pub length-text_digest : (s t : Text) → length (text_digest s) ≡ length (text_digest t)
unfolding text_digest
length-text_digest s t = refl

pub text_digest-injective : (s t : Text) → text_digest s ≡ text_digest t → s ≡ t
unfolding text_digest
text_digest-injective s t h = encode-injective s t (ground arith)

pub scope_digest : List Text → Text
scope_digest xs = encode (map encode xs) ∷ []

pub length-scope_digest : (xs ys : List Text) → length (scope_digest xs) ≡ length (scope_digest ys)
unfolding scope_digest
length-scope_digest xs ys = refl

map-encode-injective : (xs ys : List Text) → map encode xs ≡ map encode ys → xs ≡ ys
map-encode-injective [] [] h = refl
map-encode-injective [] (y ∷ ys) h = cc
map-encode-injective (x ∷ xs) [] h = cc
map-encode-injective (x ∷ xs) (y ∷ ys) h =
    let head : encode x ≡ encode y = cc in
    let tail : map encode xs ≡ map encode ys = cc in
    let first = encode-injective x y head in let rest = map-encode-injective xs ys tail in cc

pub scope_digest-injective : (xs ys : List Text) → scope_digest xs ≡ scope_digest ys → xs ≡ ys
unfolding scope_digest
scope_digest-injective xs ys h =
    map-encode-injective xs ys (encode-injective (map encode xs) (map encode ys) (ground arith))
