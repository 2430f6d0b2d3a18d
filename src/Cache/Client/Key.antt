-- ===== src/Cache/Client/Key.antt =====
-- cache_key (protoprompt/cache.py).
use protoprompt.Prelude.{◌≡◌, refl, ap, [], ◌∷◌, ◌++◌, Text, length, length-append, arith}
use protoprompt.Cache.Client.{cache_key}

-- Two splits of one list whose second parts are equally long
same_split : (a b x y : Text) → a ++ x ≡ b ++ y → length x ≡ length y → (a ≡ b) × (x ≡ y)
same_split [] [] x y e l = (refl, e)
same_split [] (c ∷ b) x y e l = absurd (omega (arith, ap length e, length-append b y))
same_split (c ∷ a) [] x y e l = absurd (omega (arith, ap length e, length-append a x))
same_split (c ∷ a) (d ∷ b) x y e l = ground (arith, same_split a b x y)

-- Where the digests of different texts differ and all are equally long, as those of SHA-256 in
-- hexadecimal, two cache keys are equal only if both the models and the texts are.
pub cache_key-injective :
    (digest : Text → Text)
    → ((s t : Text) → length (digest s) ≡ length (digest t))
    → ((s t : Text) → digest s ≡ digest t → s ≡ t)
    → (m n s t : Text) → cache_key digest m s ≡ cache_key digest n t
    → (m ≡ n) × (s ≡ t)
unfolding cache_key
cache_key-injective digest same_length injective m n s t h =
    let split = same_split m n (0 ∷ digest s) (0 ∷ digest t) h (omega (arith, same_length s t)) in
    (split.0, injective s t (ground (arith, split.1)))
