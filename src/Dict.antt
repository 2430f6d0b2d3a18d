-- ===== src/Dict.antt =====
-- Python's `dict`, in insertion order, over keys with a Boolean equality. The laws are in `Dict/`.
pub mod Laws
pub mod Keys
pub mod Rows
use protoprompt.Prelude.{
  ◌≡◌, Bool, true, false, Option, none, some, List, [], ◌∷◌, ◌++◌, map, Eq, ◌==◌, if◌then◌else◌,
}

abbrev pub Dict {ℓ} : Type ℓ → Type ℓ → Type ℓ
Dict K V = List (K × V)

module _ {ℓ} {K V : Type ℓ} ⦃e : Eq K⦄ where
  -- d.get(k)
  unfoldable pub get : K → Dict K V → Option V
  get k [] = none
  get k ((j, v) ∷ d) = if j == k then some v else get k d

  -- d[k] = v: a new key comes last, an old one keeps its place.
  unfoldable pub put : K → V → Dict K V → Dict K V
  put k v [] = (k, v) ∷ []
  put k v ((j, w) ∷ d) = if j == k then (j, v) ∷ d else (j, w) ∷ put k v d

  -- d.pop(k, None)
  unfoldable pub remove : K → Dict K V → Dict K V
  remove k [] = []
  remove k ((j, v) ∷ d) = if j == k then remove k d else (j, v) ∷ remove k d

  -- k in d
  abbrev pub has : K → Dict K V → Bool
  has k d = elim (get k d) [ none ↦ false | some v ↦ true ]

  -- d.values()
  abbrev pub values : Dict K V → List V
  values = map (λ kv. kv.1)

  -- Every key stands once.
  abbrev pub Unique : Dict K V → Type ℓ
  Unique [] = Unit
  Unique ((k, v) ∷ d) = (get k d ≡ none) × Unique d

  -- UPDATE ... SET ... WHERE ...: every value after the change, which may look at the key
  unfoldable pub update : (K → V → V) → Dict K V → Dict K V
  update f [] = []
  update f ((k, v) ∷ d) = (k, f k v) ∷ update f d

  -- DELETE ... WHERE NOT p(key, value)
  unfoldable pub keep : (K → V → Bool) → Dict K V → Dict K V
  keep p [] = []
  keep p ((k, v) ∷ d) = if p k v then (k, v) ∷ keep p d else keep p d
