-- ===== src/Agent/Manifest/Symbols.antt =====
-- Manifest.by_symbols (protoprompt/agent/manifest.py): which entries answer, and in which order.
use protoprompt.Prelude.{
  ◌+◌, ◌≤◌, ◌<◌, ◌⊎◌, inl, inr, any_of, ◌==◌, text_eq, if◌then◌else◌, Bool-cases, nat_eqb_iff, ℕ,
  ◌≡◌, refl, false, List, [], ◌∷◌, map, Text, nat_eq, All, select, ltb, arith, sort_desc,
  sort_desc-perm, sort_desc-Descending, Descending, IsOrder, sort_desc-All, length,
}
use mathlib.Core.List.{Perm}
use mathlib.Core.List.Perm
use protoprompt.Agent.Manifest.{ManifestEntry, Manifest, overlap, ranks_before, scored, by_symbols}

-- Ranks are ordered: more wanted symbols come first, and then what was evicted earlier.
ranks_before-IsOrder : IsOrder ranks_before
unfolding ranks_before
ranks_before-IsOrder = record { asym = λ a b h. ground arith; le_trans = λ a b c h k. ground arith }

scored-entries :
    (wanted : List Text) (m : Manifest)
    → map (λ p. p.1) (scored wanted m) ≡ select (λ e. ltb 0 (overlap wanted e)) m
unfolding scored
scored-entries wanted [] = refl
scored-entries wanted (e ∷ m) = ground (arith, scored-entries wanted m)

scored-overlap :
    (wanted : List Text) (m : Manifest) → All (λ p. p.0 ≡ overlap wanted p.1) (scored wanted m)
unfolding scored
scored-overlap wanted [] = tt
scored-overlap wanted (e ∷ m) = ground (arith, scored-overlap wanted m)

shares_none : (symbols : List Text) → length (select {A = Text} (λ s. false) symbols) ≡ 0
shares_none [] = refl
shares_none (s ∷ symbols) = shares_none symbols

scored-none : (m : Manifest) → scored [] m ≡ []
unfolding scored overlap
scored-none [] = refl
scored-none (e ∷ m) = rw (shares_none e.symbols) (scored-none m)

by_symbols-lem :
    (wanted : List Text) (m : Manifest)
    → by_symbols wanted m ≡ map (λ p. p.1) (sort_desc ranks_before (λ p. p) (scored wanted m))
unfolding by_symbols
by_symbols-lem [] m = rw (scored-none m) (unfold sort_desc in refl)
by_symbols-lem (w ∷ ws) m = refl

-- How many of the symbols are wanted
abbrev pub shared : List Text → List Text → ℕ
shared wanted [] = 0
shared wanted (s ∷ symbols) = (if any_of (λ w. w == s) wanted then 1 else 0) + shared wanted symbols

overlap-shared :
    (wanted symbols : List Text)
    → length (select (λ s. any_of (λ w. w == s) wanted) symbols) ≡ shared wanted symbols
overlap-shared wanted [] = refl
overlap-shared wanted (s ∷ symbols) = ground (arith, overlap-shared wanted symbols)

overlap-lem : (wanted : List Text) (e : ManifestEntry) → overlap wanted e ≡ shared wanted e.symbols
unfolding overlap
overlap-lem wanted e = overlap-shared wanted e.symbols

-- An entry comes before another: more of its symbols are wanted, or as many and it was not evicted
-- later.
abbrev pub Precedes : List Text → ManifestEntry → ManifestEntry → Type 0
Precedes wanted e f =
    (shared wanted f.symbols < shared wanted e.symbols)
    ⊎ ((shared wanted f.symbols ≡ shared wanted e.symbols) × (e.evicted_at ≤ f.evicted_at))

-- Every entry comes before those that follow it.
abbrev pub Ordered : List Text → Manifest → Type 0
Ordered wanted [] = Unit
Ordered wanted (e ∷ es) = All (Precedes wanted e) es × Ordered wanted es

Precedes-of :
    (wanted : List Text) (p q : ℕ × ManifestEntry)
    → p.0 ≡ overlap wanted p.1
    → q.0 ≡ overlap wanted q.1
    → ranks_before p q ≡ false
    → Precedes wanted p.1 q.1
unfolding ranks_before
Precedes-of wanted p q hp hq h = elim (Bool-cases (p.0 == q.0)) [
  | inl same ↦ inr (
    omega (
      arith,
      hp,
      hq,
      overlap-lem wanted p.1,
      overlap-lem wanted q.1,
      (nat_eqb_iff p.0 q.0).0 same,
    ),
    ground (arith, h, same),
  )
  | inr other ↦
      let less : q.0 < p.0 = ground (arith, h, other) in
      inl (omega (arith, hp, hq, overlap-lem wanted p.1, overlap-lem wanted q.1, less))
]

Precedes-All :
    (wanted : List Text) (p : ℕ × ManifestEntry) (ps : List (ℕ × ManifestEntry))
    → p.0 ≡ overlap wanted p.1
    → All (λ q. q.0 ≡ overlap wanted q.1) ps
    → All (λ q. ranks_before p q ≡ false) ps
    → All (Precedes wanted p.1) (map (λ q. q.1) ps)
Precedes-All wanted p [] hp hs all = tt
Precedes-All wanted p (q ∷ ps) hp hs all =
    (Precedes-of wanted p q hp hs.0 all.0, Precedes-All wanted p ps hp hs.1 all.1)

Ordered-of :
    (wanted : List Text) (ps : List (ℕ × ManifestEntry))
    → All (λ q. q.0 ≡ overlap wanted q.1) ps
    → Descending ranks_before (λ q. q) ps
    → Ordered wanted (map (λ q. q.1) ps)
Ordered-of wanted [] hs d = tt
Ordered-of wanted (p ∷ ps) hs d =
    (Precedes-All wanted p ps hs.0 hs.1 d.0, Ordered-of wanted ps hs.1 d.1)

select-shared :
    (wanted : List Text) (m : Manifest)
    → select (λ e. ltb 0 (overlap wanted e)) m ≡ select (λ e. ltb 0 (shared wanted e.symbols)) m
select-shared wanted [] = refl
select-shared wanted (e ∷ m) = rw (overlap-lem wanted e, select-shared wanted m) refl

-- Whatever the symbols, `by_symbols` finds every entry of the manifest that has one of them, and no
-- other, those with more of them first and, among equals, those evicted earlier first.
pub by_symbols-Ranked :
    (wanted : List Text) (m : Manifest)
    → Perm (by_symbols wanted m) (select (λ e. ltb 0 (shared wanted e.symbols)) m)
      × Ordered wanted (by_symbols wanted m)
by_symbols-Ranked wanted m = rw (by_symbols-lem wanted m) (
  rw (← select-shared wanted m, ← scored-entries wanted m)
      (Perm.map (λ p. p.1) (sort_desc-perm ranks_before (λ p. p) (scored wanted m))),
  Ordered-of wanted (sort_desc ranks_before (λ p. p) (scored wanted m))
      (sort_desc-All ranks_before (λ p. p) _ _ (scored-overlap wanted m))
      (sort_desc-Descending ranks_before (λ p. p) ranks_before-IsOrder (scored wanted m)),
)
