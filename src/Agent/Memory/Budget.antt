-- ===== src/Agent/Memory/Budget.antt =====
-- The loop of _enforce_budget (protoprompt/agent/working.py).
use protoprompt.Prelude.{
  ℕ, zero, suc, ◌≤◌, ◌≡◌, refl, ◌⊎◌, inl, inr, Bool, true, false, not, some, List, [], ◌∷◌, Text,
  codes, text_eq, text_eqb_iff, All, sum_by, length, arith, Result, ok, ltb, ltb-false→le,
  min_from-All, min_from-least, IsOrder,
}
use protoprompt.Dict
use protoprompt.Dict.{Dict}
use protoprompt.Dict.Laws.{get-remove}
use protoprompt.Dict.Keys.{length-remove}
use protoprompt.Agent.Item.{MemoryItem}
use protoprompt.Agent.Memory.{
  Config, Memory, used_tokens, unpinned_items, victim_of, evict_item, budget_loop, enforce_budget,
  guard_limit,
}
use protoprompt.Agent.Memory.Count.{
  Items, IsIndexed, IsLabelled, Found, remove-IsIndexed, unpinned-Found,
}
use protoprompt.Agent.Memory.Evict.{items-evict_item, evict_item-ok}

-- Nothing is new: each item of the second set is in the first, as it is.
abbrev pub Within : {Vec : Type 0} → Items Vec → Items Vec → Type 0
Within {Vec} before after =
    (k : Text) (i : MemoryItem Vec) → Dict.get k after ≡ some i → Dict.get k before ≡ some i

-- Every pinned item is still there, as it was.
abbrev pub PinnedStay : {Vec : Type 0} → Items Vec → Items Vec → Type 0
PinnedStay {Vec} before after =
    (k : Text) (i : MemoryItem Vec)
    → Dict.get k before ≡ some i
    → i.pinned ≡ true
    → Dict.get k after ≡ some i

module _ {Vec : Type 0} where
  remove-Within : (k : Text) (items : Items Vec) → Within items (Dict.remove k items)
  remove-Within k items j i h = ground (arith, get-remove k j items)

  remove-PinnedStay :
      (v : MemoryItem Vec) (items : Items Vec)
      → Found items v
      → not v.pinned ≡ true
      → PinnedStay items (Dict.remove v.id items)
  remove-PinnedStay v items found unpinned k i h p =
      ground (arith, get-remove v.id k items, text_eqb_iff v.id k, found, h)

  remove-IsLabelled :
      (k : Text) (items : Items Vec) → IsLabelled items → IsLabelled (Dict.remove k items)
  remove-IsLabelled k items l = record { at = λ j i h. l.at j i (remove-Within k items j i h) }

  no_items : (items : Items Vec) → length items ≤ 0 → sum_by (λ i. i.tokens) (Dict.values items) ≡ 0
  no_items [] h = refl
  no_items (x ∷ items) h = absurd (omega arith)

module _ {Vec S : Type 0} (c : Config Vec S) where
  -- What the budget loop promises of the state `s` that it starts from
  pub record Balanced (s : Memory Vec) (r : Result (Unit {0}) × Memory Vec) : Type 0 where
    pub returned : r.0 ≡ ok tt
    pub fits : (used_tokens r.1 ≤ c.max_tokens) ⊎ (unpinned_items r.1 ≡ [])
    pub indexed : IsIndexed r.1.items
    pub within : Within s.items r.1.items
    pub pinned_stay : PinnedStay s.items r.1.items

  stop :
      (s : Memory Vec)
      → IsIndexed s.items
      → (used_tokens s ≤ c.max_tokens) ⊎ (unpinned_items s ≡ [])
      → Balanced s (ok tt, s)
  stop s h fits = record {
    returned = refl;
    fits = fits;
    indexed = h;
    within = λ k i e. e;
    pinned_stay = λ k i e p. e;
  }

  -- The victim is in the hot set, and not pinned.
  victim-Found :
      (s : Memory Vec) (v : MemoryItem Vec) (vs : List (MemoryItem Vec))
      → IsIndexed s.items
      → unpinned_items s ≡ v ∷ vs
      → Found s.items (victim_of c s v vs) × (not (victim_of c s v vs).pinned ≡ true)
  unfolding victim_of
  victim-Found s v vs h e =
      let all = rw e at (unpinned-Found s h) in
      min_from-All c.lt (λ i. c.score i s.step s.goal)
        (λ i. Found s.items i × (not i.pinned ≡ true)) v vs all.0 all.1

  after :
      {s : Memory Vec} (v : MemoryItem Vec) {r : Result (Unit {0}) × Memory Vec} (s' : Memory Vec)
      → s'.items ≡ Dict.remove v.id s.items
      → Found s.items v
      → not v.pinned ≡ true
      → Balanced s' r
      → Balanced s r
  after {s} v s' same found unpinned b = record {
    returned = b.returned;
    fits = b.fits;
    indexed = b.indexed;
    within = λ k i e. remove-Within v.id s.items k i (rw same at (b.within k i e));
    pinned_stay = λ k i e p.
        b.pinned_stay k i (rw same (remove-PinnedStay v s.items found unpinned k i e p)) p;
  }

  budget_loop-fits :
      (rounds : ℕ) (s : Memory Vec)
      → ltb c.max_tokens (used_tokens s) ≡ false
      → budget_loop c (suc rounds) s ≡ (ok tt, s)
  unfolding budget_loop
  budget_loop-fits rounds s e = ground arith

  budget_loop-stuck :
      (rounds : ℕ) (s : Memory Vec)
      → ltb c.max_tokens (used_tokens s) ≡ true
      → unpinned_items s ≡ []
      → budget_loop c (suc rounds) s ≡ (ok tt, s)
  unfolding budget_loop
  budget_loop-stuck rounds s e e' = ground arith

  budget_loop-evicts :
      (rounds : ℕ) (s : Memory Vec) (v : MemoryItem Vec) (vs : List (MemoryItem Vec))
      → ltb c.max_tokens (used_tokens s) ≡ true
      → unpinned_items s ≡ v ∷ vs
      → (evict_item c (victim_of c s v vs).id (codes "over_budget") s).0 ≡ ok true
      → budget_loop c (suc rounds) s
        ≡ budget_loop c rounds (evict_item c (victim_of c s v vs).id (codes "over_budget") s).1
  unfolding budget_loop
  budget_loop-evicts rounds s v vs e e' ok_true = ground arith

  -- One round of the loop that evicts, given what the later rounds promise
  evict-Balanced :
      (rounds : ℕ) (s : Memory Vec) (v : MemoryItem Vec) (vs : List (MemoryItem Vec))
      → ltb c.max_tokens (used_tokens s) ≡ true
      → unpinned_items s ≡ v ∷ vs
      → IsIndexed s.items
      → IsLabelled s.items
      → length s.items ≤ suc rounds
      → ((s' : Memory Vec)
          → IsIndexed s'.items
          → IsLabelled s'.items
          → length s'.items ≤ rounds
          → Balanced s' (budget_loop c rounds s'))
      → Balanced s (budget_loop c (suc rounds) s)
  evict-Balanced rounds s v vs e e' h l n ih =
      let m = victim_of c s v vs in
      let found = victim-Found s v vs h e' in
      let labelled = l.at m.id m found.0 in
      let evicted = evict_item c m.id (codes "over_budget") s in
      let same = items-evict_item c m.id (codes "over_budget") s in
      rw
        (budget_loop-evicts rounds s v vs e e'
          (evict_item-ok c m.id (codes "over_budget") labelled.0 s m found.0 labelled.1))
        (after m evicted.1 same found.0 found.1 (
          ih evicted.1 (rw same (remove-IsIndexed m.id h))
            (rw same (remove-IsLabelled m.id s.items l))
            (rw same (omega (arith, length-remove m.id m s.items h.unique found.0)))))

  round-Balanced :
      (rounds : ℕ) (s : Memory Vec) (b : Bool) (us : List (MemoryItem Vec))
      → ltb c.max_tokens (used_tokens s) ≡ b
      → unpinned_items s ≡ us
      → IsIndexed s.items
      → IsLabelled s.items
      → length s.items ≤ suc rounds
      → ((s' : Memory Vec)
          → IsIndexed s'.items
          → IsLabelled s'.items
          → length s'.items ≤ rounds
          → Balanced s' (budget_loop c rounds s'))
      → Balanced s (budget_loop c (suc rounds) s)
  round-Balanced rounds s false us e e' h l n ih =
      rw (budget_loop-fits rounds s e) (stop s h (inl (ltb-false→le _ _ e)))
  round-Balanced rounds s true [] e e' h l n ih =
      rw (budget_loop-stuck rounds s e e') (stop s h (inr e'))
  round-Balanced rounds s true (v ∷ vs) e e' h l n ih = evict-Balanced rounds s v vs e e' h l n ih

  -- With a round for each item, the loop returns, and is balanced.
  pub budget_loop-Balanced :
      (rounds : ℕ) (s : Memory Vec)
      → IsIndexed s.items
      → IsLabelled s.items
      → length s.items ≤ rounds
      → Balanced s (budget_loop c rounds s)
  unfolding budget_loop used_tokens
  budget_loop-Balanced zero s h l n = stop s h (inl (omega (arith, no_items s.items n)))
  budget_loop-Balanced (suc rounds) s h l n =
      round-Balanced rounds s _ _ refl refl h l n (budget_loop-Balanced rounds)

  -- From at most 10,000 items that all have a label, `_enforce_budget` returns without raising;
  -- it ends within the token budget or with nothing left to evict, the items that it keeps are as
  -- they were, and every pinned item is among them.
  pub enforce_budget-Balanced :
      (s : Memory Vec)
      → IsIndexed s.items
      → IsLabelled s.items
      → length s.items ≤ guard_limit
      → Balanced s (enforce_budget c s)
  unfolding enforce_budget
  enforce_budget-Balanced s h l n = budget_loop-Balanced guard_limit s h l n

  -- What the loop evicts has the lowest score of all that is not pinned, where scores are ordered.
  pub victim-least :
      IsOrder c.lt
      → (s : Memory Vec) (v : MemoryItem Vec) (vs : List (MemoryItem Vec))
      → unpinned_items s ≡ v ∷ vs
      → All
          (λ i. c.lt (c.score i s.step s.goal) (c.score (victim_of c s v vs) s.step s.goal) ≡ false)
          (unpinned_items s)
  unfolding victim_of
  victim-least order s v vs e = rw e (min_from-least c.lt (λ i. c.score i s.step s.goal) order v vs)
