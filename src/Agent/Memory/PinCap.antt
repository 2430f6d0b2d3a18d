-- ===== src/Agent/Memory/PinCap.antt =====
-- _enforce_pin_cap (protoprompt/agent/working.py): what it keeps of the memory, and when it ends.
use protoprompt.Prelude.{
  ℕ, zero, suc, ◌+◌, ◌≤◌, ◌≡◌, refl, ◌∙◌, Bool, true, false, some, List, [], ◌∷◌, text_eq, sum_by,
  select, length, arith, if◌then◌else◌, leb, leb→le, leb-false→lt, map, Text, ◌==◌, text_eqb_iff,
  ap, inl, inr, Bool-cases, min_from, min_from-All,
}
use protoprompt.Dict
use protoprompt.Dict.{Dict}
use protoprompt.Dict.Keys.{sum-put_old, length-put_old}
use protoprompt.Agent.Item.{MemoryItem}
use protoprompt.Agent.Memory.{
  Config, Memory, used_tokens, pinned_items, update, set_pinned, older, pin_cap_loop,
  enforce_pin_cap, guard_limit,
}
use protoprompt.Agent.Memory.Count.{IsIndexed, Found, put-IsIndexed, pinned-Found}

module _ {Vec : Type 0} where
  -- One for each pinned item
  abbrev pub pin_count : MemoryItem Vec → ℕ
  pin_count i = if i.pinned then 1 else 0

  length-pinned :
      (is : List (MemoryItem Vec)) → length (select (λ i. i.pinned) is) ≡ sum_by pin_count is
  length-pinned [] = refl
  length-pinned (i ∷ is) = ground (arith, length-pinned is)

  abbrev pub pinned_tokens : Memory Vec → ℕ
  pinned_tokens s = sum_by (λ i. i.tokens) (pinned_items s)

  -- An item under its key, but for whether it is pinned
  abbrev pub bare : Text × MemoryItem Vec → Text × MemoryItem Vec
  bare kv = (kv.0, record kv.1 { pinned = false })

  -- Unpinning an item that is there changes nothing else of the items.
  bare-put :
      (v : MemoryItem Vec) (d : Dict Text (MemoryItem Vec))
      → Found d v
      → map bare (Dict.put v.id (set_pinned false v) d) ≡ map bare d
  unfolding Dict.put Dict.get
  bare-put v [] found = cc
  bare-put v ((k, w) ∷ d) found = elim (Bool-cases (k == v.id)) [
    | inl here ↦
        let same : w ≡ v = ground (arith, here, found) in
        let key : k ≡ v.id = (text_eqb_iff k v.id).0 here in rw (here, key, same) refl
    | inr later ↦ rw later (ap (◌∷◌ (bare (k, w))) (bare-put v d (ground (arith, found, later))))
  ]

  -- What the loop promises of the state `s` that it starts from
  pub record PinCapped (cap : ℕ) (s s' : Memory Vec) : Type 0 where
    pub fits : pinned_tokens s' ≤ cap
    pub indexed : IsIndexed s'.items
    pub same_tokens : used_tokens s' ≡ used_tokens s
    pub same_length : length s'.items ≡ length s.items
    pub same_items : map bare s'.items ≡ map bare s.items
    pub same_rest : record s' { items = s.items } ≡ s

  stop : (cap : ℕ) (s : Memory Vec) → IsIndexed s.items → pinned_tokens s ≤ cap → PinCapped cap s s
  stop cap s h fits = record {
    fits = fits;
    indexed = h;
    same_tokens = refl;
    same_length = refl;
    same_items = refl;
    same_rest = refl;
  }

  none_pinned : (s : Memory Vec) → length (pinned_items s) ≤ 0 → pinned_tokens s ≤ 0
  none_pinned s h = no_sum (pinned_items s) h
    where
      no_sum : (is : List (MemoryItem Vec)) → length is ≤ 0 → sum_by (λ i. i.tokens) is ≤ 0
      no_sum [] h = omega arith
      no_sum (i ∷ is) h = absurd (omega arith)

  unpin-lem :
      (v : MemoryItem Vec) (s : Memory Vec)
      → Found s.items v
      → (update v.id (set_pinned false) s).1
        ≡ record s { items = Dict.put v.id (set_pinned false v) s.items }
  unfolding update
  unpin-lem v s found = ground (arith, found)

  -- Unpinning a pinned item leaves one fewer, and no other count changes.
  unpin-counts :
      (v : MemoryItem Vec) (s : Memory Vec)
      → IsIndexed s.items
      → Found s.items v
      → v.pinned ≡ true
      → let s' = record s { items = Dict.put v.id (set_pinned false v) s.items } in
        (length (pinned_items s') + 1 ≡ length (pinned_items s))
        × (used_tokens s' ≡ used_tokens s)
        × (length s'.items ≡ length s.items)
  unfolding pinned_items used_tokens
  unpin-counts v s h found p =
      let i' = set_pinned false v in
      (
        omega (
          arith,
          sum-put_old pin_count v.id i' v s.items found,
          length-pinned (Dict.values (Dict.put v.id i' s.items)),
          length-pinned (Dict.values s.items),
          counted p,
        ),
        omega (arith, sum-put_old (λ i. i.tokens) v.id i' v s.items found),
        length-put_old v.id i' v s.items found,
      )
    where
      counted : v.pinned ≡ true → pin_count v ≡ 1
      counted p = rw p

  pin_cap_loop-stops :
      (cap rounds : ℕ) (s : Memory Vec)
      → leb (pinned_tokens s) cap ≡ true
      → pin_cap_loop cap (suc rounds) s ≡ s
  unfolding pin_cap_loop
  pin_cap_loop-stops cap rounds s e = ground arith

  pin_cap_loop-unpins :
      (cap rounds : ℕ) (s : Memory Vec) (p : MemoryItem Vec) (ps : List (MemoryItem Vec))
      → leb (pinned_tokens s) cap ≡ false
      → pinned_items s ≡ p ∷ ps
      → pin_cap_loop cap (suc rounds) s
        ≡ pin_cap_loop cap rounds (update (min_from older (λ i. i) p ps).id (set_pinned false) s).1
  unfolding pin_cap_loop
  pin_cap_loop-unpins cap rounds s p ps e e' = ground arith

  unpin-PinCapped :
      (cap rounds : ℕ) (s : Memory Vec) (v : MemoryItem Vec)
      → IsIndexed s.items
      → Found s.items v
      → v.pinned ≡ true
      → length (pinned_items s) ≤ suc rounds
      → ((s' : Memory Vec)
          → IsIndexed s'.items
          → length (pinned_items s') ≤ rounds
          → PinCapped cap s' (pin_cap_loop cap rounds s'))
      → PinCapped cap s (pin_cap_loop cap rounds (update v.id (set_pinned false) s).1)
  unpin-PinCapped cap rounds s v h found p n ih =
      let s' : Memory Vec = record s { items = Dict.put v.id (set_pinned false v) s.items } in
      let counts = unpin-counts v s h found p in
      let later =
        ih s' (put-IsIndexed v.id (set_pinned false v) refl h) (omega (arith, counts.0)) in
      rw (unpin-lem v s found) (record {
        fits = later.fits;
        indexed = later.indexed;
        same_tokens = later.same_tokens ∙ counts.1;
        same_length = later.same_length ∙ counts.2;
        same_items = later.same_items ∙ bare-put v s.items found;
        same_rest = ap {A = Memory Vec} (λ t. record t { items = s.items }) later.same_rest;
      })

  round-PinCapped :
      (cap rounds : ℕ) (s : Memory Vec) (b : Bool) (ps : List (MemoryItem Vec))
      → leb (pinned_tokens s) cap ≡ b
      → pinned_items s ≡ ps
      → IsIndexed s.items
      → length (pinned_items s) ≤ suc rounds
      → ((s' : Memory Vec)
          → IsIndexed s'.items
          → length (pinned_items s') ≤ rounds
          → PinCapped cap s' (pin_cap_loop cap rounds s'))
      → PinCapped cap s (pin_cap_loop cap (suc rounds) s)
  round-PinCapped cap rounds s true ps e e' h n ih =
      rw (pin_cap_loop-stops cap rounds s e) (stop cap s h (leb→le _ _ e))
  round-PinCapped cap rounds s false [] e e' h n ih =
      absurd (omega (arith, leb-false→lt _ _ e, none_pinned s (rw e' (omega arith))))
  round-PinCapped cap rounds s false (p ∷ ps) e e' h n ih =
      let all = rw e' at (pinned-Found s h) in
      let victim =
        min_from-All older (λ i. i) (λ i. Found s.items i × (i.pinned ≡ true)) p ps all.0 all.1 in
      rw (pin_cap_loop-unpins cap rounds s p ps e e')
        (unpin-PinCapped cap rounds s (min_from older (λ i. i) p ps) h victim.0 victim.1 n ih)

  pub pin_cap_loop-PinCapped :
      (cap rounds : ℕ) (s : Memory Vec)
      → IsIndexed s.items
      → length (pinned_items s) ≤ rounds
      → PinCapped cap s (pin_cap_loop cap rounds s)
  unfolding pin_cap_loop
  pin_cap_loop-PinCapped cap zero s h n = stop cap s h (omega (arith, none_pinned s n))
  pin_cap_loop-PinCapped cap (suc rounds) s h n =
      round-PinCapped cap rounds s _ _ refl refl h n (pin_cap_loop-PinCapped cap rounds)

-- From at most 10,000 pinned items, `_enforce_pin_cap` ends with the pinned tokens within the cap,
-- and keeps the items in their places with all that they hold but the pins, the tokens in use, and
-- everything else of the memory.
pub enforce_pin_cap-PinCapped :
    {Vec S : Type 0} (c : Config Vec S) (s : Memory Vec) (cap : ℕ)
    → c.max_pinned_tokens ≡ some cap
    → IsIndexed s.items
    → length (pinned_items s) ≤ guard_limit
    → PinCapped cap s (enforce_pin_cap c s)
unfolding enforce_pin_cap
enforce_pin_cap-PinCapped c s cap e h n =
    rw (e, enforce_pin_cap) (pin_cap_loop-PinCapped cap guard_limit s h n)
