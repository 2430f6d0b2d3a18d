-- ===== src/Agent/Ids.antt =====
-- Item ids (new_item_id of protoprompt/agent/types.py, _next_id of
-- protoprompt/agent/working.py).
use protoprompt.Prelude.{
  ℕ, zero, suc, ◌+◌, ◌-◌, ◌*◌, ◌≤◌, ◌<◌, ◌≡◌, refl, sym, ap, ◌∙◌, inl, inr, none, some, [], ◌∷◌,
  ◌++◌, Text, text_eq, nat_eq, ◌==◌, length, arith, Bool-cases, Option-cases,
}
use Prim.Native.Nat.{◌/◌, ◌%◌}
use protoprompt.Dict
use protoprompt.Dict.{Dict, Unique}
use protoprompt.Dict.Laws.{get-remove_ne}
use protoprompt.Dict.Keys.{remove-Unique, length-remove}
use protoprompt.Store.{digits, decimal}
use protoprompt.Agent.Item.{MemoryItem, item_id, zeros}
use protoprompt.Agent.Memory.{Memory, fresh_from, next_seq}
use protoprompt.Agent.Memory.Count.{Items}

-- int(s), after the number that was read so far
read_from : ℕ → Text → ℕ
read_from n [] = n
read_from n (d ∷ s) = read_from (10 * n + (d - 48)) s

-- The digits of `n` are read back to `n`, whatever follows.
read-digits :
    (fuel n : ℕ) (acc : Text) → n ≤ fuel → read_from 0 (digits fuel n acc) ≡ read_from n acc
unfolding digits
read-digits zero n acc h = let e : 0 ≡ n = omega arith in ap (λ m. read_from m acc) e
read-digits (suc fuel) n acc h = elim (Bool-cases (n == 0)) [
  | inl done ↦ rw done (let e : 0 ≡ n = ground arith in ap (λ m. read_from m acc) e)
  | inr more ↦
      let positive : 0 < n = ground arith in
      let e : 10 * (n / 10) + (48 + n % 10 - 48) ≡ n = omega arith in
      rw more (
        read-digits fuel (n / 10) ((48 + n % 10) ∷ acc) (omega arith)
        ∙ unfold read_from in ap (λ m. read_from m acc) e)
]

read-decimal : (n : ℕ) → read_from 0 (decimal n) ≡ n
unfolding decimal
read-decimal n = elim (Bool-cases (n == 0)) [
  | inl done ↦ rw done (let e : 0 ≡ n = ground arith in (unfold read_from in e))
  | inr more ↦ rw more (read-digits n n [] (omega arith) ∙ unfold read_from in refl)
]

read-zeros : (k : ℕ) (s : Text) → read_from 0 (zeros k ++ s) ≡ read_from 0 s
unfolding read_from
read-zeros zero s = refl
read-zeros (suc k) s = read-zeros k s

-- The count that an id was made of
read_id : Text → ℕ
read_id [] = 0
read_id (c ∷ s) = read_from 0 s

read-item_id : (n : ℕ) → read_id (item_id n) ≡ n
unfolding item_id read_id
read-item_id n = read-zeros (6 - length (decimal n)) (decimal n) ∙ read-decimal n

-- Different counts give different ids.
pub item_id-injective : (m n : ℕ) → item_id m ≡ item_id n → m ≡ n
item_id-injective m n h = sym (read-item_id m) ∙ ap read_id h ∙ read-item_id n

module _ {Vec : Type 0} where
  fresh_from-ge : (fuel n : ℕ) (items : Items Vec) → n ≤ fresh_from fuel n items
  unfolding fresh_from
  fresh_from-ge zero n items = omega arith
  fresh_from-ge (suc fuel) n items = ground (arith, fresh_from-ge fuel (suc n) items)

  -- The search sees only the ids from its start on.
  fresh_from-agree :
      (fuel n : ℕ) (d d' : Items Vec)
      → ((m : ℕ) → n ≤ m → Dict.get (item_id m) d ≡ Dict.get (item_id m) d')
      → fresh_from fuel n d ≡ fresh_from fuel n d'
  unfolding fresh_from
  fresh_from-agree zero n d d' h = refl
  fresh_from-agree (suc fuel) n d d' h =
      let same = fresh_from-agree fuel (suc n) d d' (λ m le. h m (omega arith)) in
      ground (arith, h n (omega arith), same)

  fresh_from-stops :
      (fuel n : ℕ) (items : Items Vec)
      → Dict.get (item_id n) items ≡ none
      → fresh_from (suc fuel) n items ≡ n
  unfolding fresh_from
  fresh_from-stops fuel n items h = ground arith

  fresh_from-goes_on :
      (fuel n : ℕ) (items : Items Vec) (v : MemoryItem Vec)
      → Dict.get (item_id n) items ≡ some v
      → fresh_from (suc fuel) n items ≡ fresh_from fuel (suc n) items
  unfolding fresh_from
  fresh_from-goes_on fuel n items v h = ground arith

  no_entry : (k : Text) (items : Items Vec) → length items ≤ 0 → Dict.get k items ≡ none
  unfolding Dict.get
  no_entry k [] h = refl
  no_entry k (x ∷ items) h = absurd (omega arith)

  fresh_from-fresh :
      (fuel n : ℕ) (items : Items Vec)
      → Unique items
      → length items ≤ fuel
      → Dict.get (item_id (fresh_from fuel n items)) items ≡ none
  fresh_from-fresh zero n items u h = no_entry _ items h
  fresh_from-fresh (suc fuel) n items u h = elim (Option-cases (Dict.get (item_id n) items)) [
    | inl free ↦ rw (fresh_from-stops fuel n items free) free
    | inr (v, taken) ↦
        let id = item_id n in
        let d' = Dict.remove id items in
        let other = λ (m : ℕ) (le : suc n ≤ m).
          get-remove_ne id (item_id m) items
            (λ e. absurd (omega (arith, item_id-injective n m e))) in
        let m = fresh_from fuel (suc n) d' in
        let found =
          fresh_from-fresh fuel (suc n) d' (remove-Unique id items u)
            (omega (arith, length-remove id v items u taken)) in
        rw
          (
            fresh_from-goes_on fuel n items v taken,
            fresh_from-agree fuel (suc n) items d' (λ k le. sym (other k le)),
          )
          (sym (other m (fresh_from-ge fuel (suc n) d')) ∙ found)
  ]

  -- `_next_id` ends with an id that no item has, though the counter may have been used before.
  pub next_seq-fresh :
      (s : Memory Vec) → Unique s.items → Dict.get (item_id (next_seq s)) s.items ≡ none
  unfolding next_seq
  next_seq-fresh s u = fresh_from-fresh (length s.items) s.seq s.items u (omega arith)
