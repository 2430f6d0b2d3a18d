-- ===== src/Store/Isolation.antt =====
-- A query (protoprompt/store/memory.py) that is pinned to a scope.
use protoprompt.Prelude.{
  ℕ, ◌≡◌, refl, sym, ap, ◌∙◌, inl, inr, Bool, true, Option, none, some, List, [], ◌∷◌, Text,
  text_eq, text_eqb_iff, ok, All, arith, Option-cases,
}
use protoprompt.Dict
use protoprompt.Value.{Value, null, str, Metadata, value_eqb, value_eqb-str_iff}
use protoprompt.Scope.{MemoryScope, to_metadata, merge_where}
use protoprompt.Scope.Merge.{Pinned, merge_where-pins}
use protoprompt.Store.{Entry, InMemStore, value_of, meets, matches_where, passes, query}
use protoprompt.Store.Query.{query_sound}

value_of-none : (key : Text) (m : Metadata) → Dict.get key m ≡ none → value_of key m ≡ null
unfolding value_of
value_of-none key m h = ground arith

value_of-some :
    (key : Text) (v : Value) (m : Metadata) → Dict.get key m ≡ some v → value_of key m ≡ v
unfolding value_of
value_of-some key v m h = ground arith

value_of-str :
    (key value : Text) (m : Metadata)
    → value_eqb (value_of key m) (str value) ≡ true
    → Dict.get key m ≡ some (str value)
unfolding value_of
value_of-str key value m h = elim (Option-cases (Dict.get key m)) [
  | inl absent ↦ cc ((value_eqb-str_iff (value_of key m) value).0 h, value_of-none key m absent)
  | inr (v, found) ↦
      found
      ∙ ap some (sym (value_of-some key v m found) ∙ (value_eqb-str_iff (value_of key m) value).0 h)
]

matches_where-get :
    (m w : Metadata) (key value : Text)
    → matches_where m w ≡ true
    → Dict.get key w ≡ some (str value)
    → Dict.get key m ≡ some (str value)
unfolding matches_where meets Dict.get
matches_where-get m [] key value h g = cc
matches_where-get m ((k, c) ∷ w) key value h g =
    ground (arith, matches_where-get m w key value, value_of-str key value m, text_eqb_iff k key)

pins-hold :
    (fields : List (Text × Text)) (m w : Metadata)
    → matches_where m w ≡ true
    → Pinned fields w
    → Pinned fields m
pins-hold [] m w h p = tt
pins-hold ((k, v) ∷ fields) m w h p = (matches_where-get m w k v h p.0, pins-hold fields m w h p.1)

-- Metadata that matches a filter which `merge_where` made holds every non-empty field of the scope,
-- with the scope's value.
pub matches_where-Pinned :
    (s : MemoryScope) (w w' m : Metadata)
    → merge_where s w ≡ ok w'
    → matches_where m w' ≡ true
    → Pinned (to_metadata s) m
matches_where-Pinned s w w' m merged h =
    pins-hold (to_metadata s) m w' h (merge_where-pins s w w' merged).0

module _ {Vec S : Type 0} (similarity : Vec → Vec → S) (lt : S → S → Bool) where
  passes-Pinned :
      (s : MemoryScope) (w w' : Metadata) (threshold : Option S) (score : S) (e : Entry Vec)
      → merge_where s w ≡ ok w'
      → passes similarity lt (some w') threshold score e ≡ true
      → Pinned (to_metadata s) e.metadata
  unfolding passes
  passes-Pinned s w [] threshold score e merged h =
      matches_where-Pinned s w [] e.metadata merged (unfold matches_where in refl)
  passes-Pinned s w (c ∷ w') threshold score e merged h =
      matches_where-Pinned s w (c ∷ w') e.metadata merged (ground arith)

  hits-Pinned :
      (s : MemoryScope) (w w' : Metadata) (embedding : Vec) (threshold : Option S)
      (hits : List (S × Entry Vec))
      → merge_where s w ≡ ok w'
      → All
          (λ c.
            (passes similarity lt (some w') threshold c.0 c.1 ≡ true)
            × (c.0 ≡ similarity embedding c.1.embedding))
          hits
      → All (λ c. Pinned (to_metadata s) c.1.metadata) hits
  hits-Pinned s w w' embedding threshold [] merged all = tt
  hits-Pinned s w w' embedding threshold (c ∷ hits) merged all = (
    passes-Pinned s w w' threshold c.0 c.1 merged all.0.0,
    hits-Pinned s w w' embedding threshold hits merged all.1,
  )

  -- Every hit of a query whose filter `merge_where` pinned to a scope has, in its metadata, every
  -- non-empty field of that scope with the scope's value.
  pub query-isolated :
      (s : MemoryScope) (w w' : Metadata) (store : InMemStore Vec) (embedding : Vec) (top_k : ℕ)
      (threshold : Option S)
      → merge_where s w ≡ ok w'
      → All
          (λ c. Pinned (to_metadata s) c.1.metadata)
          (query similarity lt store embedding top_k (some w') threshold)
  query-isolated s w w' store embedding top_k threshold merged =
      hits-Pinned s w w' embedding threshold _ merged
        (query_sound similarity lt store embedding top_k (some w') threshold).0
