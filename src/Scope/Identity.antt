-- ===== src/Scope/Identity.antt =====
-- Storage ids (protoprompt/scope.py).
use protoprompt.Prelude.{◌≡◌, refl, true, false, List, [], ◌∷◌, ◌++◌, Text, codes, length, arith}
use protoprompt.Scope.{MemoryScope, scope_is_empty, correlation_id, storage_doc_id}

pub append_cancel : (p x y : Text) → p ++ x ≡ p ++ y → x ≡ y
append_cancel [] x y h = h
append_cancel (c ∷ p) x y h = append_cancel p x y (ground arith)

-- Two splits of one list whose first parts are equally long
prefix_split : (a b x y : Text) → length a ≡ length b → a ++ x ≡ b ++ y → (a ≡ b) × (x ≡ y)
prefix_split [] [] x y l h = (refl, h)
prefix_split [] (c ∷ b) x y l h = absurd (omega arith)
prefix_split (c ∷ a) [] x y l h = absurd (omega arith)
prefix_split (c ∷ a) (d ∷ b) x y l h = ground (arith, prefix_split a b x y)

-- The four fields tell a scope.
scope_of :
    {s t : MemoryScope}
    → s.tenant ∷ s.user ∷ s.thread ∷ s.kind ∷ [] ≡ t.tenant ∷ t.user ∷ t.thread ∷ t.kind ∷ []
    → s ≡ t
scope_of {s} {t} h =
    let a : s.tenant ≡ t.tenant = cc in
    let b : s.user ≡ t.user = cc in
    let c : s.thread ≡ t.thread = cc in
    let d : s.kind ≡ t.kind = cc in
    λ k. record { tenant = a k; user = b k; thread = c k; kind = d k }

-- Where the digests of different lists of texts differ and all are equally long, scopes that are not
-- empty give equal storage ids only to the same logical id in the same scope.
pub storage_doc_id-injective :
    (digest : List Text → Text)
    → ((xs ys : List Text) → length (digest xs) ≡ length (digest ys))
    → ((xs ys : List Text) → digest xs ≡ digest ys → xs ≡ ys)
    → (s t : MemoryScope) (a b : Text) → scope_is_empty s ≡ false
    → scope_is_empty t ≡ false
    → storage_doc_id digest s a ≡ storage_doc_id digest t b
    → (s ≡ t) × (a ≡ b)
unfolding storage_doc_id correlation_id
storage_doc_id-injective digest same_length injective s t a b hs ht h =
    let xs = s.tenant ∷ s.user ∷ s.thread ∷ s.kind ∷ [] in
    let ys = t.tenant ∷ t.user ∷ t.thread ∷ t.kind ∷ [] in
    let e : digest xs ++ (codes "__" ++ a) ≡ digest ys ++ (codes "__" ++ b) =
      append_cancel (codes "ppscope_") _ _ (rw (hs, ht) at h) in
    let split = prefix_split (digest xs) (digest ys) _ _ (same_length xs ys) e in
    (scope_of (injective xs ys split.0), append_cancel (codes "__") a b split.1)

-- The empty scope gives the logical id itself, so every storage id of another scope is also the
-- storage id of some logical id under the empty scope.
pub storage_doc_id-empty_scope :
    (digest : List Text → Text) (s e : MemoryScope) (a : Text)
    → scope_is_empty e ≡ true
    → (b : Text) × (storage_doc_id digest e b ≡ storage_doc_id digest s a)
unfolding storage_doc_id
storage_doc_id-empty_scope digest s e a h = (storage_doc_id digest s a, rw h)
