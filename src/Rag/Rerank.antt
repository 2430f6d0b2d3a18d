-- ===== src/Rag/Rerank.antt =====
-- LLMReranker (protoprompt/rag/reranker.py). The model's answer is a parameter, and so are the
-- numbers that re.findall and int() read from a text: int() raises where there are too many digits.
use protoprompt.Prelude.{
  ◌>>=◌, Error, ◌⊎◌, leb-false→lt, Result-cases, ℕ, zero, suc, ◌+◌, ◌<◌, ◌≡◌, refl, ap, inl, inr,
  Bool, true, false, not, ◌&&◌, none, some, List, [], ◌∷◌, ◌++◌, Text, codes, nat_eq, ◌==◌, length,
  take, get_elem?, any_of, ltb, ltb→lt, leb, arith, if◌then◌else◌, Bool-cases, Result, ok, err,
}
use mathlib.Core.List.{Perm, perm_middle}
use mathlib.Core.List.Perm
use protoprompt.PyText.{is_empty, join}
use protoprompt.Store.{decimal}
use protoprompt.Rag.{RetrievedChunk}

pub record LlmReranker : Type 0 where
  pub chat : Text → Result Text
  pub numbers : Text → Result (List ℕ)

abbrev pub chosen_before : ℕ → List ℕ → Bool
chosen_before i = any_of (λ j. j == i)

-- The loop of _parse_indices over the numbers, and the indices seen so far
pub order_from : ℕ → List ℕ → List ℕ → List ℕ
order_from n seen [] = []
order_from n seen (i ∷ is) =
    let new = i ∷ order_from n (i ∷ seen) is in
    let rest = order_from n seen is in if ltb i n && not (chosen_before i seen) then new else rest

-- _parse_indices
pub parse_indices : (Text → Result (List ℕ)) → Text → ℕ → Result (List ℕ)
unfolding order_from
parse_indices numbers text n = numbers text >>= λ is. ok (order_from n [] is)

module _ {A : Type 0} where
  -- [chunks[i] for i in order]: the indices are in range.
  pub picked : List A → List ℕ → List A
  picked chunks [] = []
  picked chunks (i ∷ order) = elim (get_elem? chunks i) [
    | none ↦ picked chunks order
    | some chunk ↦ chunk ∷ picked chunks order
  ]

  -- [c for i, c in enumerate(chunks) if i not in order], from the index `i` on
  pub omitted : ℕ → List ℕ → List A → List A
  omitted i order [] = []
  omitted i order (chunk ∷ chunks) =
      if chosen_before i order
      then omitted (suc i) order chunks
      else chunk ∷ omitted (suc i) order chunks

  -- reordered + missing
  pub reordered : List ℕ → List A → List A
  unfolding picked omitted
  reordered order chunks =
      if is_empty order then chunks else picked chunks order ++ omitted 0 order chunks

abbrev newline : Text
newline = 10 ∷ []

-- f"{i}. {c.text[:200]}" for i, c in enumerate(chunks)
pub numbered_from : {S : Type 0} → ℕ → List (RetrievedChunk S) → List Text
unfolding decimal
numbered_from i [] = []
numbered_from i (c ∷ cs) = (decimal i ++ (codes ". " ++ take 200 c.text)) ∷ numbered_from (suc i) cs

-- _RANK_PROMPT_RU
abbrev rank_prompt : Text → Text → Text
rank_prompt query numbered =
    codes "Вопрос: "
    ++ (query
        ++ (codes "\n\nФрагменты:\n"
            ++ (numbered
                ++ codes
                    "\n\nОтсортируй фрагменты по релевантности к вопросу. Верни ТОЛЬКО их индексы через запятую, от лучшего к худшему.")))

-- The order in which the model's answer puts the chunks
pub by_answer :
    {S : Type 0}
    → LlmReranker
    → List (RetrievedChunk S)
    → Result Text
    → Result (List (RetrievedChunk S))
unfolding parse_indices reordered
by_answer r chunks (err e) = ok chunks
by_answer r chunks (ok response) =
    parse_indices r.numbers response (length chunks) >>= λ order. ok (reordered order chunks)

-- LLMReranker.rerank
pub rerank :
    {S : Type 0} → LlmReranker → Text → List (RetrievedChunk S) → Result (List (RetrievedChunk S))
unfolding by_answer numbered_from
rerank r query chunks =
    if leb (length chunks) 1
    then ok chunks
    else by_answer r chunks (r.chat (rank_prompt query (join newline (numbered_from 0 chunks))))

-- The indices are in range, and each stands once and is not among those seen.
abbrev Fresh : ℕ → List ℕ → List ℕ → Type 0
Fresh n seen [] = Unit
Fresh n seen (i ∷ is) = (i < n) × (chosen_before i seen ≡ false) × Fresh n (i ∷ seen) is

order_from-Fresh : (n : ℕ) (seen is : List ℕ) → Fresh n seen (order_from n seen is)
unfolding order_from
order_from-Fresh n seen [] = tt
order_from-Fresh n seen (i ∷ is) = elim (Bool-cases (ltb i n && not (chosen_before i seen))) [
  | inl new ↦ rw new (ltb→lt i n (ground arith), ground arith, order_from-Fresh n (i ∷ seen) is)
  | inr old ↦ rw old (order_from-Fresh n seen is)
]

Fresh-later :
    (n : ℕ) (seen is : List ℕ) (j : ℕ)
    → chosen_before j seen ≡ true
    → Fresh n seen is
    → chosen_before j is ≡ false
Fresh-later n seen [] j h f = refl
Fresh-later n seen (i ∷ is) j h f =
    let later = Fresh-later n (i ∷ seen) is j (ground arith) f.2 in ground arith

module _ {A : Type 0} where
  omitted-skip :
      (k i : ℕ) (order : List ℕ) (xs : List A)
      → i < k
      → omitted k (i ∷ order) xs ≡ omitted k order xs
  unfolding omitted
  omitted-skip k i order [] h = refl
  omitted-skip k i order (x ∷ xs) h =
      let same = omitted-skip (suc k) i order xs (omega arith) in
      let other : (i == k) ≡ false = ground arith in rw (other, same) refl

  omitted-none : (k : ℕ) (xs : List A) → omitted k [] xs ≡ xs
  unfolding omitted
  omitted-none k [] = refl
  omitted-none k (x ∷ xs) = ap (◌∷◌ x) (omitted-none (suc k) xs)

  -- Choosing one more chunk takes it out of those that are left over.
  omitted-Perm :
      (k i j : ℕ) (order : List ℕ) (xs : List A) (x : A)
      → i ≡ k + j
      → get_elem? xs j ≡ some x
      → chosen_before i order ≡ false
      → Perm (x ∷ omitted k (i ∷ order) xs) (omitted k order xs)
  unfolding omitted
  omitted-Perm k i j order [] x e found new = cc
  omitted-Perm k i zero order (y ∷ xs) x e found new =
      let here : (i == k) ≡ true = ground arith in
      let at_k : i ≡ k = omega arith in
      let k_new : chosen_before k order ≡ false = rw at_k at new in
      let same : y ≡ x = ground arith in
      rw (here, k_new, omitted-skip (suc k) i order xs (omega arith), same) (Perm.refl _)
  omitted-Perm k i (suc j) order (y ∷ xs) x e found new =
      let later : (i == k) ≡ false = ground arith in
      let ih = omitted-Perm (suc k) i j order xs x (omega arith) found new in
      elim (Bool-cases (chosen_before k order)) [
        | inl old ↦ rw (later, old) ih
        | inr left ↦ rw (later, left) (Perm.trans (Perm.swap y x _) (Perm.cons y ih))
      ]

  get_elem?-some : (xs : List A) (i : ℕ) → i < length xs → (x : A) × (get_elem? xs i ≡ some x)
  get_elem?-some [] i h = absurd (omega arith)
  get_elem?-some (x ∷ xs) zero h = (x, refl)
  get_elem?-some (x ∷ xs) (suc i) h = get_elem?-some xs i (omega arith)

  picked-Perm :
      (xs : List A) (seen order : List ℕ)
      → Fresh (length xs) seen order
      → Perm (picked xs order ++ omitted 0 order xs) xs
  unfolding picked
  picked-Perm xs seen [] f = rw (omitted-none 0 xs) (Perm.refl xs)
  picked-Perm xs seen (i ∷ order) f =
      let (x, found) = get_elem?-some xs i f.0 in
      let new = Fresh-later (length xs) (i ∷ seen) order i (ground arith) f.2 in
      let moved = omitted-Perm 0 i i order xs x (omega arith) found new in
      rw (found, picked)
        (Perm.trans (Perm.symm (perm_middle (picked xs order) (omitted 0 (i ∷ order) xs))) (
          Perm.trans (Perm.append_left (picked xs order) moved)
            (picked-Perm xs (i ∷ seen) order f.2)))

  reordered-Perm :
      (xs : List A) (seen order : List ℕ)
      → Fresh (length xs) seen order
      → Perm (reordered order xs) xs
  unfolding reordered
  reordered-Perm xs seen [] f = Perm.refl xs
  reordered-Perm xs seen (i ∷ order) f = picked-Perm xs seen (i ∷ order) f

-- NoOpReranker.rerank
pub noop_rerank : {S : Type 0} → Text → List (RetrievedChunk S) → List (RetrievedChunk S)
noop_rerank query chunks = chunks

answered :
    {S : Type 0} (r : LlmReranker) (chunks : List (RetrievedChunk S)) (a : Result Text)
    → ((out : List (RetrievedChunk S)) × (by_answer r chunks a ≡ ok out) × Perm out chunks)
      ⊎ ((response : Text) × (e : Error) × (a ≡ ok response)
          × (r.numbers response ≡ err e)
          × (by_answer r chunks a ≡ err e))
unfolding by_answer parse_indices
answered r chunks (err e) = inl (chunks, refl, Perm.refl chunks)
answered r chunks (ok response) = elim (Result-cases (r.numbers response)) [
  | inl (is, read) ↦
      let order = order_from (length chunks) [] is in
      inl (
        reordered order chunks,
        rw read refl,
        reordered-Perm chunks [] order (order_from-Fresh (length chunks) [] is),
      )
  | inr (e, raised) ↦ inr (response, e, refl, raised, rw raised refl)
]

-- Whatever the model answers or raises, `rerank` returns the given chunks, in some order; or there
-- are several, the model answered, the numbers of its answer could not be read, and what that raised
-- is raised.
pub rerank-Perm :
    {S : Type 0} (r : LlmReranker) (query : Text) (chunks : List (RetrievedChunk S))
    → ((out : List (RetrievedChunk S)) × (rerank r query chunks ≡ ok out) × Perm out chunks)
      ⊎ ((prompt response : Text) × (e : Error) × (1 < length chunks)
          × (r.chat prompt ≡ ok response)
          × (r.numbers response ≡ err e)
          × (rerank r query chunks ≡ err e))
unfolding rerank
rerank-Perm r query chunks = elim (Bool-cases (leb (length chunks) 1)) [
  | inl few ↦ inl (chunks, rw few refl, Perm.refl chunks)
  | inr several ↦
      let prompt = rank_prompt query (join newline (numbered_from 0 chunks)) in
      elim (answered r chunks (r.chat prompt)) [
        | inl (out, returned, same) ↦ inl (out, rw (several, returned) refl, same)
        | inr (response, e, said, unread, raised) ↦
            inr (
              prompt,
              response,
              e,
              leb-false→lt _ _ several,
              said,
              unread,
              rw (several, raised) refl,
            )
      ]
]
