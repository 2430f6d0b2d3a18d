-- ===== src/Session/Fallback.antt =====
-- LLMSummaryStrategy.compress (protoprompt/session/strategy.py) over a model that fails.
use protoprompt.Prelude.{
  ℕ, suc, ◌≡◌, refl, inl, inr, List, [], ◌∷◌, ◌++◌, Text, length, ltb, Bool-cases, Result, ok, err,
  Error, ◌>>=◌,
}
use protoprompt.Session.{Message, CompressedBlock}
use protoprompt.Session.Summaries.{
  SummaryStrategy, summarise_window, safe_fallback, summaries, last_windows, split_windows,
  compress_summaries,
}

-- One window that fails is enough, whatever the windows around it give.
summaries-fail :
    (c : SummaryStrategy) (idx : ℕ) (pre post : List (List (ℕ × Message))) (w : List (ℕ × Message))
    (e : Error)
    → summarise_window c w ≡ err e
    → (e' : Error) × (summaries c idx (pre ++ w ∷ post) ≡ err e')
unfolding summaries
summaries-fail c idx [] post w e h = (e, rw h refl)
summaries-fail c idx (v ∷ pre) post w e h =
    let ih = summaries-fail c (suc idx) pre post w e h in
    one_fails (summarise_window c v) (summaries c (suc idx) (pre ++ w ∷ post)) ih.0 _ ih.1
  where
    one_fails :
        (r : Result Text) (rest : Result (List CompressedBlock)) (e' : Error)
        (f : Text → List CompressedBlock → Result (List CompressedBlock))
        → rest ≡ err e'
        → (e'' : Error) × ((r >>= (λ summary. rest >>= (λ blocks. f summary blocks))) ≡ err e'')
    one_fails (ok s) rest e' f fails = (e', rw fails refl)
    one_fails (err e) rest e' f fails = (e, refl)

-- Where the summary of one of the last windows raises, the result is that of the fallback, and
-- nothing is raised.
pub compress_summaries-fallback :
    (c : SummaryStrategy) (msgs : List Message) (pre post : List (List (ℕ × Message)))
    (w : List (ℕ × Message)) (e : Error)
    → last_windows c (split_windows c.window msgs) ≡ pre ++ w ∷ post
    → summarise_window c w ≡ err e
    → compress_summaries c msgs ≡ safe_fallback c msgs
unfolding compress_summaries
compress_summaries-fallback c msgs pre post w e there h =
    let failed = summaries-fail c 0 pre post w e h in
    elim (Bool-cases (ltb (length msgs) c.min_messages)) [
      | inl few ↦ rw few
      | inr many ↦ rw (many, there, failed.1) refl
    ]
