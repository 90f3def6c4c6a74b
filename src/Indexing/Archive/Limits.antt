-- ===== src/Indexing/Archive/Limits.antt =====
-- The whole extraction (archive-extractor.ts): its loop and its byte counter.
use ai_powered_github_pr_rev.Prelude.{ℕ, ◌+◌, List, [], ◌∷◌}

abbrev pub sum : List ℕ → ℕ
sum [] = 0
sum (x ∷ xs) = x + sum xs
