-- ===== src/ScoreReconciliation/Counts.antt =====
-- What a run counts.
use ziza_lend.Common.{
  suc, ◌+◌, ◌≤◌, ◌<◌, ◌≡◌, inl, inr, Option, List, [], ◌∷◌, Text, length, length-append, Bool-cases,
  Option-cases, arith,
}
use ziza_lend.Common.Int.{ℤ}
use ziza_lend.Common.Map.{map_get}
use ziza_lend.Scores.{Scores}
use ziza_lend.ScoreReconciliation.{
  Settings, is_divergent, Progress, settle, settle_batch, no_progress, compare_scores,
}
use ziza_lend.ScoreReconciliation.Settled.{compare_scores-eq-settle_batch}

module _ (s : Settings) (on_chain : Text → Option ℤ) (table : Scores) where
  settle-counts :
      (a : Text) (p : Progress)
      → ((settle s on_chain table a p).checked + (settle s on_chain table a p).failed
          ≡ suc (p.checked + p.failed))
        × (length (settle s on_chain table a p).divergences + p.checked
            ≤ length p.divergences + (settle s on_chain table a p).checked)
  unfolding settle
  settle-counts a p = elim (Option-cases (on_chain a)) [
    | inl silent ↦ rw (silent, settle) (omega arith, omega arith)
    | inr (score, answers) ↦ elim (Bool-cases (is_divergent (map_get a table) score)) [
      | inl apart ↦
          rw (answers, apart, settle) (omega arith, omega (arith, length-append {0} p.divergences))
      | inr equal ↦ rw (answers, equal, settle) (omega arith, omega arith)
    ]
  ]

  settle_batch-counts :
      (batch : List Text) (p : Progress)
      → ((settle_batch s on_chain table batch p).checked
            + (settle_batch s on_chain table batch p).failed
          ≡ length batch + p.checked + p.failed)
        × (length (settle_batch s on_chain table batch p).divergences + p.checked
            ≤ length p.divergences + (settle_batch s on_chain table batch p).checked)
  unfolding settle_batch
  settle_batch-counts [] p = (omega arith, omega arith)
  settle_batch-counts (a ∷ rest) p =
      omega (arith, settle-counts a p, settle_batch-counts rest (settle s on_chain table a p))

  -- Every borrower of a run is counted once, as checked or as failed, and at most the checked ones diverge.
  pub compare_scores-counts :
      (borrowers : List Text)
      → 0 < s.batch_size
      → ((compare_scores s on_chain table borrowers).checked
            + (compare_scores s on_chain table borrowers).failed
          ≡ length borrowers)
        × (length (compare_scores s on_chain table borrowers).divergences
            ≤ (compare_scores s on_chain table borrowers).checked)
  compare_scores-counts borrowers sized =
      rw (compare_scores-eq-settle_batch s on_chain table borrowers sized)
        (omega (arith, settle_batch-counts borrowers no_progress))
