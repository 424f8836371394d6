-- ===== src/DefaultChecker/Run.antt =====
-- `checkOverdueLoans` of backend/src/services/defaultChecker.ts: one run from its lock to the release, with no
-- other instance in between (Lock has the interleavings). The concurrent submission of the batches gives the
-- results in the order of the batches (Workers).
pub mod Report
use ziza_lend.Common.{
  ℕ, zero, suc, ◌+◌, Bool, true, false, not, ◌||◌, Option, none, some, List, [], ◌∷◌, map,
  if◌then◌else◌, Text, ltb, ◌==◌, any, filter, length,
}
use ziza_lend.KvStore.{Entries}
use ziza_lend.Cache.{Codec}
use ziza_lend.DefaultChecker.Lock.{Checker, acquire_lock, release_read, release_del}
use ziza_lend.DefaultChecker.Overdue.{EventRow, Stats, fetch_overdue_loan_ids, fetch_overdue_stats}
use ziza_lend.DefaultChecker.Batches.{
  chunk, BatchResult, Rpc, submit_check_defaults_with_timeout, is_successful, is_failed,
}

pub record Settings : Type 0 where
  pub term_ledgers : ℕ
  pub batch_size : ℕ
  pub max_loans_per_run : ℕ

pub record RunResult : Type 0 where
  pub current_ledger : ℕ
  pub stats : Stats
  pub loans_checked : ℕ
  pub successful_submissions : ℕ
  pub failed_submissions : ℕ
  pub batches : List BatchResult

-- `Array.from(new Set(ids))`.
unfoldable pub unique_ids : List ℕ → List ℕ
unique_ids [] = []
unique_ids (id ∷ ids) = id ∷ filter (λ other. not (other == id)) (unique_ids ids)

-- The explicit ids, where one of them is valid, and else the loans that are overdue.
unfoldable pub target_ids : Settings → ℕ → List EventRow → Option (List ℕ) → List ℕ
unfolding unique_ids
target_ids s current events explicit =
    let found = fetch_overdue_loan_ids s.term_ledgers s.max_loans_per_run current events in
    elim explicit [
      | none ↦ found
      | some ids ↦
          let valid : List ℕ = unique_ids (filter (ltb 0) ids) in
          elim valid [ [] ↦ found | id ∷ rest ↦ id ∷ rest ]
    ]

unfoldable pub submit_all : (ℕ → Rpc) → ℕ → List (List ℕ) → List BatchResult
submit_all rpc i [] = []
submit_all rpc i (ids ∷ rest) =
    submit_check_defaults_with_timeout (rpc i) ids ∷ submit_all rpc (suc i) rest

unfoldable pub run_body : Settings → ℕ → List EventRow → Option (List ℕ) → (ℕ → Rpc) → RunResult
unfolding submit_all chunk
run_body s current events explicit rpc =
    let targets = target_ids s current events explicit in
    let batches = submit_all rpc 0 (filter (λ b. ltb 0 (length b)) (chunk targets s.batch_size)) in
    record {
      current_ledger = current;
      stats = fetch_overdue_stats s.term_ledgers current events;
      loans_checked = length targets;
      successful_submissions = length (filter is_successful batches);
      failed_submissions = length (filter is_failed batches);
      batches = batches;
    }

pub data RunOutcome : Type 0 where
  skipped thrown : RunOutcome
  ran : RunResult → RunOutcome

-- What a run meets: whether it is configured, the latest ledger and the events where the server and the
-- database answer, the submissions, and the store at its two ends.
pub record RunWorld : Type 0 where
  pub configured : Bool
  pub latest_ledger : Option ℕ
  pub events : Option (List EventRow)
  pub rpc : ℕ → Rpc
  pub lock_value : Text
  pub begun : ℕ
  pub up_at_start : Bool
  pub ended : ℕ
  pub up_at_end : Bool

unfoldable pub run_inner : Settings → RunWorld → Option (List ℕ) → RunOutcome
unfolding run_body
run_inner s w explicit =
    if w.configured
    then elim w.latest_ledger [
      | none ↦ thrown
      | some current ↦ elim w.events [
        | none ↦ thrown
        | some events ↦ ran (run_body s current events explicit w.rpc)
      ]
    ]
    else thrown

module _ (json : Codec Text) where
  unfoldable pub release_lock : Bool → ℕ → Checker → Entries → Checker × Entries
  unfolding release_read release_del
  release_lock up now checker m =
      let (same, m') = release_read json up now checker m in
      (none, if same then release_del json up m' else m')

  -- A run that throws is released as well.
  unfoldable pub check_overdue_loans :
      Settings → RunWorld → Option (List ℕ) → Checker → Entries → RunOutcome × Checker × Entries
  unfolding acquire_lock run_inner release_lock
  check_overdue_loans s w explicit checker m =
      let (acquired, held, m') = acquire_lock json w.up_at_start w.begun w.lock_value checker m in
      let (released, m'') = release_lock w.up_at_end w.ended held m' in
      if acquired then (run_inner s w explicit, released, m'') else (skipped, held, m')
