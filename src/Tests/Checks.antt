-- ===== src/Tests/Checks.antt =====
-- The default checker at concrete inputs.
use mathlib.Core.List.{Memᴰ}
use ziza_lend.Common.{
  ℕ, zero, suc, ◌+◌, ◌<◌, ◌≡◌, ◌≢◌, ◌==◌, if◌then◌else◌, refl, true, false, none, some, List, [],
  ◌∷◌, map, Text, text_eq, codes, length, All, arith,
}
use ziza_lend.Common.Map.{map_get, map_set, map_delete}
use ziza_lend.KvStore.{get, set, set_nx, live}
use ziza_lend.Cache.{Codec}
use ziza_lend.DefaultChecker.Lock.{
  running, World, lock_of, acquire_lock, begin, finish, delete_lock, start, Reached, at_start,
  after, begins, time_passes, finishes, AreAlone,
}
use ziza_lend.DefaultChecker.Lock.Seen.{seen}
use ziza_lend.DefaultChecker.Lock.Exclusion.{Reached-exclusive, Reached-refuses}
use ziza_lend.DefaultChecker.Overdue.{EventRow, fetch_overdue_loan_ids, fetch_overdue_stats}
use ziza_lend.DefaultChecker.Overdue.Exact.{
  is_overdue, fetch_overdue_loan_ids_sound, fetch_overdue_loan_ids-whole,
}
use ziza_lend.DefaultChecker.Workers.{
  looking, finished, calling, update, Pool, new_pool, takes, returns, leaves,
}
use ziza_lend.DefaultChecker.Workers as Workers
use ziza_lend.DefaultChecker.Workers.Complete.{countdown, Reached-complete}
use ziza_lend.DefaultChecker.Batches.{BatchResult, Rpc}
use ziza_lend.DefaultChecker.Batches.Chunks.{flatten, IsCut}
use ziza_lend.DefaultChecker.Run.{
  Settings, RunWorld, target_ids, run_body, run_inner, check_overdue_loans,
}
use ziza_lend.DefaultChecker.Run.Report.{run_body-report, check_overdue_loans-releases}

abbrev plain : Codec Text
plain = record { encode = λ t. t; decode = λ t. some t; decode-encode = λ t. refl }

lock_store : Unit {0}
unfolding begin finish delete_lock map_get map_set map_delete get set set_nx live
lock_store = tt

-- Run 0 outlives its lock, and run 1 of another process takes a new one. Run 0 then ends without deleting it.
abbrev first_begun : World
first_begun = begin plain (λ i. i) 0 true (0 ∷ []) start

abbrev first_late : World
first_late = record first_begun { now = 700000 }

abbrev second_begun : World
second_begun = begin plain (λ i. i) 1 true (1 ∷ []) first_late

abbrev first_over : World
first_over = finish plain (λ i. i) 0 true (0 ∷ []) 0 second_begun

first_runs : second_begun.phase 0 ≡ running (0 ∷ []) 0
unfolding lock_store
first_runs = refl

not_zero : (j : ℕ) → (suc j == 0) ≡ false
not_zero j = ground arith

first_over-Reached : Reached plain (λ i. i) first_over
unfolding lock_store
first_over-Reached =
    after
      (after
        (after (after at_start (begins start 0 true (0 ∷ []) refl (λ j since e. cc e)))
          (time_passes first_begun 700000 (omega arith)))
        (begins first_late 1 true (1 ∷ []) refl new))
      (finishes second_begun 0 true first_runs)
  where
    new : (j since : ℕ) → lock_of (first_late.phase j) ≢ some (1 ∷ [], since)
    new zero since e = cc e
    new (suc j) since e = cc (rw (not_zero j) at e)

first_over-AreAlone : AreAlone plain (λ i. i) first_over-Reached
unfolding lock_store first_over-Reached
first_over-AreAlone = ((((tt, λ j v since same e. cc e), tt), second_alone), tt)
  where
    second_alone : (j : ℕ) (v : Text) (since : ℕ) → j ≡ 1 → first_late.phase j ≢ running v since
    second_alone zero v since same e = absurd (omega (arith, same))
    second_alone (suc j) v since same e = cc (rw (not_zero j) at e)

second_runs : first_over.phase 1 ≡ running (1 ∷ []) 700000
unfolding lock_store
second_runs = refl

second_lasts : first_over.now < 700000 + 600000
unfolding lock_store
second_lasts = omega arith

Reached-exclusive_example : ◌≡◌ {A = ℕ} 1 1
Reached-exclusive_example =
    Reached-exclusive plain (λ i. i) first_over-Reached first_over-AreAlone 1 1 second_runs
      second_lasts second_runs second_lasts

Reached-refuses_example :
    (acquire_lock plain true first_over.now (2 ∷ []) none first_over.entries).0 ≡ false
Reached-refuses_example =
    Reached-refuses plain (λ i. i) first_over-Reached first_over-AreAlone 1 second_runs second_lasts
      true (2 ∷ []) none

-- Runs 0 and 1 are of one process: the end of run 0 deletes the lock of run 1, and run 2 of another process
-- starts beside it.
abbrev shared : ℕ → ℕ
shared i = if i == 2 then 1 else 0

abbrev beside : World
beside =
    let w = record (begin plain shared 0 true (0 ∷ []) start) { now = 700000 } in
    let w' = finish plain shared 0 true (0 ∷ []) 0 (begin plain shared 1 true (1 ∷ []) w) in
    begin plain shared 2 true (2 ∷ []) (delete_lock plain shared 0 true w')

shared-field :
    (beside.phase 1 ≡ running (1 ∷ []) 700000) × (beside.phase 2 ≡ running (2 ∷ []) 700000)
unfolding lock_store
shared-field = (refl, refl)

-- Loan 7 is late, loan 8 was repaid and loan 9 is not due.
abbrev events : List EventRow
events =
    record { event_type = codes "LoanApproved"; loan_id = some 7; ledger = 10 }
    ∷ record { event_type = codes "LoanApproved"; loan_id = some 8; ledger = 11 }
    ∷ record { event_type = codes "LoanRepaid"; loan_id = some 8; ledger = 20 }
    ∷ record { event_type = codes "LoanApproved"; loan_id = some 9; ledger = 90 }
    ∷ []

loan_7-is_found : fetch_overdue_loan_ids 50 10 100 events ≡ 7 ∷ []
unfolding fetch_overdue_loan_ids text_eq
loan_7-is_found = refl

fetch_overdue_loan_ids_sound_example :
    All (λ id. is_overdue 50 100 events id ≡ true) (fetch_overdue_loan_ids 50 10 100 events)
fetch_overdue_loan_ids_sound_example = fetch_overdue_loan_ids_sound 50 100 events 10

fetch_overdue_loan_ids-whole_example : Memᴰ 7 (fetch_overdue_loan_ids 50 10 100 events)
unfolding fetch_overdue_stats is_overdue text_eq
fetch_overdue_loan_ids-whole_example =
    fetch_overdue_loan_ids-whole 50 100 events 10 7 (omega arith) (omega arith) refl

-- One item, which the only worker takes, returns and leaves after.
abbrev plus_100 : ℕ → ℕ
plus_100 x = x + 100

abbrev taken : Pool ℕ
taken = record new_pool {
  current_index = 1;
  worker = update (λ i. looking) 0 (calling 0);
  started = 0 ∷ [];
}

abbrev returned : Pool ℕ
returned = record taken {
  results = update (λ i. none) 0 (some 100);
  worker = update taken.worker 0 looking;
}

abbrev left : Pool ℕ
left = record returned { worker = update returned.worker 0 finished }

left-Reached : Workers.Reached (λ i. i) 1 2 plus_100 left
left-Reached =
    Workers.after
      (Workers.after (Workers.after Workers.at_start (takes 0 (omega arith) refl (omega arith)))
        (returns 0 0 refl))
      (leaves 0 refl (omega arith))

Reached-complete_example : (left.results 0 ≡ some 100) × (left.started ≡ countdown 1)
Reached-complete_example =
    Reached-complete (λ i. i) 1 2 plus_100 left-Reached (omega arith) all_left 0 (omega arith)
  where
    all_left : (i : ℕ) → i < 1 → left.worker i ≡ finished
    all_left zero below = refl
    all_left (suc i) below = absurd (omega arith)

abbrev settings : Settings
settings = record { term_ledgers = 50; batch_size = 1; max_loans_per_run = 10 }

abbrev rpc : ℕ → Rpc
rpc i = record {
  account = true;
  prepared = true;
  sent = some (codes "h", none);
  polled = none;
  in_time = true;
}

run_body-report_example :
    (flatten (
        map BatchResult.loan_ids (run_body settings 100 events (some (7 ∷ 9 ∷ 7 ∷ [])) rpc).batches)
      ≡ target_ids settings 100 events (some (7 ∷ 9 ∷ 7 ∷ [])))
    × All (IsCut 1) (
        map BatchResult.loan_ids (run_body settings 100 events (some (7 ∷ 9 ∷ 7 ∷ [])) rpc).batches)
    × ((run_body settings 100 events (some (7 ∷ 9 ∷ 7 ∷ [])) rpc).successful_submissions
          + (run_body settings 100 events (some (7 ∷ 9 ∷ 7 ∷ [])) rpc).failed_submissions
        ≡ length (run_body settings 100 events (some (7 ∷ 9 ∷ 7 ∷ [])) rpc).batches)
run_body-report_example =
    run_body-report settings 100 events (some (7 ∷ 9 ∷ 7 ∷ [])) rpc (omega arith)

-- A run whose server does not answer.
abbrev broken : RunWorld
broken = record {
  configured = true;
  latest_ledger = none;
  events = some events;
  rpc = rpc;
  lock_value = codes "a";
  begun = 0;
  up_at_start = true;
  ended = 5000;
  up_at_end = true;
}

check_overdue_loans-releases_example :
    ((check_overdue_loans plain settings broken none none []).0 ≡ run_inner settings broken none)
    × (seen 5000 (check_overdue_loans plain settings broken none none []).2 ≡ none)
unfolding map_get
check_overdue_loans-releases_example =
    check_overdue_loans-releases plain settings broken none none [] tt refl (omega arith)
      (omega arith) refl refl
