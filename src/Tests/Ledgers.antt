-- ===== src/Tests/Ledgers.antt =====
-- The indexer at concrete inputs: a chain with a repayment and a malformed event, and a server that
-- answers with a page for each of them.
use mathlib.Core.List.{Perm}
use ziza_lend.Common.{
  ℕ, ◌≤◌, ◌≡◌, inl, inr, Bool-cases, refl, true, Option, none, some, List, [], ◌∷◌, if◌then◌else◌,
  Text, codes, text_eq, filter, filter-Memᴰ, All, arith,
}
use ziza_lend.Common.Int.{ℤ, pos, ◌+ℤ◌, ◌-ℤ◌}
use ziza_lend.Common.Js.{int_text}
use ziza_lend.Common.Map.{map_get, map_set}
use ziza_lend.Common.Sort.{IsAscending}
use ziza_lend.Scores.{new_score, clamp, upsert, with_user, proposed, update_user_scores_bulk}
use ziza_lend.Indexer.Types.{loan_repaid, collateral_liquidated, type_of_symbol}
use ziza_lend.Indexer.Values.{
  Sdk, Native, string, number, scalar, RawEvent, ContractEvent, returns, kept, no_facts,
}
use ziza_lend.Indexer.Parse.{parse_event}
use ziza_lend.Indexer.Store.{
  has_event, add_score_change, Database, ScoreConfig, commits, retried, at_commit, run_transaction,
  store_events,
}
use ziza_lend.Indexer.Store.Once.{store_events-again}
use ziza_lend.Indexer.Store.Changes.{run_transaction-scores, rescored}
use ziza_lend.Indexer.Store.Handled.{ArePlaced, store_events-ArePlaced}
use ziza_lend.Indexer.Fetch.{Page, all_of, in_range, fetch_events_in_range}
use ziza_lend.Indexer.Fetch.Pages.{
  last, more, no_cursor, Serves, IsWithin, fetch_events_in_range-Serves,
}
use ziza_lend.Indexer.Poll.{World, Indexer, last_ledger, latest_ledger_sequence, run_polls}
use ziza_lend.Indexer.Poll.Complete.{IsFaithful}
use ziza_lend.Indexer.Poll.Progress.{IsUp, run_polls-reaches_tip}
use ziza_lend.Indexer.Reindex.{reindex_range}
use ziza_lend.Indexer.Reindex.Rounds.{IsDone, reindex_range-IsDone}

data Value : Type 0 where
  symbol_of : Text → Value
  value_of : Native → Value

abbrev symbol_text : Value → Option Text
symbol_text (symbol_of s) = some s
symbol_text (value_of n) = none

abbrev native_of : Value → Option Native
native_of (symbol_of s) = some (scalar (string s))
native_of (value_of n) = some n

abbrev number_of : Native → Option ℤ
number_of (scalar (number k)) = some k
number_of _ = none

abbrev sdk : Sdk Value
sdk = record { symbol = symbol_text; to_native = native_of; to_number = number_of }

abbrev raw : Text → ℕ → List Value → Value → RawEvent Value
raw id ledger topic value = record {
  id = id;
  topic = topic;
  value = value;
  ledger = ledger;
  ledger_closed_at = codes "2026-01-01T00:00:00Z";
  tx_hash = codes "ab";
  contract_id = codes "C";
}

abbrev address : Value
address = value_of (scalar (string (codes "GA")))

abbrev seven : Value
seven = value_of (scalar (number (pos 7)))

abbrev repayment : RawEvent Value
repayment = raw (codes "e1") 3 (symbol_of (codes "LoanRepaid") ∷ address ∷ seven ∷ []) seven

-- A repayment whose amount is an address.
abbrev malformed : RawEvent Value
malformed = raw (codes "e2") 5 (symbol_of (codes "LoanRepaid") ∷ address ∷ seven ∷ []) address

abbrev liquidation : RawEvent Value
liquidation = raw (codes "e3") 6 (symbol_of (codes "CollateralLiquidated") ∷ seven ∷ []) seven

abbrev chain : List (RawEvent Value)
chain = repayment ∷ malformed ∷ []

-- The repayment is on the first page, the malformed event behind it.
abbrev page_by_page : ℕ → ℕ → Option Text → Option (Page Value)
page_by_page from to none =
    if in_range from to repayment
    then some (record { events = repayment ∷ []; next_cursor = some (codes "p2") })
    else some (record { events = malformed ∷ []; next_cursor = none })
page_by_page from to (some cursor) = some (record { events = malformed ∷ []; next_cursor = none })

abbrev config : ScoreConfig
config = record { repayment_delta = pos 15; default_penalty = pos 50 }

abbrev no_rows : Database
no_rows = record { events = []; audit_logs = []; quarantine = []; scores = []; cache = [] }

abbrev world : World Value
world = record {
  latest = some 6;
  get_events = page_by_page;
  fate = commits;
  quarantine_up = true;
  cursor_readable = true;
  cursor_writable = true;
  cache_up = true;
}

abbrev new_indexer : Indexer
new_indexer = record { running = true; cursor = none; db = no_rows; gauges = none }

in_pages :
    (from to : ℕ)
    → (n : ℕ) × (n ≤ 3) × Serves page_by_page from to none (filter (in_range from to) chain) n
in_pages from to = elim (Bool-cases (in_range from to repayment)) [
  | inl t ↦ (
    2,
    omega arith,
    more {page = record { events = repayment ∷ []; next_cursor = some (codes "p2") }}
        (filter (in_range from to) chain) (rw t refl) (refl, (λ e. cc e), rw t refl)
        (last (filter (in_range from to) (malformed ∷ [])) refl (no_cursor refl) refl) (rw t refl),
  )
  | inr f ↦ (
    1,
    omega arith,
    last {page = record { events = malformed ∷ []; next_cursor = none }}
        (filter (in_range from to) chain) (rw f refl) (no_cursor refl) (rw f refl),
  )
]

world-IsFaithful : IsFaithful sdk chain 3 world
world-IsFaithful = (
  refl,
  λ from to h.
      let (n, enough, serves) = in_pages from to in
      inr (
        n,
        enough,
        filter (in_range from to) chain,
        serves,
        λ e m a b. filter-Memᴰ (in_range from to) chain (ground (arith, a, b)) m,
      ),
)

world-IsUp : IsUp 3 6 world
world-IsUp = (
  refl,
  refl,
  refl,
  refl,
  λ from to h k.
      let (n, enough, serves) = in_pages from to in
      (n, enough, filter (in_range from to) chain, serves),
)

run_polls-reaches_tip_example :
    last_ledger (run_polls sdk config 2 3 (world ∷ world ∷ world ∷ []) new_indexer).cursor ≡ 6
run_polls-reaches_tip_example =
    run_polls-reaches_tip sdk config 2 3 6 (world ∷ world ∷ world ∷ []) new_indexer
      (world-IsUp, (world-IsUp, (world-IsUp, tt))) refl (omega arith) (omega arith)

store_events-again_example :
    store_events config true sdk true commits chain
      (store_events config true sdk true (retried at_commit commits) chain no_rows).1
    ≡ (returns [], (store_events config true sdk true (retried at_commit commits) chain no_rows).1)
store_events-again_example =
    store_events-again config true sdk (retried at_commit commits) commits chain no_rows tt tt

store_events-ArePlaced_example :
    ArePlaced sdk chain (store_events config true sdk true commits chain no_rows)
store_events-ArePlaced_example = store_events-ArePlaced sdk config true commits chain no_rows

abbrev repaid : ContractEvent
repaid = record {
  event_id = codes "e1";
  event_type = loan_repaid;
  ledger = 3;
  ledger_closed_at = codes "2026-01-01T00:00:00Z";
  tx_hash = codes "ab";
  contract_id = codes "C";
  facts = record no_facts { address = some (codes "GA") };
  admin_address = none;
}

-- The commit fails once, so that the repayment counts twice.
run_transaction-scores_example :
    ((run_transaction config true (retried at_commit commits) (repaid ∷ []) no_rows).0
      ≡ returns (repaid ∷ repaid ∷ []))
    × (map_get
          (codes "GA")
          (run_transaction config true (retried at_commit commits) (repaid ∷ []) no_rows).1.scores
        ≡ rescored config (codes "GA") (repaid ∷ repaid ∷ []) none)
unfolding map_get has_event
run_transaction-scores_example =
    run_transaction-scores config true b'G' (codes "A") (retried at_commit commits) (repaid ∷ [])
      no_rows tt

fetch_events_in_range-Serves_example :
    (fetched : List (RawEvent Value)) × (fetch_events_in_range page_by_page 2 1 6 ≡ all_of fetched)
    × Perm fetched chain
    × IsAscending (λ e. e.ledger) fetched
    × All (IsWithin page_by_page 1 6) fetched
fetch_events_in_range-Serves_example =
    fetch_events_in_range-Serves page_by_page 1 6 2
      (more {page = record { events = repayment ∷ []; next_cursor = some (codes "p2") }} chain refl
        (refl, (λ e. cc e), refl) (last (malformed ∷ []) refl (no_cursor refl) refl) refl)
      (omega arith)

reindex_range-IsDone_example :
    IsDone sdk config 2 3
      (λ n. world)
      chain
      1
      6
      (reindex_range sdk config 2 3 (λ n. world) 6 1 6 no_rows)
unfolding latest_ledger_sequence
reindex_range-IsDone_example =
    reindex_range-IsDone sdk config 2 3 (λ n. world) chain 1 6
      (λ n. (world-IsFaithful, omega arith)) (omega arith) 6 no_rows (omega arith) (omega arith)
      (omega arith)

abbrev liquidated_event : ContractEvent
liquidated_event = record {
  event_id = codes "e3";
  event_type = collateral_liquidated;
  ledger = 6;
  ledger_closed_at = codes "2026-01-01T00:00:00Z";
  tx_hash = codes "ab";
  contract_id = codes "C";
  facts = record no_facts { loan_id = some (some (pos 7)); amount = some (codes "7") };
  admin_address = none;
}

liquidation_parsed : parse_event sdk liquidation ≡ returns (kept liquidated_event)
unfolding parse_event type_of_symbol text_eq int_text
liquidation_parsed = refl

-- The repayment is stored and scored, the malformed event put aside.
abbrev after_store : Database
after_store = (store_events config true sdk true commits chain no_rows).1

stored :
    (after_store.scores ≡ (codes "GA", pos 515) ∷ []) × (after_store.quarantine ≡ codes "e2" ∷ [])
unfolding store_events type_of_symbol text_eq int_text parse_event map_get update_user_scores_bulk
    new_score add_score_change has_event ◌+ℤ◌ ◌-ℤ◌ clamp upsert with_user proposed map_set
stored = (refl, refl)
