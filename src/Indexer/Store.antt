-- ===== src/Indexer/Store.antt =====
-- `storeEvents` of backend/src/services/eventIndexer.ts: the malformed events are put aside, and one
-- transaction inserts the others, writes the audit rows and applies the sum of the score changes. The
-- transaction runs again after a transient error (`withTransaction` of backend/src/db/connection.ts). The
-- unique constraints of the table of events are those of the migrations.
pub mod Once
pub mod Sums
pub mod Changes
pub mod Handled
use ziza_lend.Common.{
  ℕ, Bool, true, false, not, ◌&&◌, ◌||◌, ◌==◌, Option, none, some, List, [], ◌∷◌, ◌++◌, map,
  if◌then◌else◌, Text, text_eq, any, length, take,
}
use ziza_lend.Common.Int.{ℤ, pos, ◌+ℤ◌, ◌-ℤ◌, leb_ℤ}
use ziza_lend.Common.Map.{Map, map_get, map_set}
use ziza_lend.KvStore.{Entries}
use ziza_lend.Scores.{Scores, Outcome, update_user_scores_bulk}
use ziza_lend.Indexer.Types.{
  EventType, loan_repaid, loan_defaulted, collateral_liquidated, loan_apprv, is_admin_config,
  type_name, is_status_type,
}
use ziza_lend.Indexer.Values.{
  Sdk, RawEvent, ContractEvent, Throws, returns, throws, Skips, kept, skipped,
}
use ziza_lend.Indexer.Parse.{parse_event}

-- The rows of `audit_logs` that the indexer writes.
pub data AuditRow : Type 0 where
  config_changed : Option Text → EventType → Text → Text → AuditRow
  loan_approved : Option Text → Option (Option ℤ) → Text → AuditRow

pub record Database : Type 0 where
  pub events : List ContractEvent
  pub audit_logs : List AuditRow
  pub quarantine : List Text
  pub scores : Scores
  pub cache : Entries

-- `getScoreConfig`.
pub record ScoreConfig : Type 0 where
  pub repayment_delta : ℤ
  pub default_penalty : ℤ

-- The state of the transaction's loop.
pub record Batch : Type 0 where
  pub rows : List ContractEvent
  pub audit : List AuditRow
  pub score_updates : Map ℤ
  pub inserted : List ContractEvent

abbrev pub same_number : ℤ → ℤ → Bool
same_number a b = leb_ℤ a b && leb_ℤ b a

-- Whether both columns `loan_id` have a value, the same; null is never the same as another.
abbrev pub same_loan : Option (Option ℤ) → Option (Option ℤ) → Bool
same_loan (some (some a)) (some (some b)) = same_number a b
same_loan _ _ = false

-- Whether a row violates a unique constraint with an event: the id, the loan with the type and the ledger,
-- and for two of the types the loan with the type.
abbrev pub conflicts : ContractEvent → ContractEvent → Bool
conflicts e row =
    text_eq row.event_id e.event_id
    || (same_loan row.facts.loan_id e.facts.loan_id
        && text_eq (type_name row.event_type) (type_name e.event_type)
        && (row.ledger == e.ledger || is_status_type e.event_type))

unfoldable pub has_event : ContractEvent → List ContractEvent → Bool
has_event e rows = any (conflicts e) rows

abbrev config_rows : ContractEvent → List AuditRow
config_rows e =
    if is_admin_config e.event_type
    then config_changed e.facts.address e.event_type e.contract_id e.event_id ∷ []
    else []

abbrev is_approval : EventType → Bool
is_approval loan_apprv = true
is_approval _ = false

abbrev approval_rows : ContractEvent → List AuditRow
approval_rows e =
    if is_approval e.event_type
    then loan_approved e.admin_address e.facts.loan_id e.event_id ∷ []
    else []

unfoldable pub audit_rows : ContractEvent → List AuditRow
audit_rows e = config_rows e ++ approval_rows e

module _ (config : ScoreConfig) where
  -- What an event's type makes of the sum for its user.
  unfoldable pub score_change : EventType → Option (ℤ → ℤ)
  score_change loan_repaid = some (λ n. n +ℤ config.repayment_delta)
  score_change loan_defaulted = some (λ n. n -ℤ config.default_penalty)
  score_change collateral_liquidated = some (λ n. n -ℤ config.default_penalty)
  score_change _ = none

  abbrev pub or_zero : Option ℤ → ℤ
  or_zero none = pos 0
  or_zero (some n) = n

  abbrev change_of : Option (ℤ → ℤ) → Option Text → Map ℤ → Map ℤ
  change_of none address updates = updates
  change_of (some f) none updates = updates
  change_of (some f) (some []) updates = updates
  change_of (some f) (some (c ∷ s)) updates =
      map_set (c ∷ s) (f (or_zero (map_get (c ∷ s) updates))) updates

  unfoldable pub add_score_change : ContractEvent → Map ℤ → Map ℤ
  unfolding score_change
  add_score_change e updates = change_of (score_change e.event_type) e.facts.address updates

  -- One turn of the loop: `ON CONFLICT DO NOTHING`, on whichever constraint.
  unfoldable pub insert_event : ContractEvent → Batch → Batch
  unfolding has_event audit_rows add_score_change
  insert_event e b = if has_event e b.rows then b else record {
    rows = e ∷ b.rows;
    audit = b.audit ++ audit_rows e;
    score_updates = add_score_change e b.score_updates;
    inserted = b.inserted ++ (e ∷ []);
  }

  unfoldable pub insert_events : List ContractEvent → Batch → Batch
  unfolding insert_event
  insert_events [] b = b
  insert_events (e ∷ es) b = insert_events es (insert_event e b)

-- The events that parse, and the ids of those that throw.
unfoldable pub add_parsed :
    Text
    → Throws (Skips ContractEvent)
    → List ContractEvent × List Text
    → List ContractEvent × List Text
add_parsed id (returns (kept p)) (parsed, bad) = (p ∷ parsed, bad)
add_parsed id (returns skipped) (parsed, bad) = (parsed, bad)
add_parsed id throws (parsed, bad) = (parsed, id ∷ bad)

unfoldable pub parse_events :
    {ScVal : Type 0} → Sdk ScVal → List (RawEvent ScVal) → List ContractEvent × List Text
unfolding add_parsed
parse_events sdk [] = ([], [])
parse_events sdk (e ∷ es) = add_parsed e.id (parse_event sdk e) (parse_events sdk es)

abbrev pub contains : Text → List Text → Bool
contains id ids = any (λ x. text_eq x id) ids

-- `quarantineEvent`, one row to an id; a failure is logged and forgotten.
unfoldable pub quarantine_events : Bool → List Text → List Text → List Text
quarantine_events up [] ids = ids
quarantine_events up (id ∷ bad) ids =
    quarantine_events up bad (if up then (if contains id ids then ids else id ∷ ids) else ids)

-- A transient error: of a statement after that many events, or of the commit.
pub data Failure : Type 0 where
  after_events : ℕ → Failure
  at_commit : Failure

-- How the transaction ends: it commits, a statement fails, or the commit does; or it is rolled back by a
-- transient error and runs again.
pub data Fate : Type 0 where
  commits statement_fails commit_fails : Fate
  retried : Failure → Fate → Fate

abbrev pub as_batch : Database → Batch
as_batch db = record { rows = db.events; audit = db.audit_logs; score_updates = []; inserted = [] }

-- The loop of a new attempt: the tables are rolled back, `insertedEvents` and `scoreUpdates` are not.
abbrev pub rolled_back : Database → Batch → Batch
rolled_back db b = record b { rows = db.events; audit = db.audit_logs }

module _ (config : ScoreConfig) (cache_up : Bool) where
  -- The scores and the cache after `updateUserScoresBulk`, called if there are changes.
  unfoldable pub apply_scores : Map ℤ → Scores → Entries → Scores × Entries
  apply_scores [] scores cache = (scores, cache)
  apply_scores (u ∷ us) scores cache =
      let done = update_user_scores_bulk true cache_up (u ∷ us) scores cache in
      (done.table, done.cache)

  -- A failed attempt. The cached scores are dropped before the commit.
  unfoldable pub failed_attempt : Failure → List ContractEvent → Batch → Database → Batch × Database
  unfolding insert_events apply_scores
  failed_attempt (after_events n) es b db =
      (rolled_back db (insert_events config (take n es) b), db)
  failed_attempt at_commit es b db =
      let b' = insert_events config es b in
      (
        rolled_back db b',
        record db { cache = (apply_scores b'.score_updates db.scores db.cache).1 },
      )

  -- `withTransaction`, from the loop's state at its next attempt on.
  unfoldable pub attempt :
      Fate → List ContractEvent → Batch → Database → Throws (List ContractEvent) × Database
  unfolding insert_events apply_scores failed_attempt
  attempt statement_fails es b db = (throws, db)
  attempt commits es b db =
      let b' = insert_events config es b in
      let done = apply_scores b'.score_updates db.scores db.cache in
      (
        returns b'.inserted,
        record db { events = b'.rows; audit_logs = b'.audit; scores = done.0; cache = done.1 },
      )
  attempt commit_fails es b db =
      let b' = insert_events config es b in
      (throws, record db { cache = (apply_scores b'.score_updates db.scores db.cache).1 })
  attempt (retried failure fate) es b db =
      let next = failed_attempt failure es b db in attempt fate es next.0 next.1

  unfoldable pub run_transaction :
      Fate → List ContractEvent → Database → Throws (List ContractEvent) × Database
  unfolding attempt
  run_transaction fate es db = attempt fate es (as_batch db) db

  -- What follows the parsing. The inserted events are then dispatched, broadcast and notified.
  unfoldable pub store_parsed :
      Bool
      → Fate
      → List ContractEvent
      → List Text
      → Database
      → Throws (List ContractEvent) × Database
  unfolding quarantine_events run_transaction
  store_parsed quarantine_up fate parsed bad db =
      let put_aside = record db {
        quarantine = quarantine_events quarantine_up bad db.quarantine;
      } in
      elim parsed [
        | [] ↦ (returns [], put_aside)
        | e ∷ es ↦ run_transaction fate (e ∷ es) put_aside
      ]

  unfoldable pub store_events :
      {ScVal : Type 0}
      → Sdk ScVal
      → Bool
      → Fate
      → List (RawEvent ScVal)
      → Database
      → Throws (List ContractEvent) × Database
  unfolding parse_events store_parsed
  store_events sdk quarantine_up fate events db =
      store_parsed quarantine_up fate (parse_events sdk events).0 (parse_events sdk events).1 db
