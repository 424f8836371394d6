-- ===== src/Indexer/Poll.antt =====
-- `pollOnce`, `processChunk`, `reindexRange` and the cursor of backend/src/services/eventIndexer.ts. A
-- world is what a poll meets: the answers of the RPC server and of the database. The table
-- `indexer_state` has one row to a contract, none before the first poll.
pub mod Cursor
pub mod Complete
pub mod Progress
use ziza_lend.Common.{
  ℕ, zero, suc, ◌+◌, ◌-◌, Bool, true, false, Option, none, some, List, [], ◌∷◌, if◌then◌else◌, Text,
  leb, ltb, ◌==◌, min, max, length,
}
use ziza_lend.Indexer.Values.{Sdk, RawEvent, ContractEvent, Throws, returns, throws}
use ziza_lend.Indexer.Fetch.{Page, Fetched, all_of, rpc_error, unfinished, fetch_events_in_range}
use ziza_lend.Indexer.Store.{Database, ScoreConfig, Fate, store_events}

-- `latest` is the answer of `getLatestLedger`, none where the call fails or it is no finite number. The
-- flags are whether the cursor can be read and written and the quarantine written.
pub record World (ScVal : Type 0) : Type 0 where
  pub latest : Option ℕ
  pub get_events : ℕ → ℕ → Option Text → Option (Page ScVal)
  pub fate : Fate
  pub quarantine_up : Bool
  pub cursor_readable : Bool
  pub cursor_writable : Bool
  pub cache_up : Bool

-- `gauges` holds the last ledger, the chain's tip and the lag, as they were last set.
pub record Indexer : Type 0 where
  pub running : Bool
  pub cursor : Option ℕ
  pub db : Database
  pub gauges : Option (ℕ × ℕ × ℕ)

-- `ProcessChunkResult`, or the error of the chunk; `runs_on` is the fuel of its pages running out.
pub data Chunk : Type 0 where
  processed : (last_processed_ledger fetched_events inserted_events : ℕ) → Chunk
  chunk_fails runs_on : Chunk

-- `getLatestLedgerSequence`: 0 stands for a failure.
unfoldable pub latest_ledger_sequence : Option ℕ → ℕ
latest_ledger_sequence none = 0
latest_ledger_sequence (some n) = n

-- `Number(rows[0]?.last_ledger ?? 0)`.
abbrev pub last_ledger : Option ℕ → ℕ
last_ledger none = 0
last_ledger (some n) = n

-- `updateLastIndexedLedger`: `GREATEST` of the row and the ledger, or a new row.
unfoldable pub update_last_indexed_ledger : Bool → ℕ → Option ℕ → Option ℕ
update_last_indexed_ledger writable ledger none = if writable then some ledger else none
update_last_indexed_ledger writable ledger (some n) = some (if writable then max n ledger else n)

-- `recordIndexerLedgers` of backend/src/middleware/metrics.ts.
unfoldable pub record_indexer_ledgers : ℕ → ℕ → Indexer → Indexer
record_indexer_ledgers last tip s = record s { gauges = some (last, tip, tip - last) }

abbrev pub max_ledger : {ScVal : Type 0} → ℕ → List (RawEvent ScVal) → ℕ
max_ledger m [] = m
max_ledger m (e ∷ es) = max_ledger (max m e.ledger) es

module _ {ScVal : Type 0} (sdk : Sdk ScVal) (config : ScoreConfig) (batch_size fuel : ℕ) where
  abbrev pub stored_chunk :
      ℕ → ℕ → List (RawEvent ScVal) → Throws (List ContractEvent) × Database → Chunk × Database
  stored_chunk start end events (returns inserted, db) =
      (processed (max (max_ledger start events) end) (length events) (length inserted), db)
  stored_chunk start end events (throws, db) = (chunk_fails, db)

  unfoldable pub process_fetched : World ScVal → ℕ → ℕ → Fetched ScVal → Database → Chunk × Database
  process_fetched w start end rpc_error db = (chunk_fails, db)
  process_fetched w start end unfinished db = (runs_on, db)
  process_fetched w start end (all_of []) db = (processed end 0 0, db)
  process_fetched w start end (all_of (e ∷ es)) db =
      stored_chunk start end (e ∷ es)
        (store_events config w.cache_up sdk w.quarantine_up w.fate (e ∷ es) db)

  unfoldable pub process_chunk : World ScVal → ℕ → ℕ → Database → Chunk × Database
  unfolding process_fetched
  process_chunk w start end db =
      if ltb end start
      then (processed (start - 1) 0 0, db)
      else process_fetched w start end (fetch_events_in_range w.get_events fuel start end) db

  -- After a chunk the cursor moves, and with it the gauges.
  unfoldable pub finish_poll : World ScVal → Chunk × Database → Indexer → Indexer
  unfolding update_last_indexed_ledger record_indexer_ledgers
  finish_poll w (chunk_fails, db) s = record s { db = db }
  finish_poll w (runs_on, db) s = record s { db = db }
  finish_poll w (processed last fetched inserted, db) s =
      let moved = record s {
        db = db;
        cursor = update_last_indexed_ledger w.cursor_writable last s.cursor;
      } in
      if w.cursor_writable
      then record_indexer_ledgers last (latest_ledger_sequence w.latest) moved
      else moved

  -- The poll once the cursor is read, which stands in a row from then on.
  unfoldable pub poll_from : World ScVal → ℕ → Indexer → Indexer
  unfolding process_chunk finish_poll latest_ledger_sequence record_indexer_ledgers
  poll_from w last s =
      let latest = latest_ledger_sequence w.latest in
      if latest == 0
      then s
      else if leb latest last
      then record_indexer_ledgers last latest s
      else finish_poll w (process_chunk w (last + 1) (min (last + 1 + batch_size - 1) latest) s.db)
          s

  -- `pollOnce`. An error ends it; `start` and the timer go on to the next poll.
  unfoldable pub poll_once : World ScVal → Indexer → Indexer
  unfolding poll_from
  poll_once w s =
      if s.running
      then (if w.cursor_readable
          then poll_from w (last_ledger s.cursor)
              (record s { cursor = some (last_ledger s.cursor) })
          else s)
      else s

  unfoldable pub run_polls : List (World ScVal) → Indexer → Indexer
  unfolding poll_once
  run_polls [] s = s
  run_polls (w ∷ ws) s = run_polls ws (poll_once w s)
