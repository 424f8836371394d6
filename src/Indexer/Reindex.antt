-- ===== src/Indexer/Reindex.antt =====
-- `reindexRange` of backend/src/services/eventIndexer.ts: a range of ledgers in chunks. Each chunk meets
-- a world of its own.
pub mod Rounds
use ziza_lend.Common.{ℕ, zero, suc, ◌+◌, ◌-◌, Bool, true, false, if◌then◌else◌, leb, min}
use ziza_lend.Indexer.Values.{Sdk}
use ziza_lend.Indexer.Store.{Database, ScoreConfig}
use ziza_lend.Indexer.Poll.{World, Chunk, processed, chunk_fails, runs_on, process_chunk}

-- The totals, or the error of a chunk. `page_fuel_out` and `too_many_rounds` are the fuel of a chunk's
-- pages and of the loop running out.
pub data Reindexed : Type 0 where
  reindexed : (fetched_events inserted_events last_processed_ledger : ℕ) → Reindexed
  reindex_fails page_fuel_out too_many_rounds : Reindexed

module _ {ScVal : Type 0} (sdk : Sdk ScVal) (config : ScoreConfig) (batch_size fuel : ℕ)
    (worlds : ℕ → World ScVal) where
  abbrev pub chunk_end : ℕ → ℕ → ℕ
  chunk_end current to = min (current + batch_size - 1) to

  -- What follows a chunk: the next one, unless it failed.
  abbrev pub after_chunk :
      (ℕ → ℕ → ℕ → Database → Reindexed × Database) → Chunk × Database → Reindexed × Database
  after_chunk continue (processed last fetched inserted, db) = continue last fetched inserted db
  after_chunk continue (chunk_fails, db) = (reindex_fails, db)
  after_chunk continue (runs_on, db) = (page_fuel_out, db)

  -- The loop, from `current` on, with the totals so far and the last ledger that was processed.
  unfoldable pub reindex_from : ℕ → ℕ → ℕ → ℕ → ℕ → ℕ → Database → Reindexed × Database
  reindex_from zero current to fetched inserted last db =
      if leb current to then (too_many_rounds, db) else (reindexed fetched inserted last, db)
  reindex_from (suc rounds) current to fetched inserted last db =
      if leb current to
      then after_chunk
          (λ last' fetched' inserted' db'.
            reindex_from rounds (chunk_end current to + 1) to (fetched + fetched')
              (inserted + inserted') last' db')
          (process_chunk sdk config batch_size fuel (worlds current) current (chunk_end current to)
            db)
      else (reindexed fetched inserted last, db)

  unfoldable pub reindex_range : ℕ → ℕ → ℕ → Database → Reindexed × Database
  unfolding reindex_from
  reindex_range rounds from to db = reindex_from rounds from to 0 0 (from - 1) db
