-- ===== src/Indexer/Reindex/Rounds.antt =====
-- The end of `reindexRange`.
use mathlib.Core.Path.{subst}
use ziza_lend.Common.{
  ℕ, zero, suc, ◌+◌, ◌-◌, ◌≤◌, ◌<◌, ◌≡◌, sym, inl, inr, List, leb, Bool-cases, arith, leb→le,
}
use ziza_lend.Indexer.Values.{Sdk, RawEvent}
use ziza_lend.Indexer.Store.{Database, ScoreConfig}
use ziza_lend.Indexer.Store.Handled.{Keeps}
use ziza_lend.Indexer.Poll.{
  World, Chunk, processed, chunk_fails, runs_on, latest_ledger_sequence, process_chunk,
}
use ziza_lend.Indexer.Poll.Cursor.{EndsAt, process_chunk-EndsAt}
use ziza_lend.Indexer.Poll.Complete.{
  AreHandled, IsFaithful, Handles, process_chunk-Handles, AreHandled-Keeps,
}
use ziza_lend.Indexer.Reindex.{
  Reindexed, reindexed, reindex_fails, page_fuel_out, too_many_rounds, chunk_end, after_chunk,
  reindex_from, reindex_range,
}

module _ {ScVal : Type 0} (sdk : Sdk ScVal) (config : ScoreConfig) (batch_size fuel : ℕ)
    (worlds : ℕ → World ScVal) (chain : List (RawEvent ScVal)) (from to : ℕ) where
  -- The run has ended, and where no chunk failed it has handled the range.
  abbrev pub IsDone : Reindexed × Database → Type 0
  IsDone (reindexed fetched inserted last, db) = AreHandled sdk chain from to db × (last ≡ to)
  IsDone (reindex_fails, db) = Unit
  IsDone (page_fuel_out, db) = ⊥
  IsDone (too_many_rounds, db) = ⊥

  after_chunk-IsDone :
      (first end : ℕ) (old : Database) (continue : ℕ → ℕ → ℕ → Database → Reindexed × Database)
      (chunk : Chunk × Database)
      → EndsAt end chunk.0
      → Handles sdk config batch_size fuel chain first end old chunk
      → ((fetched inserted : ℕ) (db : Database)
          → Keeps old db
          → AreHandled sdk chain first end db
          → IsDone (continue end fetched inserted db))
      → IsDone (after_chunk sdk config batch_size fuel worlds continue chunk)
  after_chunk-IsDone first end old continue (processed last fetched inserted, db) e h c =
      subst (λ n. IsDone (continue n fetched inserted db)) (sym e) (c fetched inserted db h.0 h.1)
  after_chunk-IsDone first end old continue (chunk_fails, db) e h c = tt
  after_chunk-IsDone first end old continue (runs_on, db) e h c = absurd h

  AreHandled-join :
      (last end : ℕ) (db : Database)
      → AreHandled sdk chain from last db
      → AreHandled sdk chain (last + 1) end db
      → AreHandled sdk chain from end db
  AreHandled-join last end db h k e m x y = elim (Bool-cases (leb e.ledger last)) [
    | inl t ↦ h e m x (leb→le e.ledger last t)
    | inr f ↦ k e m (ground arith) y
  ]

  reindex_from-IsDone :
      ((n : ℕ)
        → IsFaithful sdk chain fuel (worlds n) × (to ≤ latest_ledger_sequence (worlds n).latest))
      → 1 ≤ batch_size
      → (rounds fetched inserted last : ℕ) (db : Database) → last ≤ to
      → to ≤ last + rounds
      → AreHandled sdk chain from last db
      → IsDone (
          reindex_from sdk config batch_size fuel worlds rounds
            (last + 1)
            to
            fetched
            inserted
            last
            db)
  unfolding reindex_from
  reindex_from-IsDone f b zero fetched inserted last db k r a =
      elim (Bool-cases (leb (last + 1) to)) [
        | inl t ↦ absurd (ground arith)
        | inr n ↦
            rw n (subst (λ m. AreHandled sdk chain from m db) (omega (arith, k, r)) a, omega arith)
      ]
  reindex_from-IsDone f b (suc rounds) fetched inserted last db k r a =
      elim (Bool-cases (leb (last + 1) to)) [
        | inr n ↦
            rw (reindex_from, n)
              (subst (λ m. AreHandled sdk chain from m db) (ground arith) a, ground arith)
        | inl t ↦
            let end = chunk_end sdk config batch_size fuel worlds (last + 1) to in
            rw (reindex_from, t)
              (after_chunk-IsDone (last + 1) end db _
                (process_chunk sdk config batch_size fuel (worlds (last + 1)) (last + 1) end db)
                (subst
                  (λ n.
                    EndsAt n
                      (process_chunk sdk config batch_size fuel (worlds (last + 1)) (last + 1) end
                        db).0)
                  (ground arith)
                  (process_chunk-EndsAt sdk config batch_size fuel (worlds (last + 1)) (last + 1)
                    end db))
                (process_chunk-Handles sdk config batch_size fuel chain (worlds (last + 1))
                  (last + 1) end db (f (last + 1)).0 (omega (arith, (f (last + 1)).1)))
                (λ fetched' inserted' db' kept handled.
                  reindex_from-IsDone f b rounds (fetched + fetched') (inserted + inserted') end db'
                    (omega arith) (ground arith)
                    (AreHandled-join last end db'
                      (AreHandled-Keeps sdk config batch_size fuel chain from last db db' kept a)
                      handled)))
      ]

  -- Re-indexing a range ends within as many rounds as the range has ledgers, where the batch size is
  -- not 0. Unless a chunk fails, every event of the chain in the range is then handled and the last
  -- ledger processed is the end of the range, as long as the pages in which the RPC server lays out a
  -- range have all its events, the fuel is enough for them, the quarantine can be written and the chain has
  -- reached the end of the range.
  pub reindex_range-IsDone :
      ((n : ℕ)
        → IsFaithful sdk chain fuel (worlds n) × (to ≤ latest_ledger_sequence (worlds n).latest))
      → 1 ≤ batch_size
      → (rounds : ℕ) (db : Database) → 1 ≤ from
      → from ≤ to
      → to < from + rounds
      → IsDone (reindex_range sdk config batch_size fuel worlds rounds from to db)
  unfolding reindex_range
  reindex_range-IsDone f b rounds db h k r =
      subst
        (λ n. IsDone (reindex_from sdk config batch_size fuel worlds rounds n to 0 0 (from - 1) db))
        (omega (arith, h))
        (reindex_from-IsDone f b rounds 0 0 (from - 1) db (omega arith) (omega arith)
          (λ e m x y. absurd (omega arith)))
