-- ===== src/Indexer/Poll/Complete.antt =====
-- What the cursor vouches for: the events of the ledgers up to it have been handled.
use mathlib.Core.List.Memᴰ
use mathlib.Core.List.{Memᴰ}
use mathlib.Core.Path.{subst}
use ziza_lend.Common.{
  ℕ, ◌≤◌, ◌≡◌, sym, true, inl, inr, ◌⊎◌, none, List, [], ◌∷◌, ltb, All-Memᴰ, Bool-cases, arith,
}
use ziza_lend.Indexer.Values.{Sdk, RawEvent, ContractEvent, Throws, returns, throws}
use ziza_lend.Indexer.Parse.{parse_event}
use ziza_lend.Indexer.Fetch.{Fetched, all_of, rpc_error, unfinished, fetch_events_in_range}
use ziza_lend.Common.Sort.{sort_by-Memᴰ}
use ziza_lend.Indexer.Fetch.Pages.{
  Serves, Breaks, fetch_events_in_range-Breaks, fetch_events_in_range-all,
}
use ziza_lend.Indexer.Store.{Database, ScoreConfig, store_events}
use ziza_lend.Indexer.Store.Handled.{
  IsHandled, IsPlaced-Keeps, ArePlaced, Keeps, store_events-Keeps, store_events-ArePlaced,
}
use ziza_lend.Indexer.Poll.{
  World, Indexer, Chunk, processed, chunk_fails, runs_on, latest_ledger_sequence, last_ledger,
  stored_chunk, process_fetched, process_chunk,
}

module _ {ScVal : Type 0} (sdk : Sdk ScVal) (chain : List (RawEvent ScVal)) where
  -- The events of the chain from one ledger to another are handled.
  abbrev pub AreHandled : ℕ → ℕ → Database → Type 0
  AreHandled from to db =
      (e : RawEvent ScVal) → Memᴰ e chain → from ≤ e.ledger → e.ledger ≤ to → IsHandled sdk db e

  -- Every event of the chain up to the cursor is handled.
  abbrev pub IsComplete : Indexer → Type 0
  IsComplete s = AreHandled 0 (last_ledger s.cursor) s.db

  -- What is fetched has every event of the chain that is asked for, as far as the chain has gone.
  abbrev Covers : ℕ → ℕ → Fetched ScVal → Type 0
  Covers from to (all_of events) =
      (e : RawEvent ScVal) → Memᴰ e chain → from ≤ e.ledger → e.ledger ≤ to → Memᴰ e events
  Covers from to rpc_error = Unit
  Covers from to unfinished = ⊥

  -- The RPC server answers a range with pages that have every event of the chain in it, as far as the chain
  -- has gone, or fails at one of them; the quarantine can be written. The fuel is enough for the pages.
  abbrev pub Answers : ℕ → World ScVal → ℕ → ℕ → Type 0
  Answers fuel w from to =
      ((n : ℕ) × (n ≤ fuel) × Breaks w.get_events from to none n)
      ⊎ ((n : ℕ) × (n ≤ fuel)
          × (events : List (RawEvent ScVal)) × Serves w.get_events from to none events n
          × ((e : RawEvent ScVal) → Memᴰ e chain → from ≤ e.ledger → e.ledger ≤ to → Memᴰ e events))

  abbrev pub IsFaithful : ℕ → World ScVal → Type 0
  IsFaithful fuel w =
      (w.quarantine_up ≡ true)
      × ((from to : ℕ) → to ≤ latest_ledger_sequence w.latest → Answers fuel w from to)

  fetched-Covers :
      (fuel : ℕ) (w : World ScVal) (from to : ℕ)
      → Answers fuel w from to
      → Covers from to (fetch_events_in_range w.get_events fuel from to)
  fetched-Covers fuel w from to (inl (n, enough, breaks)) =
      subst (Covers from to)
        (sym (fetch_events_in_range-Breaks w.get_events from to fuel breaks enough)) tt
  fetched-Covers fuel w from to (inr (n, enough, events, serves, whole)) =
      subst (Covers from to)
        (sym (fetch_events_in_range-all w.get_events from to fuel serves enough))
        (λ e m x y. sort_by-Memᴰ (λ r. r.ledger) events (whole e m x y))

module _ {ScVal : Type 0} (sdk : Sdk ScVal) (config : ScoreConfig) (batch_size fuel : ℕ)
    (chain : List (RawEvent ScVal)) where
  -- A chunk that does not fail has handled the events of its ledgers, and no chunk undoes what was.
  abbrev pub Handles : ℕ → ℕ → Database → Chunk × Database → Type 0
  Handles from to old (processed last fetched inserted, new) =
      Keeps old new × AreHandled sdk chain from to new
  Handles from to old (chunk_fails, new) = Keeps old new
  Handles from to old (runs_on, new) = ⊥

  stored_chunk-Handles :
      (from to : ℕ) (events : List (RawEvent ScVal)) (old : Database)
      (stored : Throws (List ContractEvent) × Database)
      → Keeps old stored.1
      → ArePlaced sdk events stored
      → Covers sdk chain from to (all_of events)
      → Handles from to old (stored_chunk sdk config batch_size fuel from to events stored)
  stored_chunk-Handles from to events old (returns inserted, db) k h c =
      (k, λ e m a b. All-Memᴰ (IsHandled sdk db) events h (c e m a b))
  stored_chunk-Handles from to events old (throws, db) k h c = k

  process_fetched-Handles :
      (w : World ScVal) (from to : ℕ) (f : Fetched ScVal) (db : Database)
      → w.quarantine_up ≡ true
      → Covers sdk chain from to f
      → Handles from to db (process_fetched sdk config batch_size fuel w from to f db)
  unfolding process_fetched
  process_fetched-Handles w from to rpc_error db q c = (λ id h. h, λ id h. h)
  process_fetched-Handles w from to unfinished db q c = absurd c
  process_fetched-Handles w from to (all_of []) db q c =
      ((λ id h. h, λ id h. h), λ e m a b. absurd (Memᴰ.not-nil (c e m a b)))
  process_fetched-Handles w from to (all_of (e ∷ es)) db q c =
      stored_chunk-Handles from to (e ∷ es) db
        (store_events config w.cache_up sdk w.quarantine_up w.fate (e ∷ es) db)
        (store_events-Keeps config w.cache_up w.quarantine_up sdk w.fate (e ∷ es) db)
        (rw q (store_events-ArePlaced sdk config w.cache_up w.fate (e ∷ es) db)) c

  pub process_chunk-Handles :
      (w : World ScVal) (from to : ℕ) (db : Database)
      → IsFaithful sdk chain fuel w
      → to ≤ latest_ledger_sequence w.latest
      → Handles from to db (process_chunk sdk config batch_size fuel w from to db)
  unfolding process_chunk
  process_chunk-Handles w from to db f h = elim (Bool-cases (ltb to from)) [
    | inl t ↦ rw t ((λ id h. h, λ id h. h), λ e m a b. absurd (ground arith))
    | inr n ↦ rw n (
        process_fetched-Handles w from to (fetch_events_in_range w.get_events fuel from to) db f.0
          (fetched-Covers sdk chain fuel w from to (f.1 from to h)))
  ]

  pub AreHandled-Keeps :
      (from to : ℕ) (old new : Database)
      → Keeps old new
      → AreHandled sdk chain from to old
      → AreHandled sdk chain from to new
  AreHandled-Keeps from to old new k h e m a b =
      IsPlaced-Keeps old new e.id (parse_event sdk e) k (h e m a b)
