-- ===== src/Indexer/Poll/Cursor.antt =====
-- The cursor of the indexer: where a chunk ends, and how a poll moves it.
use mathlib.Core.Path.{subst}
use ziza_lend.Common.{
  sym, ℕ, ◌+◌, ◌-◌, ◌≤◌, ◌≡◌, ◌⊎◌, ◌∙◌, refl, Bool, true, false, inl, inr, Option, none, some, List,
  [], ◌∷◌, if◌then◌else◌, ltb, min, max, All, Bool-cases, arith,
}
use ziza_lend.Indexer.Values.{Sdk, RawEvent, ContractEvent, Throws, returns, throws}
use ziza_lend.Indexer.Fetch.{Fetched, all_of, rpc_error, unfinished, fetch_events_in_range}
use ziza_lend.Indexer.Fetch.Pages.{IsWithin, AreWithin, fetch_events_in_range-AreWithin}
use ziza_lend.Indexer.Store.{Database, ScoreConfig, store_events}
use ziza_lend.Indexer.Poll.{
  World, Indexer, Chunk, processed, chunk_fails, runs_on, latest_ledger_sequence, last_ledger,
  update_last_indexed_ledger, record_indexer_ledgers, max_ledger, stored_chunk, process_fetched,
  process_chunk, finish_poll, poll_from, poll_once,
}

-- A chunk that does not fail ends at the ledger.
abbrev pub EndsAt : ℕ → Chunk → Type 0
EndsAt end (processed last fetched inserted) = last ≡ end
EndsAt end chunk_fails = Unit
EndsAt end runs_on = Unit

if_true : {A : Type 0} (b : Bool) (x y : A) → b ≡ true → (if b then x else y) ≡ x
if_true b x y h = rw h refl

if_false : {A : Type 0} (b : Bool) (x y : A) → b ≡ false → (if b then x else y) ≡ y
if_false b x y h = rw h refl

EndsAt-eq : {a b : ℕ} (c : Chunk) → a ≡ b → EndsAt a c → EndsAt b c
EndsAt-eq c e h = subst (λ n. EndsAt n c) e h

pub update_last_indexed_ledger-le :
    (writable : Bool) (ledger : ℕ) (c : Option ℕ)
    → (last_ledger c ≤ last_ledger (update_last_indexed_ledger writable ledger c))
      × (last_ledger (update_last_indexed_ledger writable ledger c) ≤ max (last_ledger c) ledger)
unfolding update_last_indexed_ledger
update_last_indexed_ledger-le writable ledger none = ground arith
update_last_indexed_ledger-le writable ledger (some n) = ground arith

module _ {ScVal : Type 0} (sdk : Sdk ScVal) (config : ScoreConfig) (batch_size fuel : ℕ)
    (w : World ScVal) where
  max_ledger-le :
      (from to m : ℕ) (es : List (RawEvent ScVal))
      → All (IsWithin w.get_events from to) es
      → m ≤ to
      → max_ledger m es ≤ to
  max_ledger-le from to m [] h k = k
  max_ledger-le from to m (e ∷ es) h k =
      max_ledger-le from to (max m e.ledger) es h.1 (omega (arith, h.0.1))

  stored_chunk-EndsAt :
      (start end : ℕ) (es : List (RawEvent ScVal)) (stored : Throws (List ContractEvent) × Database)
      → max_ledger start es ≤ end
      → EndsAt end (stored_chunk sdk config batch_size fuel start end es stored).0
  stored_chunk-EndsAt start end es (returns inserted, db) h = omega arith
  stored_chunk-EndsAt start end es (throws, db) h = tt

  process_fetched-EndsAt :
      (start end : ℕ) (f : Fetched ScVal) (db : Database)
      → start ≤ end
      → AreWithin w.get_events start end f
      → EndsAt end (process_fetched sdk config batch_size fuel w start end f db).0
  unfolding process_fetched
  process_fetched-EndsAt start end rpc_error db h k = tt
  process_fetched-EndsAt start end unfinished db h k = tt
  process_fetched-EndsAt start end (all_of []) db h k = refl
  process_fetched-EndsAt start end (all_of (e ∷ es)) db h k =
      stored_chunk-EndsAt start end (e ∷ es)
        (store_events config w.cache_up sdk w.quarantine_up w.fate (e ∷ es) db)
        (max_ledger-le start end start (e ∷ es) k h)

  pub process_chunk-EndsAt :
      (start end : ℕ) (db : Database)
      → EndsAt (max end (start - 1)) (process_chunk sdk config batch_size fuel w start end db).0
  unfolding process_chunk
  process_chunk-EndsAt start end db = elim (Bool-cases (ltb end start)) [
    | inl t ↦ rw t (ground arith)
    | inr f ↦ rw f (
        EndsAt-eq
          (process_fetched sdk config batch_size fuel w start end
            (fetch_events_in_range w.get_events fuel start end) db).0
          (ground arith)
          (process_fetched-EndsAt start end (fetch_events_in_range w.get_events fuel start end) db
            (ground arith) (fetch_events_in_range-AreWithin w.get_events start end fuel)))
  ]

  -- What the cursor may become in a poll.
  abbrev Follows : ℕ → Option ℕ → Option ℕ → Type 0
  Follows end old new =
      (last_ledger old ≤ last_ledger new) × (last_ledger new ≤ max (last_ledger old) end)

  pub finish_poll-cursor :
      (last fetched inserted : ℕ) (db : Database) (s : Indexer)
      → (finish_poll sdk config batch_size fuel w (processed last fetched inserted, db) s).cursor
        ≡ update_last_indexed_ledger w.cursor_writable last s.cursor
  unfolding finish_poll record_indexer_ledgers
  finish_poll-cursor last fetched inserted db s = ground arith

  finish_poll-Follows :
      (done : Chunk × Database) (s : Indexer) (end : ℕ)
      → EndsAt end done.0
      → Follows end s.cursor (finish_poll sdk config batch_size fuel w done s).cursor
  unfolding finish_poll
  finish_poll-Follows (chunk_fails, db) s end h = ground arith
  finish_poll-Follows (runs_on, db) s end h = ground arith
  finish_poll-Follows (processed last fetched inserted, db) s end h =
      rw (finish_poll-cursor last fetched inserted db s, sym h)
        (update_last_indexed_ledger-le w.cursor_writable last s.cursor)

  poll_from-Follows :
      (s : Indexer)
      → Follows
          (latest_ledger_sequence w.latest)
          s.cursor
          (poll_from sdk config batch_size fuel w (last_ledger s.cursor) s).cursor
  unfolding poll_from record_indexer_ledgers
  poll_from-Follows s =
      let last = last_ledger s.cursor in
      let latest = latest_ledger_sequence w.latest in
      let end = min (last + 1 + batch_size - 1) latest in
      let done = process_chunk sdk config batch_size fuel w (last + 1) end s.db in
      ground (
        arith,
        finish_poll-Follows done s (max end (last + 1 - 1))
            (process_chunk-EndsAt (last + 1) end s.db),
      )

  pub poll_once-cases :
      (s : Indexer)
      → (poll_once sdk config batch_size fuel w s ≡ s)
        ⊎ (poll_once sdk config batch_size fuel w s
            ≡ poll_from sdk config batch_size fuel w
                (last_ledger s.cursor)
                (record s { cursor = some (last_ledger s.cursor) }))
  unfolding poll_once
  poll_once-cases s = elim (Bool-cases s.running) [
    | inr stopped ↦ inl (if_false s.running _ s stopped)
    | inl running ↦ elim (Bool-cases w.cursor_readable) [
      | inr down ↦ inl (if_true s.running _ s running ∙ if_false w.cursor_readable _ s down)
      | inl up ↦ inr (if_true s.running _ s running ∙ if_true w.cursor_readable _ s up)
    ]
  ]

  pub poll_once-up :
      (s : Indexer)
      → s.running ≡ true
      → w.cursor_readable ≡ true
      → poll_once sdk config batch_size fuel w s
        ≡ poll_from sdk config batch_size fuel w
            (last_ledger s.cursor)
            (record s { cursor = some (last_ledger s.cursor) })
  unfolding poll_once
  poll_once-up s running up = if_true s.running _ s running ∙ if_true w.cursor_readable _ s up

  -- One poll never moves the cursor back, and never past the latest ledger of the chain: whatever the
  -- RPC server answers, whether the chunk succeeds or fails at any point.
  pub poll_once-cursor :
      (s : Indexer)
      → (last_ledger s.cursor ≤ last_ledger (poll_once sdk config batch_size fuel w s).cursor)
        × (last_ledger (poll_once sdk config batch_size fuel w s).cursor
            ≤ max (last_ledger s.cursor) (latest_ledger_sequence w.latest))
  unfolding poll_once
  poll_once-cursor s =
      ground (arith, poll_from-Follows (record s { cursor = some (last_ledger s.cursor) }))
