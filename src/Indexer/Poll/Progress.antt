-- ===== src/Indexer/Poll/Progress.antt =====
-- How far the polls come while nothing fails.
use mathlib.Core.Path.{subst}
use ziza_lend.Common.{
  ℕ, ◌+◌, ◌-◌, ◌*◌, ◌≤◌, ◌≡◌, refl, sym, ap, ◌∙◌, Bool, true, inl, inr, Option, none, some, List,
  [], ◌∷◌, ltb, min, max, All, length, Bool-cases, arith,
}
use ziza_lend.Indexer.Values.{Sdk, RawEvent, ContractEvent, Throws, returns, throws}
use ziza_lend.Indexer.Fetch.{all_of, sort_by_ledger}
use ziza_lend.Indexer.Fetch.Pages.{Serves, fetch_events_in_range-all}
use ziza_lend.Indexer.Store.{
  Database, ScoreConfig, commits, attempt, run_transaction, store_parsed, store_events,
  parse_events,
}
use ziza_lend.Indexer.Poll.{
  World, Indexer, Chunk, processed, chunk_fails, runs_on, latest_ledger_sequence, last_ledger,
  update_last_indexed_ledger, record_indexer_ledgers, stored_chunk, process_fetched, process_chunk,
  finish_poll, poll_from, poll_once, run_polls,
}
use ziza_lend.Indexer.Poll.Cursor.{
  EndsAt, process_chunk-EndsAt, finish_poll-cursor, poll_once-cases, poll_once-up, poll_once-cursor,
}

-- Nothing fails: the server's latest ledger is this one and it lays every range out in pages for which
-- the fuel is enough, the transaction commits at once, and the cursor is read and written.
abbrev pub IsUp : {ScVal : Type 0} → ℕ → ℕ → World ScVal → Type 0
IsUp {ScVal} fuel tip w =
    (w.latest ≡ some tip)
    × (w.fate ≡ commits)
    × (w.cursor_readable ≡ true)
    × (w.cursor_writable ≡ true)
    × ((from to : ℕ)
        → from ≤ to
        → to ≤ tip
        → (n : ℕ) × (n ≤ fuel)
          × (events : List (RawEvent ScVal)) × Serves w.get_events from to none events n)

update_last_indexed_ledger-ge :
    (last end : ℕ) (c : Option ℕ)
    → last ≡ end
    → max (last_ledger c) end ≤ last_ledger (update_last_indexed_ledger true last c)
unfolding update_last_indexed_ledger
update_last_indexed_ledger-ge last end none e = omega arith
update_last_indexed_ledger-ge last end (some n) e = omega arith

module _ {ScVal : Type 0} (sdk : Sdk ScVal) (config : ScoreConfig) (batch_size fuel : ℕ) where
  abbrev Succeeds : Chunk × Database → Type 0
  Succeeds (processed last fetched inserted, db) = Unit
  Succeeds (chunk_fails, db) = ⊥
  Succeeds (runs_on, db) = ⊥

  abbrev Returns : Throws (List ContractEvent) × Database → Type 0
  Returns (returns inserted, db) = Unit
  Returns (throws, db) = ⊥

  store_parsed-Returns :
      (cache_up q : Bool) (es : List ContractEvent) (bad : List _) (db : Database)
      → Returns (store_parsed config cache_up q commits es bad db)
  unfolding store_parsed run_transaction attempt
  store_parsed-Returns cache_up q [] bad db = tt
  store_parsed-Returns cache_up q (e ∷ es) bad db = tt

  stored_chunk-Succeeds :
      (start end : ℕ) (es : List (RawEvent ScVal)) (stored : Throws (List ContractEvent) × Database)
      → Returns stored
      → Succeeds (stored_chunk sdk config batch_size fuel start end es stored)
  stored_chunk-Succeeds start end es (returns inserted, db) h = tt
  stored_chunk-Succeeds start end es (throws, db) h = h

  process_fetched-Succeeds :
      (w : World ScVal) (start end : ℕ) (es : List (RawEvent ScVal)) (db : Database)
      → w.fate ≡ commits
      → Succeeds (process_fetched sdk config batch_size fuel w start end (all_of es) db)
  unfolding process_fetched store_events
  process_fetched-Succeeds w start end [] db h = tt
  process_fetched-Succeeds w start end (e ∷ es) db h =
      subst
        (λ f. Succeeds (
          stored_chunk sdk config batch_size fuel start end (e ∷ es)
            (store_events config w.cache_up sdk w.quarantine_up f (e ∷ es) db)))
        (sym h)
        (stored_chunk-Succeeds start end (e ∷ es)
          (store_events config w.cache_up sdk w.quarantine_up commits (e ∷ es) db)
          (store_parsed-Returns w.cache_up w.quarantine_up (parse_events sdk (e ∷ es)).0
            (parse_events sdk (e ∷ es)).1 db))

  process_chunk-Succeeds :
      (w : World ScVal) (tip start end : ℕ) (db : Database)
      → IsUp fuel tip w
      → end ≤ tip
      → Succeeds (process_chunk sdk config batch_size fuel w start end db)
  unfolding process_chunk
  process_chunk-Succeeds w tip start end db up h = elim (Bool-cases (ltb end start)) [
    | inl t ↦ rw t tt
    | inr n ↦
        let (m, enough, events, serves) = up.4 start end (ground arith) h in
        let f = fetch_events_in_range-all w.get_events start end fuel serves enough in
        rw (n, f) (process_fetched-Succeeds w start end (sort_by_ledger events) db up.1)
  ]

  finish_poll-gains :
      (w : World ScVal) (s : Indexer) (end : ℕ) (done : Chunk × Database)
      → w.cursor_writable ≡ true
      → Succeeds done
      → EndsAt end done.0
      → max (last_ledger s.cursor) end
        ≤ last_ledger (finish_poll sdk config batch_size fuel w done s).cursor
  unfolding finish_poll
  finish_poll-gains w s end (processed last fetched inserted, db) writable h e =
      rw (finish_poll-cursor sdk config batch_size fuel w last fetched inserted db s, writable)
        (update_last_indexed_ledger-ge last end s.cursor e)
  finish_poll-gains w s end (chunk_fails, db) writable h e = absurd h
  finish_poll-gains w s end (runs_on, db) writable h e = absurd h

  poll_from-gains :
      (w : World ScVal) (tip : ℕ) (s : Indexer)
      → IsUp fuel tip w
      → min tip (last_ledger s.cursor + batch_size)
        ≤ last_ledger (poll_from sdk config batch_size fuel w (last_ledger s.cursor) s).cursor
  unfolding poll_from record_indexer_ledgers
  poll_from-gains w tip s up =
      let last = last_ledger s.cursor in
      let latest = latest_ledger_sequence w.latest in
      let tip_is : latest ≡ tip = ap latest_ledger_sequence up.0 in
      let end = min (last + 1 + batch_size - 1) latest in
      let done = process_chunk sdk config batch_size fuel w (last + 1) end s.db in
      ground (
        arith,
        tip_is,
        finish_poll-gains w s (max end (last + 1 - 1)) done up.3
            (process_chunk-Succeeds w tip (last + 1) end s.db up (omega (arith, tip_is)))
            (process_chunk-EndsAt sdk config batch_size fuel w (last + 1) end s.db),
      )

  -- What one poll gains.
  poll_once-gains :
      (w : World ScVal) (tip : ℕ) (s : Indexer)
      → IsUp fuel tip w
      → s.running ≡ true
      → min tip (last_ledger s.cursor + batch_size)
        ≤ last_ledger (poll_once sdk config batch_size fuel w s).cursor
  poll_once-gains w tip s up running =
      rw (poll_once-up sdk config batch_size fuel w s running up.2)
        (poll_from-gains w tip (record s { cursor = some (last_ledger s.cursor) }) up)

  finish_poll-running :
      (w : World ScVal) (done : Chunk × Database) (s : Indexer)
      → (finish_poll sdk config batch_size fuel w done s).running ≡ s.running
  unfolding finish_poll record_indexer_ledgers
  finish_poll-running w (processed last fetched inserted, db) s = ground arith
  finish_poll-running w (chunk_fails, db) s = refl
  finish_poll-running w (runs_on, db) s = refl

  poll_from-running :
      (w : World ScVal) (last : ℕ) (s : Indexer)
      → (poll_from sdk config batch_size fuel w last s).running ≡ s.running
  unfolding poll_from record_indexer_ledgers
  poll_from-running w last s = ground (
    arith,
    finish_poll-running w
        (process_chunk sdk config batch_size fuel w (last + 1)
          (min (last + 1 + batch_size - 1) (latest_ledger_sequence w.latest)) s.db)
        s,
  )

  poll_once-running :
      (w : World ScVal) (s : Indexer)
      → (poll_once sdk config batch_size fuel w s).running ≡ s.running
  unfolding poll_from record_indexer_ledgers
  poll_once-running w s = elim (poll_once-cases sdk config batch_size fuel w s) [
    | inl e ↦ ap (λ i. i.running) e
    | inr e ↦
        ap (λ i. i.running) e
        ∙ poll_from-running w (last_ledger s.cursor)
            (record s { cursor = some (last_ledger s.cursor) })
  ]

  -- A running indexer catches up: while nothing fails, the server lays every range out in pages for which the
  -- fuel is enough, and the latest ledger of the chain stays, the cursor is at that ledger after as many polls
  -- as it takes batches to reach it, and then stays there.
  pub run_polls-reaches_tip :
      (tip : ℕ) (ws : List (World ScVal)) (s : Indexer)
      → All (IsUp fuel tip) ws
      → s.running ≡ true
      → last_ledger s.cursor ≤ tip
      → tip ≤ last_ledger s.cursor + length ws * batch_size
      → last_ledger (run_polls sdk config batch_size fuel ws s).cursor ≡ tip
  unfolding run_polls
  run_polls-reaches_tip tip [] s up running h k = omega arith
  run_polls-reaches_tip tip (w ∷ ws) s up running h k =
      let after = poll_once sdk config batch_size fuel w s in
      let gained = poll_once-gains w tip s up.0 running in
      let bound = (poll_once-cursor sdk config batch_size fuel w s).1 in
      let tip_is : latest_ledger_sequence w.latest ≡ tip = ap latest_ledger_sequence up.0.0 in
      run_polls-reaches_tip tip ws after up.1 (poll_once-running w s ∙ running)
        (omega (arith, bound, tip_is)) (omega (arith, gained))
