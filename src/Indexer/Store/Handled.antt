-- ===== src/Indexer/Store/Handled.antt =====
-- Where an event stands once it was stored: in the table of events, or put aside.
use ziza_lend.Common.{◌≡◌, refl, ap, sym, ◌∙◌, Bool, true, List, [], ◌∷◌, Text, All}
use ziza_lend.Indexer.Values.{
  Sdk, RawEvent, ContractEvent, Throws, returns, throws, Skips, kept, skipped,
}
use ziza_lend.Indexer.Parse.{parse_event}
use ziza_lend.Indexer.Store.{
  Database, Batch, ScoreConfig, Failure, after_events, at_commit, Fate, commits, statement_fails,
  commit_fails, retried, failed_attempt, attempt, has_event, parse_events, add_parsed, contains,
  quarantine_events, as_batch, run_transaction, store_parsed, store_events,
}
use ziza_lend.Indexer.Store.Once.{
  AreStored, AreAside, insert_events-keeps, insert_events-AreStored, quarantine_events-keeps,
  quarantine_events-AreAside,
}

-- The place of an event with this result of `parseEvent`; one that is skipped needs none, and so does one
-- that conflicts with a row.
abbrev pub IsPlaced : Database → Text → Throws (Skips ContractEvent) → Type 0
IsPlaced db id (returns (kept p)) = has_event p db.events ≡ true
IsPlaced db id (returns skipped) = Unit
IsPlaced db id throws = contains id db.quarantine ≡ true

abbrev pub IsHandled : {ScVal : Type 0} → Sdk ScVal → Database → RawEvent ScVal → Type 0
IsHandled sdk db e = IsPlaced db e.id (parse_event sdk e)

-- No event leaves its table.
abbrev pub Keeps : Database → Database → Type 0
Keeps old new =
    ((e : ContractEvent) → has_event e old.events ≡ true → has_event e new.events ≡ true)
    × ((id : Text) → contains id old.quarantine ≡ true → contains id new.quarantine ≡ true)

pub IsPlaced-Keeps :
    (old new : Database) (id : Text) (r : Throws (Skips ContractEvent))
    → Keeps old new
    → IsPlaced old id r
    → IsPlaced new id r
IsPlaced-Keeps old new id (returns (kept p)) k h = k.0 p h
IsPlaced-Keeps old new id (returns skipped) k h = tt
IsPlaced-Keeps old new id throws k h = k.1 id h

abbrev pub ArePlaced :
    {ScVal : Type 0}
    → Sdk ScVal
    → List (RawEvent ScVal)
    → Throws (List ContractEvent) × Database
    → Type 0
ArePlaced sdk events (returns inserted, db) = All (IsHandled sdk db) events
ArePlaced sdk events (throws, db) = Unit

-- A parsed event that comes after the others.
add_parsed-IsPlaced :
    (db : Database) (id : Text) (r : Throws (Skips ContractEvent))
    (rest : List ContractEvent × List Text)
    → AreStored db.events (add_parsed id r rest).0
    → AreAside db.quarantine (add_parsed id r rest).1
    → IsPlaced db id r × AreStored db.events rest.0 × AreAside db.quarantine rest.1
unfolding add_parsed
add_parsed-IsPlaced db id (returns (kept p)) rest h k = (h.0, h.1, k)
add_parsed-IsPlaced db id (returns skipped) rest h k = (tt, h, k)
add_parsed-IsPlaced db id throws rest h k = (k.0, h, k.1)

module _ (config : ScoreConfig) (cache_up quarantine_up : Bool) where
  failed_attempt-Keeps :
      (f : Failure) (es : List ContractEvent) (b : Batch) (db : Database)
      → ((failed_attempt config cache_up f es b db).1.events ≡ db.events)
        × ((failed_attempt config cache_up f es b db).1.quarantine ≡ db.quarantine)
        × ((failed_attempt config cache_up f es b db).0.rows ≡ db.events)
  unfolding failed_attempt
  failed_attempt-Keeps (after_events n) es b db = (refl, refl, refl)
  failed_attempt-Keeps at_commit es b db = (refl, refl, refl)

  attempt-Keeps :
      (fate : Fate) (es : List ContractEvent) (b : Batch) (db : Database)
      → b.rows ≡ db.events
      → Keeps db (attempt config cache_up fate es b db).1
  unfolding attempt
  attempt-Keeps statement_fails es b db e = (λ id h. h, λ id h. h)
  attempt-Keeps commit_fails es b db e = (λ id h. h, λ id h. h)
  attempt-Keeps commits es b db e =
      (λ id h. insert_events-keeps config id es b (ap (has_event id) e ∙ h), λ id h. h)
  attempt-Keeps (retried f fate) es b db e =
      let next = failed_attempt config cache_up f es b db in
      let (events, quarantine, rows) = failed_attempt-Keeps f es b db in
      let k = attempt-Keeps fate es next.0 next.1 (rows ∙ sym events) in
      (
        λ id h. k.0 id (ap (has_event id) events ∙ h),
        λ id h. k.1 id (ap (contains id) quarantine ∙ h),
      )

  run_transaction-Keeps :
      (fate : Fate) (es : List ContractEvent) (db : Database)
      → Keeps db (run_transaction config cache_up fate es db).1
  unfolding run_transaction
  run_transaction-Keeps fate es db = attempt-Keeps fate es (as_batch db) db refl

  store_parsed-Keeps :
      (fate : Fate) (es : List ContractEvent) (bad : List Text) (db : Database)
      → Keeps db (store_parsed config cache_up quarantine_up fate es bad db).1
  unfolding store_parsed
  store_parsed-Keeps fate [] bad db =
      (λ id h. h, λ id h. quarantine_events-keeps quarantine_up id bad db.quarantine h)
  store_parsed-Keeps fate (e ∷ es) bad db =
      let put_aside : Database = record db {
        quarantine = quarantine_events quarantine_up bad db.quarantine;
      } in
      let k = run_transaction-Keeps fate (e ∷ es) put_aside in
      (k.0, λ id h. k.1 id (quarantine_events-keeps quarantine_up id bad db.quarantine h))

  -- Storing events, whatever fails, takes no row from a table.
  pub store_events-Keeps :
      {ScVal : Type 0} (sdk : Sdk ScVal) (fate : Fate) (events : List (RawEvent ScVal))
      (db : Database)
      → Keeps db (store_events config cache_up sdk quarantine_up fate events db).1
  unfolding store_events
  store_events-Keeps sdk fate events db =
      store_parsed-Keeps fate (parse_events sdk events).0 (parse_events sdk events).1 db

module _ {ScVal : Type 0} (sdk : Sdk ScVal) (config : ScoreConfig) (cache_up : Bool) where
  parse_events-IsHandled :
      (events : List (RawEvent ScVal)) (db : Database)
      → AreStored db.events (parse_events sdk events).0
      → AreAside db.quarantine (parse_events sdk events).1
      → All (IsHandled sdk db) events
  unfolding parse_events
  parse_events-IsHandled [] db h k = tt
  parse_events-IsHandled (e ∷ es) db h k =
      let placed = add_parsed-IsPlaced db e.id (parse_event sdk e) (parse_events sdk es) h k in
      (placed.0, parse_events-IsHandled es db placed.1 placed.2)

  attempt-ArePlaced :
      (fate : Fate) (events : List (RawEvent ScVal)) (es : List ContractEvent) (b : Batch)
      (db : Database)
      → (parse_events sdk events).0 ≡ es
      → AreAside db.quarantine (parse_events sdk events).1
      → ArePlaced sdk events (attempt config cache_up fate es b db)
  unfolding attempt
  attempt-ArePlaced statement_fails events es b db p q = tt
  attempt-ArePlaced commit_fails events es b db p q = tt
  attempt-ArePlaced commits events es b db p q =
      parse_events-IsHandled events (attempt config cache_up commits es b db).1
        (rw p (insert_events-AreStored config es b)) q
  attempt-ArePlaced (retried f fate) events es b db p q =
      let next = failed_attempt config cache_up f es b db in
      attempt-ArePlaced fate events es next.0 next.1 p
        (rw (failed_attempt-Keeps config cache_up true f es b db).1 q)

  store_parsed-ArePlaced :
      (fate : Fate) (events : List (RawEvent ScVal)) (db : Database) (es : List ContractEvent)
      (bad : List Text)
      → (parse_events sdk events).0 ≡ es
      → (parse_events sdk events).1 ≡ bad
      → ArePlaced sdk events (store_parsed config cache_up true fate es bad db)
  unfolding store_parsed run_transaction
  store_parsed-ArePlaced fate events db [] bad p q =
      let db' : Database = record db { quarantine = quarantine_events true bad db.quarantine } in
      parse_events-IsHandled events db' (rw p tt)
        (rw q (quarantine_events-AreAside bad db.quarantine))
  store_parsed-ArePlaced fate events db (e ∷ es) bad p q =
      let put_aside : Database = record db {
        quarantine = quarantine_events true bad db.quarantine;
      } in
      attempt-ArePlaced fate events (e ∷ es) (as_batch put_aside) put_aside p
        (rw q (quarantine_events-AreAside bad db.quarantine))

  -- Where the quarantine can be written, storing events throws, or leaves each of them in its place:
  -- one that is malformed in the quarantine, and one that parses in the table of events, unless a row of the
  -- table conflicts with it under a unique constraint.
  pub store_events-ArePlaced :
      (fate : Fate) (events : List (RawEvent ScVal)) (db : Database)
      → ArePlaced sdk events (store_events config cache_up sdk true fate events db)
  unfolding store_events
  store_events-ArePlaced fate events db =
      store_parsed-ArePlaced fate events db (parse_events sdk events).0 (parse_events sdk events).1
        refl refl
