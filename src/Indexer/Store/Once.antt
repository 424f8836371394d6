-- ===== src/Indexer/Store/Once.antt =====
-- Events that are stored again.
use ziza_lend.Common.{
  ◌≡◌, refl, ap, sym, ◌∙◌, take, take-All, Bool, true, List, [], ◌∷◌, if◌then◌else◌, Text,
  text_eq_refl, All, arith,
}
use ziza_lend.Indexer.Values.{Sdk, RawEvent, ContractEvent, returns}
use ziza_lend.Indexer.Store.{
  Database, Batch, ScoreConfig, Failure, after_events, at_commit, Fate, commits, statement_fails,
  commit_fails, retried, failed_attempt, attempt, has_event, insert_event, insert_events,
  parse_events, contains, quarantine_events, as_batch, apply_scores, run_transaction, store_parsed,
  store_events,
}

-- Each of the events is in the table, or kept out of it by a row that it conflicts with.
abbrev pub AreStored : List ContractEvent → List ContractEvent → Type 0
AreStored rows es = All (λ e. has_event e rows ≡ true) es

-- The transaction commits in the end.
abbrev pub Commits : Fate → Type 0
Commits commits = Unit
Commits statement_fails = ⊥
Commits commit_fails = ⊥
Commits (retried failure fate) = Commits fate

abbrev pub AreAside : List Text → List Text → Type 0
AreAside ids bad = All (λ id. contains id ids ≡ true) bad

module _ (config : ScoreConfig) where
  insert_event-keeps :
      (id e : ContractEvent) (b : Batch)
      → has_event id b.rows ≡ true
      → has_event id (insert_event config e b).rows ≡ true
  unfolding insert_event has_event
  insert_event-keeps id e b h = ground (arith, h)

  insert_event-stores :
      (e : ContractEvent) (b : Batch) → has_event e (insert_event config e b).rows ≡ true
  unfolding insert_event has_event
  insert_event-stores e b = ground (arith, text_eq_refl e.event_id)

  pub insert_events-keeps :
      (id : ContractEvent) (es : List ContractEvent) (b : Batch)
      → has_event id b.rows ≡ true
      → has_event id (insert_events config es b).rows ≡ true
  unfolding insert_events
  insert_events-keeps id [] b h = h
  insert_events-keeps id (e ∷ es) b h =
      insert_events-keeps id es (insert_event config e b) (insert_event-keeps id e b h)

  pub insert_events-AreStored :
      (es : List ContractEvent) (b : Batch) → AreStored (insert_events config es b).rows es
  unfolding insert_events
  insert_events-AreStored [] b = tt
  insert_events-AreStored (e ∷ es) b = (
    insert_events-keeps e es (insert_event config e b) (insert_event-stores e b),
    insert_events-AreStored es (insert_event config e b),
  )

  insert_events-again :
      (es : List ContractEvent) (b : Batch) → AreStored b.rows es → insert_events config es b ≡ b
  unfolding insert_events insert_event
  insert_events-again [] b h = refl
  insert_events-again (e ∷ es) b h = rw (insert_event, h.0) (insert_events-again es b h.1)

pub quarantine_events-keeps :
    (up : Bool) (id : Text) (bad ids : List Text)
    → contains id ids ≡ true
    → contains id (quarantine_events up bad ids) ≡ true
unfolding quarantine_events
quarantine_events-keeps up id [] ids h = h
quarantine_events-keeps up id (x ∷ bad) ids h =
    quarantine_events-keeps up id bad
      (if up then (if contains x ids then ids else x ∷ ids) else ids) (ground (arith, h))

pub quarantine_events-AreAside :
    (bad ids : List Text) → AreAside (quarantine_events true bad ids) bad
unfolding quarantine_events
quarantine_events-AreAside [] ids = tt
quarantine_events-AreAside (x ∷ bad) ids = (
  quarantine_events-keeps true x bad (if contains x ids then ids else x ∷ ids)
      (ground (arith, text_eq_refl x)),
  quarantine_events-AreAside bad (if contains x ids then ids else x ∷ ids),
)

quarantine_events-again :
    (bad ids : List Text) → AreAside ids bad → quarantine_events true bad ids ≡ ids
unfolding quarantine_events
quarantine_events-again [] ids h = refl
quarantine_events-again (x ∷ bad) ids h = rw h.0 (quarantine_events-again bad ids h.1)

module _ (config : ScoreConfig) (cache_up : Bool) where
  failed_attempt-again :
      (f : Failure) (es : List ContractEvent) (db : Database)
      → AreStored db.events es
      → failed_attempt config cache_up f es (as_batch db) db ≡ (as_batch db, db)
  unfolding failed_attempt apply_scores
  failed_attempt-again (after_events n) es db h =
      rw (insert_events-again config (take n es) (as_batch db) (take-All _ n es h)) refl
  failed_attempt-again at_commit es db h =
      rw (failed_attempt, insert_events-again config es (as_batch db) h) refl

  -- A transaction over events that are all stored changes nothing.
  pub run_transaction-again :
      (fate : Fate) (es : List ContractEvent) (db : Database)
      → Commits fate
      → AreStored db.events es
      → run_transaction config cache_up fate es db ≡ (returns [], db)
  unfolding run_transaction attempt apply_scores
  run_transaction-again commits es db c h =
      rw (attempt, insert_events-again config es (as_batch db) h) refl
  run_transaction-again statement_fails es db c h = elim c [ ]
  run_transaction-again commit_fails es db c h = elim c [ ]
  run_transaction-again (retried f fate) es db c h =
      rw (attempt, failed_attempt-again f es db h) (run_transaction-again fate es db c h)

  attempt-AreStored :
      (fate : Fate) (es : List ContractEvent) (b : Batch) (db : Database)
      → Commits fate
      → AreStored (attempt config cache_up fate es b db).1.events es
  unfolding attempt
  attempt-AreStored commits es b db c = insert_events-AreStored config es b
  attempt-AreStored statement_fails es b db c = elim c [ ]
  attempt-AreStored commit_fails es b db c = elim c [ ]
  attempt-AreStored (retried f fate) es b db c =
      let next = failed_attempt config cache_up f es b db in
      attempt-AreStored fate es next.0 next.1 c

  failed_attempt-quarantine :
      (f : Failure) (es : List ContractEvent) (b : Batch) (db : Database)
      → (failed_attempt config cache_up f es b db).1.quarantine ≡ db.quarantine
  unfolding failed_attempt
  failed_attempt-quarantine (after_events n) es b db = refl
  failed_attempt-quarantine at_commit es b db = refl

  attempt-quarantine :
      (fate : Fate) (es : List ContractEvent) (b : Batch) (db : Database)
      → (attempt config cache_up fate es b db).1.quarantine ≡ db.quarantine
  unfolding attempt
  attempt-quarantine commits es b db = refl
  attempt-quarantine statement_fails es b db = refl
  attempt-quarantine commit_fails es b db = refl
  attempt-quarantine (retried f fate) es b db =
      let next = failed_attempt config cache_up f es b db in
      attempt-quarantine fate es next.0 next.1 ∙ failed_attempt-quarantine f es b db

  store_parsed-again :
      (fate₁ fate₂ : Fate) (es : List ContractEvent) (bad : List Text) (db : Database)
      → Commits fate₁
      → Commits fate₂
      → store_parsed config cache_up true fate₂ es bad
          (store_parsed config cache_up true fate₁ es bad db).1
        ≡ (returns [], (store_parsed config cache_up true fate₁ es bad db).1)
  unfolding store_parsed run_transaction
  store_parsed-again fate₁ fate₂ [] bad db c₁ c₂ =
      ap (λ ids. (returns [], record db { quarantine = ids }))
        (quarantine_events-again bad (quarantine_events true bad db.quarantine)
          (quarantine_events-AreAside bad db.quarantine))
  store_parsed-again fate₁ fate₂ (e ∷ es) bad db c₁ c₂ =
      let first : Database = record db { quarantine = quarantine_events true bad db.quarantine } in
      let after : Database = (run_transaction config cache_up fate₁ (e ∷ es) first).1 in
      let aside = attempt-quarantine fate₁ (e ∷ es) (as_batch first) first in
      ap (λ ids. run_transaction config cache_up fate₂ (e ∷ es) (record after { quarantine = ids }))
        (ap (quarantine_events true bad) aside
          ∙ quarantine_events-again bad first.quarantine
              (quarantine_events-AreAside bad db.quarantine)
          ∙ sym aside)
      ∙ run_transaction-again fate₂ (e ∷ es) after c₂
          (attempt-AreStored fate₁ (e ∷ es) (as_batch first) first c₁)

  -- Where both transactions come to commit, after however many transient errors, and the quarantine can be
  -- written, storing the same events a second time changes no table, no score and no cached value, and hands
  -- on none of them again.
  pub store_events-again :
      {ScVal : Type 0} (sdk : Sdk ScVal) (fate₁ fate₂ : Fate) (events : List (RawEvent ScVal))
      (db : Database)
      → Commits fate₁
      → Commits fate₂
      → store_events config cache_up sdk true fate₂ events
          (store_events config cache_up sdk true fate₁ events db).1
        ≡ (returns [], (store_events config cache_up sdk true fate₁ events db).1)
  unfolding store_events
  store_events-again sdk fate₁ fate₂ events db c₁ c₂ =
      store_parsed-again fate₁ fate₂ (parse_events sdk events).0 (parse_events sdk events).1 db c₁
        c₂
