-- ===== src/Indexer/Store/Changes.antt =====
-- What a transaction does to the scores, with its attempts.
use mathlib.Core.List.{append-nil, append_assoc}
use ziza_lend.Common.{
  ℕ, ◌≡◌, refl, ap, ◌∙◌, sym, Bool, Option, some, List, [], ◌∷◌, ◌++◌, if◌then◌else◌, Text, any,
  Bool-cases, inl, inr, take,
}
use ziza_lend.Common.Int.{ℤ, pos}
use ziza_lend.Common.Map.{map_get}
use ziza_lend.Scores.{new_score}
use ziza_lend.Indexer.Values.{ContractEvent, returns}
use ziza_lend.Indexer.Store.{
  Database, Batch, ScoreConfig, Failure, after_events, at_commit, Fate, commits, statement_fails,
  commit_fails, retried, failed_attempt, attempt, insert_event, insert_events, as_batch,
  run_transaction, has_event,
}
use ziza_lend.Indexer.Store.Once.{Commits}
use ziza_lend.Indexer.Store.Sums.{
  touches, sum_changes, Adds, insert_events-Adds, as_batch-Adds, apply_scores-table, updated-sum,
}

module _ (config : ScoreConfig) where
  -- The events that are new to a table, in order, and those that a committed transaction hands on: the
  -- new ones of each attempt.
  abbrev pub new_events : List ContractEvent → List ContractEvent → List ContractEvent
  new_events rows [] = []
  new_events rows (e ∷ es) =
      let rest = new_events (e ∷ rows) es in
      if has_event e rows then new_events rows es else e ∷ rest

  abbrev pub handed_on : Fate → List ContractEvent → List ContractEvent → List ContractEvent
  handed_on (retried (after_events n) fate) es rows =
      new_events rows (take n es) ++ handed_on fate es rows
  handed_on (retried at_commit fate) es rows = new_events rows es ++ handed_on fate es rows
  handed_on _ es rows = new_events rows es

  insert_events-inserted :
      (es : List ContractEvent) (b : Batch)
      → (insert_events config es b).inserted ≡ b.inserted ++ new_events b.rows es
  unfolding insert_events insert_event
  insert_events-inserted [] b = sym (append-nil b.inserted)
  insert_events-inserted (e ∷ es) b = elim (Bool-cases (has_event e b.rows)) [
    | inl old ↦
        let same : insert_event config e b ≡ b = rw (insert_event, old) refl in
        ap (λ b'. (insert_events config es b').inserted) same
        ∙ insert_events-inserted es b
        ∙ rw old refl
    | inr new ↦
        insert_events-inserted es (insert_event config e b)
        ∙ rw (insert_event, new) (append_assoc b.inserted (e ∷ []) (new_events (e ∷ b.rows) es))
  ]

  failed_attempt-inserted :
      (cache_up : Bool) (f : Failure) (fate : Fate) (es : List ContractEvent) (b : Batch)
      (db : Database)
      → b.rows ≡ db.events
      → (failed_attempt config cache_up f es b db).0.inserted ++ handed_on fate es db.events
        ≡ b.inserted ++ handed_on (retried f fate) es db.events
  unfolding failed_attempt
  failed_attempt-inserted cache_up (after_events n) fate es b db e =
      rw (insert_events-inserted (take n es) b, e)
        (append_assoc b.inserted (new_events db.events (take n es)) (handed_on fate es db.events))
  failed_attempt-inserted cache_up at_commit fate es b db e =
      rw (insert_events-inserted es b, e)
        (append_assoc b.inserted (new_events db.events es) (handed_on fate es db.events))

  failed_attempt-Adds :
      (cache_up : Bool) (c : ℕ) (s : Text) (f : Failure) (es : List ContractEvent) (b : Batch)
      (db : Database)
      → Adds config c s b
      → Adds config c s (failed_attempt config cache_up f es b db).0
  unfolding failed_attempt
  failed_attempt-Adds cache_up c s (after_events n) es b db a =
      let a' = insert_events-Adds config c s (take n es) b a in
      record { summed = a'.summed; present = a'.present; unique = a'.unique }
  failed_attempt-Adds cache_up c s at_commit es b db a =
      let a' = insert_events-Adds config c s es b a in
      record { summed = a'.summed; present = a'.present; unique = a'.unique }

  failed_attempt-rows :
      (cache_up : Bool) (f : Failure) (es : List ContractEvent) (b : Batch) (db : Database)
      → ((failed_attempt config cache_up f es b db).0.rows ≡ db.events)
        × ((failed_attempt config cache_up f es b db).1.events ≡ db.events)
        × ((failed_attempt config cache_up f es b db).1.scores ≡ db.scores)
  unfolding failed_attempt
  failed_attempt-rows cache_up (after_events n) es b db = (refl, refl, refl)
  failed_attempt-rows cache_up at_commit es b db = (refl, refl, refl)

  -- The score of a user after one update by the sum of the changes of some events.
  abbrev pub rescored : Text → List ContractEvent → Option ℤ → Option ℤ
  rescored user events old =
      if any (touches config user) events
      then some (new_score old (sum_changes config user (pos 0) events))
      else old

  attempt-scores :
      (cache_up : Bool) (c : ℕ) (s : Text) (fate : Fate) (es : List ContractEvent) (b : Batch)
      (db : Database)
      → Commits fate
      → b.rows ≡ db.events
      → Adds config c s b
      → ((attempt config cache_up fate es b db).0
          ≡ returns (b.inserted ++ handed_on fate es db.events))
        × (map_get (c ∷ s) (attempt config cache_up fate es b db).1.scores
            ≡ rescored
                (c ∷ s)
                (b.inserted ++ handed_on fate es db.events)
                (map_get (c ∷ s) db.scores))
  unfolding attempt
  attempt-scores cache_up c s statement_fails es b db k e a = elim k [ ]
  attempt-scores cache_up c s commit_fails es b db k e a = elim k [ ]
  attempt-scores cache_up c s commits es b db k e a =
      let b' = insert_events config es b in
      let a' = insert_events-Adds config c s es b a in
      let all_new : b'.inserted ≡ b.inserted ++ new_events db.events es =
        insert_events-inserted es b ∙ ap (λ rows. b.inserted ++ new_events rows es) e in
      (
        ap returns all_new,
        apply_scores-table config cache_up c s b'.score_updates db a'.unique
            ∙ updated-sum config (map_get (c ∷ s) b'.score_updates) (map_get (c ∷ s) db.scores)
                (any (touches config (c ∷ s)) b'.inserted)
                (sum_changes config (c ∷ s) (pos 0) b'.inserted) a'.summed a'.present
            ∙ ap (λ events. rescored (c ∷ s) events (map_get (c ∷ s) db.scores)) all_new,
      )
  attempt-scores cache_up c s (retried f fate) es b db k e a =
      let next = failed_attempt config cache_up f es b db in
      let (rows, events, scores) = failed_attempt-rows cache_up f es b db in
      let (handed, scored) =
        attempt-scores cache_up c s fate es next.0 next.1 k (rows ∙ sym events)
          (failed_attempt-Adds cache_up c s f es b db a) in
      let same : next.0.inserted ++ handed_on fate es next.1.events
          ≡ b.inserted ++ handed_on (retried f fate) es db.events =
        ap (λ rs. next.0.inserted ++ handed_on fate es rs) events
        ∙ failed_attempt-inserted cache_up f fate es b db e in
      (
        handed ∙ ap returns same,
        scored
            ∙ ap (λ es'. rescored (c ∷ s) es' (map_get (c ∷ s) next.1.scores)) same
            ∙ ap
                (λ t.
                  rescored (c ∷ s) (b.inserted ++ handed_on (retried f fate) es db.events)
                    (map_get (c ∷ s) t))
                scores,
      )

  -- A transaction that commits hands on the new events of each of its attempts, and gives a user whom they
  -- touch the score of one update by the sum of their changes, repayments up and defaults down; the score of
  -- every other user stays. So an event counts once where the first attempt commits, and again for each
  -- attempt that a transient error ended after it.
  pub run_transaction-scores :
      (cache_up : Bool) (c : ℕ) (s : Text) (fate : Fate) (es : List ContractEvent) (db : Database)
      → Commits fate
      → ((run_transaction config cache_up fate es db).0 ≡ returns (handed_on fate es db.events))
        × (map_get (c ∷ s) (run_transaction config cache_up fate es db).1.scores
            ≡ rescored (c ∷ s) (handed_on fate es db.events) (map_get (c ∷ s) db.scores))
  unfolding run_transaction
  run_transaction-scores cache_up c s fate es db k =
      attempt-scores cache_up c s fate es (as_batch db) db k refl (as_batch-Adds config c s db)
