-- ===== src/Indexer/Store/Sums.antt =====
-- The sums of the score changes of a batch.
use ziza_lend.Common.{
  ℕ, ◌≡◌, refl, ap, ◌∙◌, sym, Bool, true, false, ◌&&◌, ◌||◌, Option, none, some, is_some, List, [],
  ◌∷◌, ◌++◌, if◌then◌else◌, Text, text_eq, text_eq_iff, any, Bool-cases, inl, inr, arith,
}
use ziza_lend.Common.Int.{ℤ, pos}
use ziza_lend.Common.Map.{Map, map_get}
use ziza_lend.Common.MapLaws.{map_get-map_set, HasUniqueKeys, map_set-HasUniqueKeys}
use ziza_lend.Scores.{new_score}
use ziza_lend.Scores.Bounds.{updated, update_user_scores_bulk-table}
use ziza_lend.Indexer.Values.{ContractEvent}
use ziza_lend.Indexer.Store.{
  Database, Batch, ScoreConfig, insert_event, insert_events, as_batch, apply_scores, score_change,
  add_score_change, change_of, or_zero, has_event,
}

abbrev is_user : Text → Option Text → Bool
is_user user none = false
is_user user (some address) = text_eq user address

module _ (config : ScoreConfig) where
  -- Whether an event changes the score of a user, and the sum of the changes of several.
  abbrev pub touches : Text → ContractEvent → Bool
  touches user e = is_some (score_change config e.event_type) && is_user user e.facts.address

  abbrev applied : Option (ℤ → ℤ) → ℤ → ℤ
  applied none n = n
  applied (some f) n = f n

  abbrev pub sum_changes : Text → ℤ → List ContractEvent → ℤ
  sum_changes user n [] = n
  sum_changes user n (e ∷ es) =
      sum_changes user (if touches user e then applied (score_change config e.event_type) n else n)
        es

  sum_changes-append :
      (user : Text) (n : ℤ) (es : List ContractEvent) (e : ContractEvent)
      → sum_changes user n (es ++ (e ∷ [])) ≡ (
          if touches user e
          then applied (score_change config e.event_type) (sum_changes user n es)
          else sum_changes user n es)
  sum_changes-append user n [] e = refl
  sum_changes-append user n (x ∷ es) e =
      sum_changes-append user
        (if touches user x then applied (score_change config x.event_type) n else n) es e

  any-append :
      (user : Text) (es : List ContractEvent) (e : ContractEvent)
      → any (touches user) (es ++ (e ∷ [])) ≡ (any (touches user) es || touches user e)
  any-append user [] e = ground arith
  any-append user (x ∷ es) e = ground (arith, any-append user es e)

  -- The sums of the loop, for a user with a name.
  pub record Adds (c : ℕ) (s : Text) (b : Batch) : Type 0 where
    pub summed :
        or_zero config (map_get (c ∷ s) b.score_updates) ≡ sum_changes (c ∷ s) (pos 0) b.inserted
    pub present : is_some (map_get (c ∷ s) b.score_updates) ≡ any (touches (c ∷ s)) b.inserted
    pub unique : HasUniqueKeys b.score_updates

  map_get-change_of :
      (c : ℕ) (s : Text) (f : Option (ℤ → ℤ)) (address : Option Text) (updates : Map ℤ)
      → map_get (c ∷ s) (change_of config f address updates) ≡ (
          if is_some f && is_user (c ∷ s) address
          then some (applied f (or_zero config (map_get (c ∷ s) updates)))
          else map_get (c ∷ s) updates)
  unfolding text_eq
  map_get-change_of c s none address updates = refl
  map_get-change_of c s (some f) none updates = refl
  map_get-change_of c s (some f) (some []) updates = refl
  map_get-change_of c s (some f) (some (d ∷ t)) updates =
      elim (Bool-cases (text_eq (c ∷ s) (d ∷ t))) [
        | inl e ↦
            let same : (c ∷ s) ≡ (d ∷ t) = (text_eq_iff (c ∷ s) (d ∷ t)).0 e in
            rw
              (
                map_get-map_set (d ∷ t) (c ∷ s) (f (or_zero config (map_get (d ∷ t) updates)))
                    updates,
                e,
                same,
              )
              refl
        | inr e ↦
            rw
              (
                map_get-map_set (d ∷ t) (c ∷ s) (f (or_zero config (map_get (d ∷ t) updates)))
                    updates,
                e,
              )
              refl
      ]

  change_of-HasUniqueKeys :
      (f : Option (ℤ → ℤ)) (address : Option Text) (updates : Map ℤ)
      → HasUniqueKeys updates
      → HasUniqueKeys (change_of config f address updates)
  change_of-HasUniqueKeys none address updates u = u
  change_of-HasUniqueKeys (some f) none updates u = u
  change_of-HasUniqueKeys (some f) (some []) updates u = u
  change_of-HasUniqueKeys (some f) (some (d ∷ t)) updates u =
      map_set-HasUniqueKeys (d ∷ t) (f (or_zero config (map_get (d ∷ t) updates))) updates u

  counted_step :
      (t : Bool) (f : Option (ℤ → ℤ)) (o : Option ℤ) (n : ℤ)
      → or_zero config o ≡ n
      → or_zero config (if t then some (applied f (or_zero config o)) else o)
        ≡ (if t then applied f n else n)
  counted_step true f o n h = ap (applied f) h
  counted_step false f o n h = h

  present_step :
      (t p : Bool) (v : ℤ) (o : Option ℤ)
      → is_some o ≡ p
      → is_some (if t then some v else o) ≡ (p || t)
  present_step true p v o h = ground arith
  present_step false p v o h = ground arith

  insert_event-Adds :
      (c : ℕ) (s : Text) (e : ContractEvent) (b : Batch)
      → Adds c s b
      → Adds c s (insert_event config e b)
  unfolding insert_event add_score_change
  insert_event-Adds c s e b a = elim (Bool-cases (has_event e b.rows)) [
    | inl old ↦ rw (insert_event, old) a
    | inr new ↦
        let got =
          map_get-change_of c s (score_change config e.event_type) e.facts.address
            b.score_updates in
        rw (insert_event, new)
          (record {
            summed =
                ap (or_zero config) got
                ∙ counted_step (touches (c ∷ s) e) (score_change config e.event_type)
                    (map_get (c ∷ s) b.score_updates) (sum_changes (c ∷ s) (pos 0) b.inserted)
                    a.summed
                ∙ sym (sum_changes-append (c ∷ s) (pos 0) b.inserted e);
            present =
                ap is_some got
                ∙ present_step (touches (c ∷ s) e) (any (touches (c ∷ s)) b.inserted)
                    (applied (score_change config e.event_type)
                      (or_zero config (map_get (c ∷ s) b.score_updates)))
                    (map_get (c ∷ s) b.score_updates) a.present
                ∙ sym (any-append (c ∷ s) b.inserted e);
            unique =
                change_of-HasUniqueKeys (score_change config e.event_type) e.facts.address
                  b.score_updates a.unique;
          })
  ]

  pub insert_events-Adds :
      (c : ℕ) (s : Text) (es : List ContractEvent) (b : Batch)
      → Adds c s b
      → Adds c s (insert_events config es b)
  unfolding insert_events
  insert_events-Adds c s [] b a = a
  insert_events-Adds c s (e ∷ es) b a =
      insert_events-Adds c s es (insert_event config e b) (insert_event-Adds c s e b a)

  pub as_batch-Adds : (c : ℕ) (s : Text) (db : Database) → Adds c s (as_batch db)
  unfolding map_get
  as_batch-Adds c s db = record { summed = refl; present = refl; unique = tt }

  -- The score of a user after the sums were applied.
  pub apply_scores-table :
      (cache_up : Bool) (c : ℕ) (s : Text) (updates : Map ℤ) (db : Database)
      → HasUniqueKeys updates
      → map_get (c ∷ s) (apply_scores config cache_up updates db.scores db.cache).0
        ≡ updated (map_get (c ∷ s) updates) (map_get (c ∷ s) db.scores)
  unfolding apply_scores map_get
  apply_scores-table cache_up c s [] db u = refl
  apply_scores-table cache_up c s (v ∷ vs) db u =
      update_user_scores_bulk-table cache_up c s (v ∷ vs) db.scores db.cache u

  pub updated-sum :
      (o old : Option ℤ) (p : Bool) (n : ℤ)
      → or_zero config o ≡ n
      → is_some o ≡ p
      → updated o old ≡ (if p then some (new_score old n) else old)
  updated-sum none old p n h k = rw (← k) refl
  updated-sum (some d) old p n h k = rw (← k, ← h) refl
