-- ===== src/ScoreReconciliation.antt =====
-- backend/src/services/scoreReconciliationService.ts: the scores of the borrowers with an active loan are
-- compared with those of the contract, and corrected by `setAbsoluteUserScoresBulk`. What the contract answers
-- is a parameter, and so is the order of texts in the database. The `chunk` of the file is the one of the default
-- checker, word for word.
pub mod Settled
pub mod Counts
pub mod Correct
pub mod Again
use ziza_lend.Common.{
  ℕ, suc, ◌+◌, Bool, true, false, not, ◌&&◌, ◌||◌, Option, none, some, List, [], ◌∷◌, ◌++◌, map,
  if◌then◌else◌, Text, text_eq, codes, leb, ◌==◌, any, take, length,
}
use ziza_lend.Common.Int.{ℤ, pos, negsuc, ◌-ℤ◌, pos_part, neg_part}
use ziza_lend.Common.Map.{Map, map_get, map_set}
use ziza_lend.Common.Sort.{sort_by}
use ziza_lend.KvStore.{Entries}
use ziza_lend.Scores.{Scores, Outcome, set_absolute_user_scores_bulk}
use ziza_lend.DefaultChecker.Batches.{chunk}

-- The columns of `contract_events` that the query reads.
pub record EventRow : Type 0 where
  pub event_type : Text
  pub loan_id : Option ℕ
  pub address : Option Text

abbrev pub same_loan : Option ℕ → Option ℕ → Bool
same_loan none other = false
same_loan (some id) none = false
same_loan (some id) (some other) = other == id

unfoldable pub ends_loan : Option ℕ → EventRow → Bool
unfolding text_eq
ends_loan id e =
    same_loan id e.loan_id
    && (text_eq e.event_type (codes "LoanRepaid") || text_eq e.event_type (codes "LoanDefaulted"))

-- The borrower of an approval whose loan has not ended; an empty address is none.
unfoldable pub active_borrower : List EventRow → EventRow → Option Text
unfolding ends_loan text_eq
active_borrower events e =
    if text_eq e.event_type (codes "LoanApproved")
      && same_loan e.loan_id e.loan_id
      && not (any (ends_loan e.loan_id) events)
    then elim e.address [
      | none ↦ none
      | some address ↦ elim address [ [] ↦ none | c ∷ s ↦ some (c ∷ s) ]
    ]
    else none

unfoldable pub add_address : Option Text → List Text → List Text
add_address none addresses = addresses
add_address (some a) addresses = if any (text_eq a) addresses then addresses else a ∷ addresses

unfoldable pub borrowers_of : List EventRow → List EventRow → List Text
unfolding add_address active_borrower
borrowers_of events [] = []
borrowers_of events (e ∷ rest) = add_address (active_borrower events e) (borrowers_of events rest)

-- `SELECT DISTINCT … ORDER BY a.address LIMIT $1`, without the join of the scores.
unfoldable pub active_borrowers : (Text → ℕ) → ℕ → List EventRow → List Text
unfolding borrowers_of sort_by
active_borrowers rank limit events = take limit (sort_by rank (borrowers_of events events))

pub record Divergence : Type 0 where
  pub address : Text
  pub db_score : Option ℤ
  pub contract_score : ℤ
  pub absolute_difference : Option ℕ

pub record Settings : Type 0 where
  pub batch_size : ℕ
  pub auto_correct_enabled : Bool
  pub auto_correct_threshold : ℕ

-- `Math.abs(contractScore - dbScore)`.
unfoldable pub distance : ℤ → ℤ → ℕ
distance a b = pos_part (a -ℤ b) + neg_part (a -ℤ b)

unfoldable pub difference : Option ℤ → ℤ → Option ℕ
difference none contract_score = none
difference (some db) contract_score = some (distance contract_score db)

unfoldable pub is_divergent : Option ℤ → ℤ → Bool
unfolding distance
is_divergent none contract_score = true
is_divergent (some db) contract_score = not (distance contract_score db == 0)

unfoldable pub exceeds_threshold : ℕ → Option ℕ → Bool
exceeds_threshold threshold none = true
exceeds_threshold threshold (some d) = leb threshold d

-- The counters and collections of a run.
pub record Progress : Type 0 where
  pub checked : ℕ
  pub failed : ℕ
  pub divergences : List Divergence
  pub corrections : Map ℤ

-- Nothing is written where there is nothing to correct.
unfoldable pub write_corrections : Bool → Bool → Map ℤ → Scores → Entries → Outcome
write_corrections query_up cache_up [] table cache = record {
  table = table;
  cache = cache;
  failed = false;
}
write_corrections query_up cache_up (c ∷ cs) table cache =
    set_absolute_user_scores_bulk query_up cache_up (c ∷ cs) table cache

abbrev pub no_progress : Progress
no_progress = record { checked = 0; failed = 0; divergences = []; corrections = [] }

module _ (s : Settings) (on_chain : Text → Option ℤ) (table : Scores) where
  unfoldable pub correct : Text → ℤ → Map ℤ → Map ℤ
  unfolding exceeds_threshold difference
  correct address score corrections =
      if s.auto_correct_enabled
        && exceeds_threshold s.auto_correct_threshold (difference (map_get address table) score)
      then map_set address score corrections
      else corrections

  -- What is done with the answer for one borrower.
  unfoldable pub settle : Text → Progress → Progress
  unfolding correct is_divergent
  settle address p = elim (on_chain address) [
    | none ↦ record p { failed = suc p.failed }
    | some score ↦
        if is_divergent (map_get address table) score
        then record p {
          checked = suc p.checked;
          divergences =
              p.divergences
              ++ record {
                address = address;
                db_score = map_get address table;
                contract_score = score;
                absolute_difference = difference (map_get address table) score;
              }
                ∷ [];
          corrections = correct address score p.corrections;
        }
        else record p { checked = suc p.checked }
  ]

  unfoldable pub settle_batch : List Text → Progress → Progress
  settle_batch [] p = p
  settle_batch (a ∷ rest) p = settle_batch rest (settle a p)

  unfoldable pub settle_batches : List (List Text) → Progress → Progress
  unfolding settle_batch
  settle_batches [] p = p
  settle_batches (b ∷ rest) p = settle_batches rest (settle_batch b p)

  unfoldable pub compare_scores : List Text → Progress
  unfolding settle_batches chunk
  compare_scores borrowers = settle_batches (chunk borrowers s.batch_size) no_progress

  -- `reconcileActiveBorrowerScores` after its query: the counters, and the table and the cache with whether
  -- the correction throws.
  unfoldable pub reconcile : Bool → Bool → List Text → Entries → Progress × Outcome
  unfolding compare_scores write_corrections
  reconcile query_up cache_up borrowers cache =
      let p = compare_scores borrowers in
      (p, write_corrections query_up cache_up p.corrections table cache)
