-- ===== src/Scores.antt =====
-- Credit scores: backend/src/services/scoresService.ts and scoreDecayService.ts. The table `scores` is a
-- map from a user to its score.
pub mod Bounds
pub mod Cached
pub mod Decay
use ziza_lend.Common.{
  ℕ, zero, suc, ◌+◌, ◌-◌, ◌*◌, ◌/◌, max, Bool, true, false, Option, none, some, List, [], ◌∷◌, ◌++◌,
  if◌then◌else◌, Text, text_eq, codes,
}
use ziza_lend.Common.Int.{ℤ, pos, negsuc, ◌+ℤ◌, ◌-ℤ◌, ltb_ℤ, max_ℤ, min_ℤ}
use ziza_lend.Common.Map.{Map, map_get, map_set}
use ziza_lend.KvStore.{Entries}
use ziza_lend.Cache.{delete}

abbrev pub Scores : Type 0
Scores = Map ℤ

-- `LEAST(850, GREATEST(300, n))`.
unfoldable pub clamp : ℤ → ℤ
clamp n = min_ℤ (pos 850) (max_ℤ (pos 300) n)

-- The row that an update proposes, `EXCLUDED.current_score` where the user has one.
unfoldable pub proposed : ℤ → ℤ
unfolding clamp
proposed delta = clamp (pos 500 +ℤ delta)

-- The score that `INSERT … ON CONFLICT DO UPDATE` leaves, from the one that was there.
unfoldable pub new_score : Option ℤ → ℤ → ℤ
unfolding proposed clamp
new_score none delta = proposed delta
new_score (some score) delta = clamp (score +ℤ proposed delta -ℤ pos 500)

-- The updates that have a user.
unfoldable pub with_user : Map ℤ → Map ℤ
with_user [] = []
with_user (([], n) ∷ us) = with_user us
with_user ((c ∷ s, n) ∷ us) = (c ∷ s, n) ∷ with_user us

unfoldable pub upsert : Map ℤ → Scores → Scores
unfolding new_score
upsert [] table = table
upsert ((user, delta) ∷ us) table =
    upsert us (map_set user (new_score (map_get user table) delta) table)

unfoldable pub score_key : Text → Text
score_key user = codes "score:userId:" ++ user

unfoldable pub breakdown_key : Text → Text
breakdown_key user = codes "score:breakdown:" ++ user

unfoldable pub drop_cached : Bool → Map ℤ → Entries → Entries
drop_cached up [] cache = cache
drop_cached up ((user, n) ∷ us) cache =
    drop_cached up us (delete up (breakdown_key user) (delete up (score_key user) cache))

-- The table, the cache, and whether the call throws.
pub record Outcome : Type 0 where
  pub table : Scores
  pub cache : Entries
  pub failed : Bool

-- `query_up` and `cache_up`: whether the database and the cache answer. An empty statement is not sent.
unfoldable pub update_user_scores_bulk : Bool → Bool → Map ℤ → Scores → Entries → Outcome
unfolding with_user upsert drop_cached
update_user_scores_bulk query_up cache_up updates table cache = elim (with_user updates) [
  | [] ↦ record { table = table; cache = cache; failed = false }
  | u ∷ us ↦
      if query_up
      then record {
        table = upsert (u ∷ us) table;
        cache = drop_cached cache_up (u ∷ us) cache;
        failed = false;
      }
      else record { table = table; cache = cache; failed = true }
]

unfoldable pub overwrite : Map ℤ → Scores → Scores
overwrite [] table = table
overwrite ((user, score) ∷ us) table = overwrite us (map_set user score table)

unfoldable pub set_absolute_user_scores_bulk : Bool → Bool → Map ℤ → Scores → Entries → Outcome
unfolding with_user overwrite drop_cached
set_absolute_user_scores_bulk query_up cache_up scores table cache = elim (with_user scores) [
  | [] ↦ record { table = table; cache = cache; failed = false }
  | u ∷ us ↦
      if query_up
      then record {
        table = overwrite (u ∷ us) table;
        cache = drop_cached cache_up (u ∷ us) cache;
        failed = false;
      }
      else record { table = table; cache = cache; failed = true }
]

-- `Math.max(1, Math.floor((now - last) / month))`; a last repayment that is not in the past counts as
-- one month.
unfoldable pub months_inactive : ℕ → Option ℕ → ℕ
months_inactive now none = 1
months_inactive now (some last) = max 1 ((now - last) / 2592000000)

unfoldable pub decayed_score : ℕ → Option ℕ → ℤ → ℤ
decayed_score now last_repayment score =
    max_ℤ (pos 300) (score -ℤ pos (months_inactive now last_repayment * 5))

unfoldable pub set_existing : Text → ℤ → Scores → Scores
set_existing user score table = elim (map_get user table) [
  | none ↦ table
  | some _ ↦ map_set user score table
]

-- The score that is returned, and the table after the `UPDATE`.
unfoldable pub apply_score_decay : ℕ → Text → ℤ → Option ℕ → Scores → ℤ × Scores
unfolding set_existing decayed_score months_inactive
apply_score_decay now borrower score last_repayment table =
    let lowered = decayed_score now last_repayment score in
    (lowered, set_existing borrower lowered table)
