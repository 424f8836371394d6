-- ===== src/ScoreReconciliation/Correct.antt =====
-- What a run writes.
use ziza_lend.Common.{
  ℕ, ◌<◌, ◌≡◌, ◌∙◌, refl, ap, Bool, true, ◌&&◌, inl, inr, Option, none, some, List, [], ◌∷◌,
  if◌then◌else◌, Text, text_eq, text_eq_iff, any, Bool-cases, Option-cases, arith,
}
use ziza_lend.Common.Int.{ℤ}
use ziza_lend.Common.Map.{Map, map_get, map_set}
use ziza_lend.Common.MapLaws.{map_get-map_set, HasUniqueKeys}
use ziza_lend.KvStore.{Entries}
use ziza_lend.Scores.{Scores, with_user, overwrite, set_absolute_user_scores_bulk}
use ziza_lend.Scores.Bounds.{map_get-with_user, with_user-HasUniqueKeys, List-cases}
use ziza_lend.ScoreReconciliation.{
  Settings, no_progress, compare_scores, write_corrections, reconcile,
}
use ziza_lend.ScoreReconciliation.Settled.{
  needs_correction, is_corrected, compare_scores-eq-settle_batch, settle_batch-HasUniqueKeys,
  compare_scores-get,
}

-- The score of the contract, where it replaces the one that was there.
abbrev pub replaced : Option ℤ → Option ℤ → Option ℤ
replaced none old = old
replaced (some score) old = some score

map_get-overwrite :
    (user : Text) (us : Map ℤ) (table : Scores)
    → HasUniqueKeys us
    → map_get user (overwrite us table) ≡ replaced (map_get user us) (map_get user table)
unfolding overwrite map_get
map_get-overwrite user [] table u = refl
map_get-overwrite user ((j, score) ∷ us) table u = ground (
  arith,
  text_eq_iff user j,
  map_get-map_set j user score table,
  map_get-overwrite user us (map_set j score table) u.1,
  u.0,
)

set_absolute-table :
    (cache_up : Bool) (c : ℕ) (s : Text) (scores : Map ℤ) (table : Scores) (cache : Entries)
    → HasUniqueKeys scores
    → map_get (c ∷ s) (set_absolute_user_scores_bulk true cache_up scores table cache).table
      ≡ replaced (map_get (c ∷ s) scores) (map_get (c ∷ s) table)
unfolding set_absolute_user_scores_bulk
set_absolute-table cache_up c s scores table cache u =
    written
    ∙ map_get-overwrite (c ∷ s) (with_user scores) table (with_user-HasUniqueKeys scores u)
    ∙ ap (λ found. replaced found (map_get (c ∷ s) table)) (map_get-with_user c s scores)
  where
    written :
        map_get (c ∷ s) (set_absolute_user_scores_bulk true cache_up scores table cache).table
        ≡ map_get (c ∷ s) (overwrite (with_user scores) table)
    written = elim (List-cases (with_user scores)) [
      | inl e ↦ rw (set_absolute_user_scores_bulk, e, overwrite) refl
      | inr (v, vs, e) ↦ rw (set_absolute_user_scores_bulk, e) refl
    ]

write_corrections-table :
    (cache_up : Bool) (c : ℕ) (s : Text) (scores : Map ℤ) (table : Scores) (cache : Entries)
    → HasUniqueKeys scores
    → map_get (c ∷ s) (write_corrections true cache_up scores table cache).table
      ≡ replaced (map_get (c ∷ s) scores) (map_get (c ∷ s) table)
unfolding write_corrections map_get
write_corrections-table cache_up c s [] table cache u = refl
write_corrections-table cache_up c s (x ∷ xs) table cache u =
    set_absolute-table cache_up c s (x ∷ xs) table cache u

module _ (s : Settings) (on_chain : Text → Option ℤ) (table : Scores) where
  replaced-corrected :
      (user : Text) (named : Bool)
      → replaced
          (if named && is_corrected s on_chain table user then on_chain user else none)
          (map_get user table)
        ≡ (if named && is_corrected s on_chain table user
            then on_chain user
            else map_get user table)
  unfolding needs_correction
  replaced-corrected user named = elim (Option-cases (on_chain user)) [
    | inl silent ↦ ground (arith, silent)
    | inr (score, answers) ↦ elim (Bool-cases (named && is_corrected s on_chain table user)) [
      | inl now_it_is ↦ rw (now_it_is, answers) refl
      | inr not_so ↦ rw not_so refl
    ]
  ]

  -- A run that the database accepts writes the score of the contract for each borrower of the run for whom the
  -- contract answers, with auto-correction on, where there is no score or one that differs by the threshold
  -- or more; no other score changes.
  pub reconcile-table :
      (cache_up : Bool) (c : ℕ) (t : Text) (borrowers : List Text) (cache : Entries)
      → 0 < s.batch_size
      → map_get (c ∷ t) (reconcile s on_chain table true cache_up borrowers cache).1.table ≡ (
          if any (text_eq (c ∷ t)) borrowers && is_corrected s on_chain table (c ∷ t)
          then on_chain (c ∷ t)
          else map_get (c ∷ t) table)
  unfolding reconcile
  reconcile-table cache_up c t borrowers cache sized =
      write_corrections-table cache_up c t (compare_scores s on_chain table borrowers).corrections
        table cache unique
      ∙ ap (λ found. replaced found (map_get (c ∷ t) table))
          (compare_scores-get s on_chain table (c ∷ t) borrowers sized)
      ∙ replaced-corrected (c ∷ t) (any (text_eq (c ∷ t)) borrowers)
    where
      unique : HasUniqueKeys (compare_scores s on_chain table borrowers).corrections
      unique =
          rw (compare_scores-eq-settle_batch s on_chain table borrowers sized)
            (settle_batch-HasUniqueKeys s on_chain table borrowers no_progress tt)
