-- ===== src/ScoreReconciliation/Again.antt =====
-- A second run.
use ziza_lend.Common.{
  ℕ, ◌<◌, ◌≡◌, ◌∙◌, refl, ap, Bool, true, false, ◌&&◌, inl, inr, Option, none, some, List, ◌∷◌,
  if◌then◌else◌, Text, text_eq, any, Bool-cases, arith,
}
use ziza_lend.Common.Int.{ℤ, pos, negsuc, ◌-ℤ◌}
use ziza_lend.Common.Map.{map_get}
use ziza_lend.KvStore.{Entries}
use ziza_lend.Scores.{Scores}
use ziza_lend.ScoreReconciliation.{Settings, distance, compare_scores, reconcile}
use ziza_lend.ScoreReconciliation.Settled.{needs_correction, is_corrected, compare_scores-get}
use ziza_lend.ScoreReconciliation.Correct.{reconcile-table}

distance_self : (z : ℤ) → distance z z ≡ 0
unfolding distance ◌-ℤ◌
distance_self (pos n) = ground arith
distance_self (negsuc n) = ground arith

-- A score that is the contract's needs no correction.
needs_correction-equal :
    (threshold : ℕ) (answer : Option ℤ) → needs_correction threshold answer answer ≡ false
unfolding needs_correction
needs_correction-equal threshold none = refl
needs_correction-equal threshold (some score) = rw (distance_self score) refl

module _ (s : Settings) (on_chain : Text → Option ℤ) (table : Scores) (cache_up : Bool)
    (borrowers : List Text) (cache : Entries) where
  abbrev pub corrected_table : Scores
  corrected_table = (reconcile s on_chain table true cache_up borrowers cache).1.table

  corrected-once :
      (c : ℕ) (t : Text)
      → 0 < s.batch_size
      → any (text_eq (c ∷ t)) borrowers ≡ true
      → is_corrected s on_chain corrected_table (c ∷ t) ≡ false
  corrected-once c t sized named =
      let now = reconcile-table s on_chain table cache_up c t borrowers cache sized in
      elim (Bool-cases (is_corrected s on_chain table (c ∷ t))) [
        | inl was ↦
            ap
              (λ db.
                s.auto_correct_enabled
                && needs_correction s.auto_correct_threshold db (on_chain (c ∷ t)))
              (now ∙ rw (named, was) refl)
            ∙ ap (λ b. s.auto_correct_enabled && b)
                (needs_correction-equal s.auto_correct_threshold (on_chain (c ∷ t)))
            ∙ ground arith
        | inr never ↦
            ap
              (λ db.
                s.auto_correct_enabled
                && needs_correction s.auto_correct_threshold db (on_chain (c ∷ t)))
              (now ∙ rw (named, never) refl)
            ∙ never
      ]

  -- After a run that the database accepts, a second run over the same borrowers, with the contract's scores
  -- unchanged, corrects none of them.
  pub reconcile_again :
      (c : ℕ) (t : Text)
      → 0 < s.batch_size
      → map_get (c ∷ t) (compare_scores s on_chain corrected_table borrowers).corrections ≡ none
  reconcile_again c t sized =
      compare_scores-get s on_chain corrected_table (c ∷ t) borrowers sized
      ∙ by_name (any (text_eq (c ∷ t)) borrowers) refl
    where
      by_name :
          (named : Bool)
          → any (text_eq (c ∷ t)) borrowers ≡ named
          → (if named && is_corrected s on_chain corrected_table (c ∷ t)
              then on_chain (c ∷ t)
              else none)
            ≡ none
      by_name false e = refl
      by_name true e = rw (corrected-once c t sized e) refl
