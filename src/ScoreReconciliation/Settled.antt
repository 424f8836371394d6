-- ===== src/ScoreReconciliation/Settled.antt =====
-- What a run corrects, borrower by borrower.
use ziza_lend.Common.{
  ℕ, ◌<◌, ◌≡◌, ◌∙◌, refl, sym, ap, Bool, true, false, not, ◌&&◌, ◌||◌, inl, inr, Option, none, some,
  List, [], ◌∷◌, ◌++◌, if◌then◌else◌, Text, text_eq, text_eq_iff, leb, ◌==◌, any, Bool-cases,
  Option-cases, arith,
}
use mathlib.Core.Path.{subst}
use ziza_lend.Common.Int.{ℤ}
use ziza_lend.Common.Map.{Map, map_get, map_set}
use ziza_lend.Common.MapLaws.{map_get-map_set, HasUniqueKeys, map_set-HasUniqueKeys}
use ziza_lend.Scores.{Scores}
use ziza_lend.DefaultChecker.Batches.Chunks.{flatten, chunk-cuts}
use ziza_lend.DefaultChecker.Batches.{chunk}
use ziza_lend.ScoreReconciliation.{
  Settings, distance, difference, is_divergent, exceeds_threshold, Progress, correct, settle,
  settle_batch, settle_batches, no_progress, compare_scores,
}

-- Whether the score in the table is to be replaced by the answer of the contract.
unfoldable pub needs_correction : ℕ → Option ℤ → Option ℤ → Bool
needs_correction threshold db none = false
needs_correction threshold none (some score) = true
needs_correction threshold (some db) (some score) =
    not (distance score db == 0) && leb threshold (distance score db)

either :
    (x y c : Bool) (o q : Option ℤ)
    → (if y && c then o else (if x && c then o else q)) ≡ (if (x || y) && c then o else q)
either x y c o q = ground arith

module _ (s : Settings) (on_chain : Text → Option ℤ) (table : Scores) where
  abbrev pub is_corrected : Text → Bool
  is_corrected user =
      s.auto_correct_enabled
      && needs_correction s.auto_correct_threshold (map_get user table) (on_chain user)

  -- What settling one borrower does to the corrections.
  abbrev settled : Text → Option ℤ → Map ℤ → Map ℤ
  settled a none corrections = corrections
  settled a (some score) corrections =
      if is_corrected a then map_set a score corrections else corrections

  settle-settled :
      (a : Text) (p : Progress)
      → (settle s on_chain table a p).corrections ≡ settled a (on_chain a) p.corrections
  unfolding settle correct is_divergent exceeds_threshold difference needs_correction
  settle-settled a p = elim (Option-cases (on_chain a)) [
    | inl silent ↦ ground (arith, silent)
    | inr (score, answers) ↦ elim (Option-cases (map_get a table)) [
      | inl new ↦ ground (arith, answers, new)
      | inr (db, old) ↦ ground (arith, answers, old)
    ]
  ]

  settled-own :
      (a : Text) (o : Option ℤ) (corrections : Map ℤ)
      → on_chain a ≡ o
      → map_get a (settled a o corrections)
        ≡ (if is_corrected a then on_chain a else map_get a corrections)
  unfolding needs_correction
  settled-own a none corrections e = ground (arith, e)
  settled-own a (some score) corrections e = elim (Bool-cases (is_corrected a)) [
    | inl yes_it_is ↦ rw (yes_it_is, map_get-map_set, (text_eq_iff a a).1 refl) (sym e)
    | inr not_so ↦ rw not_so refl
  ]

  settled-other :
      (user a : Text) (o : Option ℤ) (corrections : Map ℤ)
      → text_eq user a ≡ false
      → map_get user (settled a o corrections) ≡ map_get user corrections
  settled-other user a none corrections other = refl
  settled-other user a (some score) corrections other = elim (Bool-cases (is_corrected a)) [
    | inl yes_it_is ↦ rw (yes_it_is, map_get-map_set, other) refl
    | inr not_so ↦ rw not_so refl
  ]

  settle-get :
      (user a : Text) (p : Progress)
      → map_get user (settle s on_chain table a p).corrections ≡ (
          if text_eq user a && is_corrected user then on_chain user else map_get user p.corrections)
  settle-get user a p = elim (Bool-cases (text_eq user a)) [
    | inl same ↦
        ap (map_get user) (settle-settled a p)
        ∙ subst
            (λ u.
              map_get u (settled a (on_chain a) p.corrections)
              ≡ (if text_eq u a && is_corrected u then on_chain u else map_get u p.corrections))
            (sym ((text_eq_iff user a).0 same))
            (rw ((text_eq_iff a a).1 refl) (settled-own a (on_chain a) p.corrections refl))
    | inr other ↦
        ap (map_get user) (settle-settled a p)
        ∙ settled-other user a (on_chain a) p.corrections other
        ∙ rw other refl
  ]

  settle_batch-get :
      (user : Text) (batch : List Text) (p : Progress)
      → map_get user (settle_batch s on_chain table batch p).corrections ≡ (
          if any (text_eq user) batch && is_corrected user
          then on_chain user
          else map_get user p.corrections)
  unfolding settle_batch
  settle_batch-get user [] p = refl
  settle_batch-get user (a ∷ rest) p =
      settle_batch-get user rest (settle s on_chain table a p)
      ∙ ap (λ found. if any (text_eq user) rest && is_corrected user then on_chain user else found)
          (settle-get user a p)
      ∙ either (text_eq user a) (any (text_eq user) rest) (is_corrected user) (on_chain user)
          (map_get user p.corrections)

  settle_batches-flatten :
      (batches : List (List Text)) (p : Progress)
      → settle_batches s on_chain table batches p
        ≡ settle_batch s on_chain table (flatten batches) p
  unfolding settle_batches settle_batch
  settle_batches-flatten [] p = refl
  settle_batches-flatten (b ∷ rest) p =
      settle_batches-flatten rest (settle_batch s on_chain table b p) ∙ sym (joined b p)
    where
      joined :
          (xs : List Text) (q : Progress)
          → settle_batch s on_chain table (xs ++ flatten rest) q
            ≡ settle_batch s on_chain table (flatten rest) (settle_batch s on_chain table xs q)
      joined [] q = refl
      joined (x ∷ xs) q = joined xs (settle s on_chain table x q)

  pub compare_scores-eq-settle_batch :
      (borrowers : List Text)
      → 0 < s.batch_size
      → compare_scores s on_chain table borrowers
        ≡ settle_batch s on_chain table borrowers no_progress
  unfolding compare_scores
  compare_scores-eq-settle_batch borrowers sized =
      settle_batches-flatten (chunk borrowers s.batch_size) no_progress
      ∙ ap (λ b. settle_batch s on_chain table b no_progress)
          (chunk-cuts borrowers s.batch_size sized).0

  pub settle_batch-HasUniqueKeys :
      (batch : List Text) (p : Progress)
      → HasUniqueKeys p.corrections
      → HasUniqueKeys (settle_batch s on_chain table batch p).corrections
  unfolding settle_batch
  settle_batch-HasUniqueKeys [] p u = u
  settle_batch-HasUniqueKeys (a ∷ rest) p u =
      settle_batch-HasUniqueKeys rest (settle s on_chain table a p)
        (rw (settle-settled a p) (kept (on_chain a)))
    where
      kept : (o : Option ℤ) → HasUniqueKeys (settled a o p.corrections)
      kept none = u
      kept (some score) = elim (Bool-cases (is_corrected a)) [
        | inl yes_it_is ↦ rw yes_it_is (map_set-HasUniqueKeys a score p.corrections u)
        | inr not_so ↦ rw not_so u
      ]

  pub compare_scores-get :
      (user : Text) (borrowers : List Text)
      → 0 < s.batch_size
      → map_get user (compare_scores s on_chain table borrowers).corrections
        ≡ (if any (text_eq user) borrowers && is_corrected user then on_chain user else none)
  unfolding map_get
  compare_scores-get user borrowers sized =
      ap (λ p. map_get user p.corrections) (compare_scores-eq-settle_batch borrowers sized)
      ∙ settle_batch-get user borrowers no_progress
