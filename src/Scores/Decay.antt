-- ===== src/Scores/Decay.antt =====
-- What inactivity takes from a score.
use ziza_lend.Common.{
  ℕ, ◌*◌, ◌≡◌, refl, Option, none, some, if◌then◌else◌, Text, text_eq_refl, arith, Option-cases,
  inl, inr, is_some,
}
use ziza_lend.Common.Int.{ℤ, pos, negsuc, ◌+ℤ◌, ◌-ℤ◌, ◌≤ℤ◌}
use ziza_lend.Common.Map.{map_get}
use ziza_lend.Common.MapLaws.{map_get-map_set}
use ziza_lend.Scores.{Scores, apply_score_decay, decayed_score, months_inactive, set_existing}

decayed_score-between :
    (now : ℕ) (last : Option ℕ) (score : ℤ)
    → pos 300 ≤ℤ score
    → (pos 300 ≤ℤ decayed_score now last score)
      × (decayed_score now last score ≤ℤ score)
      × (score ≤ℤ (decayed_score now last score +ℤ pos (months_inactive now last * 5)))
unfolding decayed_score ◌+ℤ◌ ◌-ℤ◌
decayed_score-between now last (pos s) h = (ground arith, ground arith, ground arith)
decayed_score-between now last (negsuc s) h = (ground arith, ground arith, ground arith)

map_get-set_existing :
    (user : Text) (score : ℤ) (table : Scores)
    → map_get user (set_existing user score table)
      ≡ (if is_some (map_get user table) then some score else none)
unfolding set_existing
map_get-set_existing user score table = elim (Option-cases (map_get user table)) [
  | inl e ↦ rw (set_existing, e) e
  | inr (old, e) ↦
      rw (set_existing, e, map_get-map_set user user score table, text_eq_refl user) refl
]

-- Decay leaves a score of at least 300 at least 300, never raises it, takes at most five points for each
-- month of inactivity, and writes the score it returns to the borrower's row if there is one.
pub apply_score_decay-lowers :
    (now : ℕ) (borrower : Text) (score : ℤ) (last : Option ℕ) (table : Scores)
    → pos 300 ≤ℤ score
    → (pos 300 ≤ℤ (apply_score_decay now borrower score last table).0)
      × ((apply_score_decay now borrower score last table).0 ≤ℤ score)
      × (score ≤ℤ (
          (apply_score_decay now borrower score last table).0
          +ℤ pos (months_inactive now last * 5)))
      × (map_get borrower (apply_score_decay now borrower score last table).1 ≡ (
          if is_some (map_get borrower table)
          then some (apply_score_decay now borrower score last table).0
          else none))
unfolding apply_score_decay
apply_score_decay-lowers now borrower score last table h =
    let (floor, below, above) = decayed_score-between now last score h in
    (floor, below, above, map_get-set_existing borrower (decayed_score now last score) table)
