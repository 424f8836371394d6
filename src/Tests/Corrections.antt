-- ===== src/Tests/Corrections.antt =====
-- The reconciliation of scores at concrete inputs.
use ziza_lend.Common.{
  ◌+◌, ◌≤◌, ◌≡◌, refl, true, ◌&&◌, Option, none, some, List, [], ◌∷◌, Text, text_eq, codes, any,
  length, if◌then◌else◌, arith,
}
use ziza_lend.Common.Int.{ℤ, pos}
use ziza_lend.Common.Map.{map_get}
use ziza_lend.Scores.{Scores}
use ziza_lend.ScoreReconciliation.{EventRow, Settings, compare_scores, reconcile, active_borrowers}
use ziza_lend.ScoreReconciliation.Settled.{is_corrected}
use ziza_lend.ScoreReconciliation.Counts.{compare_scores-counts}
use ziza_lend.ScoreReconciliation.Correct.{reconcile-table}
use ziza_lend.ScoreReconciliation.Again.{corrected_table, reconcile_again}

abbrev settings : Settings
settings = record { batch_size = 2; auto_correct_enabled = true; auto_correct_threshold = 50 }

abbrev scores : Scores
scores = (codes "GA", pos 600) ∷ (codes "GB", pos 500) ∷ []

-- The contract does not answer for GC.
abbrev contract : Text → Option ℤ
contract user =
    if text_eq user (codes "GA")
    then some (pos 500)
    else if text_eq user (codes "GB")
    then some (pos 520)
    else none

abbrev borrowers : List Text
borrowers = codes "GA" ∷ codes "GB" ∷ codes "GC" ∷ []

compare_scores-counts_example :
    ((compare_scores settings contract scores borrowers).checked
        + (compare_scores settings contract scores borrowers).failed
      ≡ 3)
    × (length (compare_scores settings contract scores borrowers).divergences
        ≤ (compare_scores settings contract scores borrowers).checked)
compare_scores-counts_example =
    compare_scores-counts settings contract scores borrowers (omega arith)

reconcile-table_example :
    map_get (codes "GA") (reconcile settings contract scores true true borrowers []).1.table ≡ (
      if any (text_eq (codes "GA")) borrowers && is_corrected settings contract scores (codes "GA")
      then contract (codes "GA")
      else map_get (codes "GA") scores)
reconcile-table_example =
    reconcile-table settings contract scores true b'G' (codes "A") borrowers [] (omega arith)

reconcile_again_example :
    map_get
      (codes "GA")
      (compare_scores settings contract
        (corrected_table settings contract scores true borrowers [])
        borrowers).corrections
    ≡ none
reconcile_again_example =
    reconcile_again settings contract scores true borrowers [] b'G' (codes "A") (omega arith)

-- Loan 1 was repaid, and the approval of loan 2 stands.
abbrev events : List EventRow
events =
    record { event_type = codes "LoanApproved"; loan_id = some 1; address = some (codes "GA") }
    ∷ record { event_type = codes "LoanRepaid"; loan_id = some 1; address = some (codes "GA") }
    ∷ record { event_type = codes "LoanApproved"; loan_id = some 2; address = some (codes "GB") }
    ∷ []

only_gb : active_borrowers length 10 events ≡ codes "GB" ∷ []
unfolding active_borrowers text_eq
only_gb = refl
