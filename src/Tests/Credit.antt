-- ===== src/Tests/Credit.antt =====
-- Scores at concrete inputs.
use ziza_lend.Common.{◌≡◌, refl, none, some, [], ◌∷◌, codes, text_eq, true}
use ziza_lend.Common.Int.{ℤ, pos, negsuc, ◌+ℤ◌, ◌-ℤ◌}
use ziza_lend.Common.Map.{Map, map_get, map_set}
use ziza_lend.Scores.{
  Scores, clamp, proposed, new_score, with_user, upsert, update_user_scores_bulk, score_key,
  breakdown_key,
}
use ziza_lend.Scores.Bounds.{InBand, updated, update_user_scores_bulk-table, new_score-InBand}
use ziza_lend.Scores.Cached.{update_user_scores_bulk-cache}
use ziza_lend.KvStore.{set as kv_set}

abbrev table : Scores
table = (codes "GA", pos 840) ∷ (codes "GB", pos 600) ∷ []

abbrev updates : Map ℤ
updates = (codes "GA", pos 15) ∷ ([], pos 15) ∷ (codes "GC", negsuc 49) ∷ []

batch :
    (update_user_scores_bulk true true updates table []).table
    ≡ (codes "GA", pos 850) ∷ (codes "GB", pos 600) ∷ (codes "GC", pos 450) ∷ []
unfolding update_user_scores_bulk with_user upsert new_score proposed clamp map_get map_set text_eq
    ◌+ℤ◌ ◌-ℤ◌
batch = refl

update_user_scores_bulk-table_example :
    map_get (codes "GA") (update_user_scores_bulk true true updates table []).table
    ≡ updated (map_get (codes "GA") updates) (map_get (codes "GA") table)
unfolding map_get text_eq
update_user_scores_bulk-table_example =
    update_user_scores_bulk-table true b'G' (codes "A") updates table [] (refl, (refl, (refl, tt)))

update_user_scores_bulk-cache_example :
    (map_get
        (score_key (codes "GA"))
        (update_user_scores_bulk true true updates table
          (kv_set 0 (score_key (codes "GA")) (codes "840") 300 [])).cache
      ≡ none)
    × (map_get
          (breakdown_key (codes "GA"))
          (update_user_scores_bulk true true updates table
            (kv_set 0 (score_key (codes "GA")) (codes "840") 300 [])).cache
        ≡ none)
unfolding map_get text_eq
update_user_scores_bulk-cache_example =
    update_user_scores_bulk-cache b'G' (codes "A") (pos 15) updates table
      (kv_set 0 (score_key (codes "GA")) (codes "840") 300 []) refl

new_score-InBand_example : InBand (new_score (some (pos 840)) (pos 15))
new_score-InBand_example = new_score-InBand (some (pos 840)) (pos 15)

five_defaults : new_score (some (pos 800)) (negsuc 249) ≡ pos 600
unfolding new_score proposed clamp ◌+ℤ◌ ◌-ℤ◌
five_defaults = refl
