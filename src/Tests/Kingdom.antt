-- ===== src/Tests/Kingdom.antt =====
-- The kingdom store at concrete states.
use ziza_lend.Common.{◌≡◌, refl, codes, text_eq}
use ziza_lend.Gamification.{
  knight, find_level, level_thresholds, get_kingdom_title, last_reached, calculate_level,
  initial_state, queue_gain, awarded, check_level_up, add_xp, perform, get_next_level_info,
}
use ziza_lend.Gamification.Levels.{IsConsistent}

kingdom : Unit {0}
unfolding find_level level_thresholds get_kingdom_title last_reached calculate_level initial_state
    queue_gain awarded check_level_up add_xp perform get_next_level_info text_eq
kingdom = tt

two_levels_at_once : (add_xp 7 350 (codes "repaid") initial_state).kingdom_title ≡ knight
unfolding kingdom
two_levels_at_once = refl

initial_state-IsConsistent : IsConsistent initial_state
unfolding kingdom
initial_state-IsConsistent = record { titled = refl; shown = refl }
