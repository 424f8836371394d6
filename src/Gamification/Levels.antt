-- ===== src/Gamification/Levels.antt =====
-- Levels, titles and what the store keeps true.
use ziza_lend.Common.{
  ℕ, ◌+◌, ◌<◌, max, ◌≡◌, refl, inl, inr, true, some, is_some, Text, arith, Bool-cases, Option-cases,
  ltb,
}
use ziza_lend.Gamification.{
  GamificationState, Action, LevelUpReward, find_level, level_thresholds, get_kingdom_title,
  calculate_level, last_reached, check_level_up, add_xp, perform, initial_state,
  get_next_level_info, awarded,
}

-- The title is the level's, and the dialog is shown exactly while a reward is pending.
pub record IsConsistent (s : GamificationState) : Type 0 where
  pub titled : s.kingdom_title ≡ get_kingdom_title s.level
  pub shown : s.show_level_up_modal ≡ is_some s.pending_level_up

title_found :
    (level : ℕ) (t : LevelUpReward)
    → find_level level level_thresholds ≡ some t
    → t.title ≡ get_kingdom_title level
unfolding get_kingdom_title
title_found level t h = rw (get_kingdom_title, h) refl

check_level_up-IsConsistent :
    (s : GamificationState) → IsConsistent s → IsConsistent (check_level_up s)
unfolding check_level_up
check_level_up-IsConsistent s c = elim (Bool-cases (ltb s.level (calculate_level s.xp))) [
  | inr e ↦ rw (check_level_up, e) c
  | inl e ↦ elim (Option-cases (find_level (calculate_level s.xp) level_thresholds)) [
    | inl f ↦ rw (check_level_up, e, f) c
    | inr (t, f) ↦
        rw (check_level_up, e, f)
          (record { titled = title_found (calculate_level s.xp) t f; shown = refl })
  ]
]

-- Every action keeps the title that of the level, and the dialog shown exactly while a reward is
-- pending.
pub perform-IsConsistent :
    (now : ℕ) (action : Action) (s : GamificationState)
    → IsConsistent s
    → IsConsistent (perform now action s)
unfolding perform add_xp awarded get_kingdom_title initial_state
perform-IsConsistent now (Action.gain_xp amount reason) s c =
    check_level_up-IsConsistent (awarded now amount reason s)
      (record { titled = c.titled; shown = c.shown })
perform-IsConsistent now Action.shift_xp_gain s c = record { titled = c.titled; shown = c.shown }
perform-IsConsistent now Action.level_up_seen s c = record { titled = c.titled; shown = refl }
perform-IsConsistent now Action.toggle_sound s c = record { titled = c.titled; shown = c.shown }
perform-IsConsistent now Action.toggle_animations s c = record {
  titled = c.titled;
  shown = c.shown;
}
perform-IsConsistent now Action.reset s c = record { titled = refl; shown = refl }
perform-IsConsistent now Action.check s c = check_level_up-IsConsistent s c
perform-IsConsistent now (Action.set_level level) s c = record { titled = refl; shown = c.shown }
perform-IsConsistent now (Action.unlock_achievement id) s c = record {
  titled = c.titled;
  shown = c.shown;
}
perform-IsConsistent now (Action.update_achievement_progress id progress) s c = record {
  titled = c.titled;
  shown = c.shown;
}
perform-IsConsistent now (Action.set_sound_volume volume) s c = record {
  titled = c.titled;
  shown = c.shown;
}

-- Below the top level, the experience that is shown as missing is what brings exactly the next level:
-- with it the level is the next one, and with less it is the present one.
pub calculate_level-xp_to_next :
    (xp less : ℕ)
    → less < (get_next_level_info xp).xp_to_next
    → (calculate_level (xp + (get_next_level_info xp).xp_to_next)
        ≡ (get_next_level_info xp).next_level)
      × (calculate_level (xp + less) ≡ calculate_level xp)
unfolding get_next_level_info calculate_level find_level level_thresholds last_reached
calculate_level-xp_to_next xp less h = ground (arith, h)

calculate_level-found : (xp : ℕ) → is_some (find_level (calculate_level xp) level_thresholds) ≡ true
unfolding calculate_level find_level level_thresholds last_reached
calculate_level-found xp = ground arith

check_level_up-level :
    (s : GamificationState)
    → ((check_level_up s).xp ≡ s.xp)
      × ((check_level_up s).level ≡ max s.level (calculate_level s.xp))
unfolding check_level_up
check_level_up-level s = elim (Bool-cases (ltb s.level (calculate_level s.xp))) [
  | inr e ↦ rw (check_level_up, e) (refl, ground (arith, e))
  | inl e ↦ elim (Option-cases (find_level (calculate_level s.xp) level_thresholds)) [
    | inl f ↦ absurd (ground (arith, f, calculate_level-found s.xp))
    | inr (t, f) ↦ rw (check_level_up, e, f) (refl, ground (arith, e))
  ]
]

-- An award adds to the experience, and the level becomes the one that the experience reaches, or stays
-- where it is higher already.
pub add_xp-level :
    (now amount : ℕ) (reason : Text) (s : GamificationState)
    → ((add_xp now amount reason s).xp ≡ s.xp + amount)
      × ((add_xp now amount reason s).level ≡ max s.level (calculate_level (s.xp + amount)))
unfolding add_xp awarded
add_xp-level now amount reason s = check_level_up-level (awarded now amount reason s)
