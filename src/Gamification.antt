-- ===== src/Gamification.antt =====
-- frontend/src/app/stores/useGamificationStore.ts. Awards of experience are natural numbers, and the
-- volume is in hundredths.
pub mod Levels
pub mod Queue
use ziza_lend.Common.{
  ℕ, zero, suc, ◌+◌, ◌-◌, ◌*◌, ◌/◌, min, max, Bool, true, false, not, Option, none, some, List, [],
  ◌∷◌, ◌++◌, map, any, drop, if◌then◌else◌, leb, ltb, ◌==◌, Text, text_eq, codes,
}

pub data KingdomLevel : Type 0 where
  peasant merchant knight baron duke prince king : KingdomLevel

-- The texts of the rewards decide nothing and are left out.
pub record LevelUpReward : Type 0 where
  pub level : ℕ
  pub title : KingdomLevel
  pub xp_required : ℕ

abbrev threshold : ℕ → KingdomLevel → ℕ → LevelUpReward
threshold level title xp_required = record {
  level = level;
  title = title;
  xp_required = xp_required;
}

unfoldable pub level_thresholds : List LevelUpReward
level_thresholds =
    threshold 1 peasant 0
    ∷ threshold 2 merchant 100
    ∷ threshold 3 knight 300
    ∷ threshold 4 baron 600
    ∷ threshold 5 duke 1000
    ∷ threshold 6 prince 1500
    ∷ threshold 7 king 2500
    ∷ []

-- `LEVEL_THRESHOLDS.find((t) => t.level === level)`.
unfoldable pub find_level : ℕ → List LevelUpReward → Option LevelUpReward
find_level level [] = none
find_level level (t ∷ ts) =
    let rest = find_level level ts in if t.level == level then some t else rest

unfoldable pub get_kingdom_title : ℕ → KingdomLevel
unfolding find_level level_thresholds
get_kingdom_title level = elim (find_level level level_thresholds) [
  | none ↦ peasant
  | some t ↦ t.title
]

-- The loop from the last threshold down: the last one that is reached, or the level of none.
unfoldable pub last_reached : ℕ → ℕ → List LevelUpReward → ℕ
last_reached xp otherwise [] = otherwise
last_reached xp otherwise (t ∷ ts) =
    last_reached xp (if leb t.xp_required xp then t.level else otherwise) ts

unfoldable pub calculate_level : ℕ → ℕ
unfolding last_reached level_thresholds
calculate_level xp = last_reached xp 1 level_thresholds

pub record Achievement : Type 0 where
  pub id : Text
  pub unlocked_at : Option ℕ
  pub progress : ℕ
  pub max_progress : ℕ

pub record XpGain : Type 0 where
  pub amount : ℕ
  pub reason : Text
  pub id : ℕ

pub record GamificationState : Type 0 where
  pub level : ℕ
  pub xp : ℕ
  pub kingdom_title : KingdomLevel
  pub achievements : List Achievement
  pub sound_enabled : Bool
  pub animations_enabled : Bool
  pub sound_volume : ℕ
  pub show_level_up_modal : Bool
  pub pending_level_up : Option LevelUpReward
  pub xp_gain_queue : List XpGain

abbrev locked : Text → ℕ → Achievement
locked id most = record { id = id; unlocked_at = none; progress = 0; max_progress = most }

unfoldable pub initial_state : GamificationState
initial_state = record {
  level = 1;
  xp = 0;
  kingdom_title = peasant;
  achievements =
      locked (codes "first_loan") 1
      ∷ locked (codes "first_repayment") 1
      ∷ locked (codes "perfect_score") 800
      ∷ locked (codes "five_loans") 5
      ∷ locked (codes "early_bird") 1
      ∷ locked (codes "streak_master") 10
      ∷ [];
  sound_enabled = true;
  animations_enabled = true;
  sound_volume = 50;
  show_level_up_modal = false;
  pending_level_up = none;
  xp_gain_queue = [];
}

-- An award with the time of one that is queued is not queued.
unfoldable pub queue_gain : XpGain → List XpGain → List XpGain
queue_gain gain queue =
    if any (λ item. item.id == gain.id) queue then queue else queue ++ (gain ∷ [])

unfoldable pub check_level_up : GamificationState → GamificationState
unfolding calculate_level find_level level_thresholds
check_level_up s =
    if ltb s.level (calculate_level s.xp)
    then elim (find_level (calculate_level s.xp) level_thresholds) [
      | none ↦ s
      | some reward ↦ record s {
        level = calculate_level s.xp;
        kingdom_title = reward.title;
        show_level_up_modal = true;
        pending_level_up = some reward;
      }
    ]
    else s

-- The `set` of `addXP`.
unfoldable pub awarded : ℕ → ℕ → Text → GamificationState → GamificationState
unfolding queue_gain
awarded now amount reason s = record s {
  xp = s.xp + amount;
  xp_gain_queue =
      queue_gain (record { amount = amount; reason = reason; id = now }) s.xp_gain_queue;
}

unfoldable pub add_xp : ℕ → ℕ → Text → GamificationState → GamificationState
unfolding awarded check_level_up
add_xp now amount reason s = check_level_up (awarded now amount reason s)

unfoldable pub unlock : ℕ → Achievement → Achievement
unlock now a = record a { unlocked_at = some now; progress = a.max_progress }

-- `a.maxProgress || progress` and `a.maxProgress || 1`.
unfoldable pub progressed : ℕ → ℕ → Achievement → Achievement
progressed now progress a =
    let new_progress = min progress (if a.max_progress == 0 then progress else a.max_progress) in
    let is_unlocked = leb (if a.max_progress == 0 then 1 else a.max_progress) new_progress in
    record a {
      progress = new_progress;
      unlocked_at = elim a.unlocked_at [
        | some t ↦ some t
        | none ↦ if is_unlocked then some now else none
      ];
    }

unfoldable pub on_achievement :
    Text → (Achievement → Achievement) → List Achievement → List Achievement
on_achievement id f achievements = map (λ a. if text_eq a.id id then f a else a) achievements

pub data Action : Type 0 where
  gain_xp : ℕ → Text → Action
  shift_xp_gain level_up_seen toggle_sound toggle_animations reset check : Action
  set_level : ℕ → Action
  unlock_achievement : Text → Action
  update_achievement_progress : Text → ℕ → Action
  set_sound_volume : ℕ → Action

unfoldable pub perform : ℕ → Action → GamificationState → GamificationState
unfolding add_xp check_level_up get_kingdom_title on_achievement unlock progressed initial_state
perform now (gain_xp amount reason) s = add_xp now amount reason s
perform now shift_xp_gain s = record s { xp_gain_queue = drop 1 s.xp_gain_queue }
perform now level_up_seen s = record s { show_level_up_modal = false; pending_level_up = none }
perform now toggle_sound s = record s { sound_enabled = not s.sound_enabled }
perform now toggle_animations s = record s { animations_enabled = not s.animations_enabled }
perform now reset s = initial_state
perform now check s = check_level_up s
perform now (set_level level) s = record s {
  level = level;
  kingdom_title = get_kingdom_title level;
}
perform now (unlock_achievement id) s = record s {
  achievements = on_achievement id (unlock now) s.achievements;
}
perform now (update_achievement_progress id progress) s = record s {
  achievements = on_achievement id (progressed now progress) s.achievements;
}
perform now (set_sound_volume volume) s = record s { sound_volume = min 100 volume }

pub record NextLevelInfo : Type 0 where
  pub current_level : ℕ
  pub next_level : ℕ
  pub xp_to_next : ℕ

-- The required experience of a threshold, 0 where there is none.
abbrev required : Option LevelUpReward → ℕ
required none = 0
required (some t) = t.xp_required

-- `getNextLevelInfo` without the percentage.
unfoldable pub get_next_level_info : ℕ → NextLevelInfo
unfolding calculate_level find_level level_thresholds
get_next_level_info current_xp =
    let current_level = calculate_level current_xp in
    elim (find_level (current_level + 1) level_thresholds) [
      | none ↦ record { current_level = current_level; next_level = current_level; xp_to_next = 0 }
      | some next ↦ record {
        current_level = current_level;
        next_level = next.level;
        xp_to_next = next.xp_required - current_xp;
      }
    ]
