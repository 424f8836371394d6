-- ===== src/Gamification/Queue.antt =====
-- The queue of awards that wait to be shown.
use ziza_lend.Common.{
  ℕ, ◌≡◌, refl, ◌∙◌, ap, inl, inr, true, List, [], ◌∷◌, ◌++◌, any, Text, arith, Bool-cases,
  Option-cases, ltb, ◌==◌,
}
use ziza_lend.Gamification.{
  GamificationState, XpGain, queue_gain, awarded, check_level_up, add_xp, find_level,
  level_thresholds, calculate_level,
}

any-append :
    (now : ℕ) (queue : List XpGain) (g : XpGain)
    → g.id ≡ now
    → any (λ item. item.id == now) (queue ++ (g ∷ [])) ≡ true
any-append now [] g h = ground (arith, h)
any-append now (x ∷ queue) g h = ground (arith, any-append now queue g h)

queue_gain-holds :
    (gain : XpGain) (queue : List XpGain)
    → any (λ item. item.id == gain.id) (queue_gain gain queue) ≡ true
unfolding queue_gain
queue_gain-holds gain queue = elim (Bool-cases (any (λ item. item.id == gain.id) queue)) [
  | inl e ↦ rw (queue_gain, e) e
  | inr e ↦ rw (queue_gain, e) (any-append gain.id queue gain refl)
]

check_level_up-queue : (s : GamificationState) → (check_level_up s).xp_gain_queue ≡ s.xp_gain_queue
unfolding check_level_up
check_level_up-queue s = elim (Bool-cases (ltb s.level (calculate_level s.xp))) [
  | inr e ↦ rw (check_level_up, e) refl
  | inl e ↦ elim (Option-cases (find_level (calculate_level s.xp) level_thresholds)) [
    | inl f ↦ rw (check_level_up, e, f) refl
    | inr (t, f) ↦ rw (check_level_up, e, f) refl
  ]
]

-- A second award in the same millisecond is never queued.
pub add_xp-drops_second :
    (now first second : ℕ) (reason reason' : Text) (s : GamificationState)
    → (add_xp now second reason' (add_xp now first reason s)).xp_gain_queue
      ≡ (add_xp now first reason s).xp_gain_queue
unfolding add_xp awarded
add_xp-drops_second now first second reason reason' s =
    let gain : XpGain = record { amount = first; reason = reason; id = now } in
    let queued = check_level_up-queue (awarded now first reason s) in
    let there : any (λ item. item.id == now) (add_xp now first reason s).xp_gain_queue ≡ true =
      ap (any (λ item. item.id == now)) queued ∙ queue_gain-holds gain s.xp_gain_queue in
    check_level_up-queue (awarded now second reason' (add_xp now first reason s))
    ∙ rw (queue_gain, there) refl
