-- ===== src/RateLimit/Bound.antt =====
-- How many requests one window lets through.
use ziza_lend.Common.{
  ℕ, suc, ◌+◌, ◌-◌, ◌*◌, ◌≤◌, ◌<◌, min, ◌≡◌, ◌∙◌, none, some, List, [], ◌∷◌, arith, Text,
  text_eq_refl, if◌then◌else◌, leb, length,
}
use ziza_lend.Common.MapLaws.{HasUniqueKeys}
use ziza_lend.Common.Int.{pos, ◌+ℤ◌}
use ziza_lend.Common.Js.{int_text, parse_int-int_text}
use ziza_lend.KvStore.{MemoryEntry, Entries, expiry_from, is_expired, counter_of, expiry_of}
use ziza_lend.KvStore.Spec.{visible, view}
use ziza_lend.RateLimit.{
  RateLimitConfig, RateLimitResult, no_outage, rate_key, counted, check_rate_limit,
}
use ziza_lend.RateLimit.Window.{next_entry, check_rate_limit-Refines}

-- The requests of one caller, each at its time, and how many of them are allowed.
unfoldable pub allowed_count : Text → RateLimitConfig → List ℕ → Entries → ℕ
allowed_count identifier config [] m = 0
allowed_count identifier config (now ∷ times) m =
    let (result, m') = check_rate_limit no_outage now identifier config m in
    let rest = allowed_count identifier config times m' in if result.allowed then suc rest else rest

-- Times that do not go back and stay before the end of the window.
abbrev pub IsWithin : ℕ → ℕ → List ℕ → Type 0
IsWithin from until [] = Unit
IsWithin from until (t ∷ ts) = (from ≤ t) × (t < until) × IsWithin t until ts

abbrev pub window_entry : ℕ → ℕ → MemoryEntry
window_entry n until = record { value = int_text (pos n); expires_at = some until }

module _ (identifier : Text) (config : RateLimitConfig) where
  -- From a time on and until the end of the window, the store shows a count of n.
  abbrev pub InWindow : ℕ → ℕ → ℕ → Entries → Type 0
  InWindow from n until m =
      (later : ℕ)
      → from ≤ later
      → later < until
      → view later m (rate_key identifier) ≡ some (window_entry n until)

  next_of_window :
      (now n until : ℕ)
      → 1 ≤ n
      → next_entry now config (some (window_entry n until)) ≡ window_entry (n + 1) until
  unfolding counter_of expiry_of ◌+ℤ◌
  next_of_window now n until h = ground (arith, parse_int-int_text (pos n))

  count_of_window : (n until : ℕ) → counter_of (some (window_entry n until)) +ℤ pos 1 ≡ pos (n + 1)
  unfolding counter_of ◌+ℤ◌
  count_of_window n until = ground (arith, parse_int-int_text (pos n))

  window_entry-visible :
      (later n until : ℕ)
      → later < until
      → visible later (some (window_entry n until)) ≡ some (window_entry n until)
  unfolding is_expired
  window_entry-visible later n until h = ground arith

  module _ (now n until : ℕ) (m : Entries) (u : HasUniqueKeys m) (positive : 1 ≤ n)
      (before : now < until)
      (here : view now m (rate_key identifier) ≡ some (window_entry n until)) where
    abbrev after : RateLimitResult × Entries
    after = check_rate_limit no_outage now identifier config m

    check-allowed : after.0.allowed ≡ leb (n + 1) config.max_requests
    unfolding counted
    check-allowed = ground (
      arith,
      (check_rate_limit-Refines now identifier config m u).0,
      here,
      count_of_window n until,
    )

    check-InWindow : InWindow now (n + 1) until after.1
    check-InWindow later h k =
        (check_rate_limit-Refines now identifier config m u).1 later (rate_key identifier) h
        ∙ rw (text_eq_refl, here, next_of_window now n until positive)
            (window_entry-visible later (n + 1) until k)

    check-HasUniqueKeys : HasUniqueKeys after.1
    check-HasUniqueKeys = (check_rate_limit-Refines now identifier config m u).2

  -- In a window that has counted n requests, the next ones are allowed as long as the count stays
  -- within the limit, however many they are.
  allowed_count-InWindow :
      (from n until : ℕ) (times : List ℕ) (m : Entries)
      → HasUniqueKeys m
      → 1 ≤ n
      → IsWithin from until times
      → InWindow from n until m
      → allowed_count identifier config times m ≡ min (config.max_requests - n) (length times)
  unfolding allowed_count
  allowed_count-InWindow from n until [] m u p w i = omega arith
  allowed_count-InWindow from n until (now ∷ times) m u p w i =
      let here = i now w.0 w.1 in
      ground (
        arith,
        check-allowed now n until m u p w.1 here,
        allowed_count-InWindow now (n + 1) until times
            (check_rate_limit no_outage now identifier config m).1
            (check-HasUniqueKeys now n until m u p w.1 here) (omega arith) w.2
            (check-InWindow now n until m u p w.1 here),
      )

  module _ (now : ℕ) (m : Entries) (u : HasUniqueKeys m) (long : 0 < config.window_seconds)
      (here : view now m (rate_key identifier) ≡ none) where
    abbrev first : RateLimitResult × Entries
    first = check_rate_limit no_outage now identifier config m

    abbrev end : ℕ
    end = now + config.window_seconds * 1000

    next_of_none : next_entry now config none ≡ window_entry 1 end
    unfolding counter_of expiry_of ◌+ℤ◌ expiry_from
    next_of_none = ground arith

    first-allowed : first.0.allowed ≡ leb 1 config.max_requests
    unfolding counted counter_of ◌+ℤ◌
    first-allowed = ground (arith, (check_rate_limit-Refines now identifier config m u).0, here)

    first-InWindow : InWindow now 1 end first.1
    first-InWindow later h k =
        (check_rate_limit-Refines now identifier config m u).1 later (rate_key identifier) h
        ∙ rw (text_eq_refl, here, next_of_none) (window_entry-visible later 1 end k)

-- Of the requests that a caller makes in one window of a positive length, beginning with the one that
-- opens it, at times that do not go back and with a store that answers, exactly the first `max_requests`
-- are allowed.
pub allowed_count-window :
    (identifier : Text) (config : RateLimitConfig) (now : ℕ) (times : List ℕ) (m : Entries)
    → HasUniqueKeys m
    → 0 < config.window_seconds
    → view now m (rate_key identifier) ≡ none
    → IsWithin now (now + config.window_seconds * 1000) times
    → allowed_count identifier config (now ∷ times) m ≡ min config.max_requests (suc (length times))
unfolding allowed_count
allowed_count-window identifier config now times m u long here w =
    let m' = (check_rate_limit no_outage now identifier config m).1 in
    let end = now + config.window_seconds * 1000 in
    ground (
      arith,
      first-allowed identifier config now m u long here,
      allowed_count-InWindow identifier config now 1 end times m'
          (check_rate_limit-Refines now identifier config m u).2 (omega arith) w
          (first-InWindow identifier config now m u long here),
    )
