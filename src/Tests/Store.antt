-- ===== src/Tests/Store.antt =====
-- The key-value store, the cache and the limiter at concrete inputs.
use ziza_lend.Common.{
  ℕ, ◌≡◌, refl, none, some, List, [], ◌∷◌, arith, codes, text_eq, true, false, min, suc, length,
}
use ziza_lend.Common.Int.{pos, ◌+ℤ◌, ◌-ℤ◌}
use ziza_lend.Common.Js.{parse_int, int_text}
use ziza_lend.Common.Map.{map_get, map_set, map_delete}
use ziza_lend.KvStore.{
  live, sweep, get, set, set_nx, del, keys_from, keys, counter_of, expiry_of, incr, expire,
  seconds_left, ttl, close, expiry_from, is_expired,
}
use ziza_lend.KvStore.Glob.{glob_match}
use ziza_lend.KvStore.Driver.{Env}
use ziza_lend.KvStore.Spec.{Command, Reply, run, spec}
use ziza_lend.KvStore.Facts.{run_all, spec_all, run_all-refines}
use ziza_lend.RateLimit.{
  RateLimitConfig, rate_key, start_window, counted, fail_open, check_rate_limit,
}
use ziza_lend.RateLimit.Bound.{allowed_count, allowed_count-window}

store : Unit {0}
unfolding map_get map_set map_delete live sweep get set set_nx del keys_from keys counter_of
    expiry_of incr expire seconds_left ttl close expiry_from is_expired glob_match parse_int
    int_text run run_all spec spec_all ◌+ℤ◌ ◌-ℤ◌ rate_key start_window counted fail_open
    check_rate_limit allowed_count text_eq
store = tt

abbrev no_settings : Env
no_settings = record { cache_driver = none; redis_url = none }

abbrev history : List (ℕ × Command)
history =
    (0, Command.set_key (codes "a") (codes "7") 1)
    ∷ (10, Command.incr_key (codes "a"))
    ∷ (20, Command.set_nx_key (codes "a") (codes "x") 5)
    ∷ (500, Command.ttl_key (codes "a"))
    ∷ (999, Command.get_key (codes "a"))
    ∷ (1000, Command.get_key (codes "a"))
    ∷ (1000, Command.set_nx_key (codes "a") (codes "x") 5)
    ∷ []

history-replies :
    run_all history []
    ≡ Reply.done
      ∷ Reply.number (pos 8)
      ∷ Reply.flag false
      ∷ Reply.number (pos 1)
      ∷ Reply.found (some (codes "8"))
      ∷ Reply.found none
      ∷ Reply.flag true
      ∷ []
unfolding store
history-replies = refl

run_all-refines_example : run_all history [] ≡ spec_all history (λ k. none)
run_all-refines_example = run_all-refines history (omega arith)

keys-loans :
    (keys 0 (codes "loans:*") (set 0 (codes "loans:1") [] 0 (set 0 (codes "score:1") [] 0 []))).0
    ≡ codes "loans:1" ∷ []
unfolding store
keys-loans = refl

abbrev score_update : RateLimitConfig
score_update = record { max_requests = 5; window_seconds = 86400 }

allowed_count-window_example :
    allowed_count (codes "u1") score_update (0 ∷ 1 ∷ 2 ∷ 3 ∷ 4 ∷ 5 ∷ 86399999 ∷ []) []
    ≡ min 5 (suc (length {A = ℕ} (1 ∷ 2 ∷ 3 ∷ 4 ∷ 5 ∷ 86399999 ∷ [])))
unfolding map_get
allowed_count-window_example =
    allowed_count-window (codes "u1") score_update 0 (1 ∷ 2 ∷ 3 ∷ 4 ∷ 5 ∷ 86399999 ∷ []) [] tt
      (omega arith) refl (omega arith)

seven_checks :
    allowed_count (codes "u1") score_update (0 ∷ 1 ∷ 2 ∷ 3 ∷ 4 ∷ 5 ∷ 86399999 ∷ []) [] ≡ 5
unfolding store
seven_checks = refl
