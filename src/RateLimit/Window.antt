-- ===== src/RateLimit/Window.antt =====
-- The limiter against its contract over what the store shows, and the requests that one window lets
-- through.
use ziza_lend.Common.{
  ℕ, ◌≤◌, ◌≡◌, ◌∙◌, ap, some, Option, arith, Text, text_eq_refl, Bool-cases, inl, inr,
  if◌then◌else◌,
}
use ziza_lend.Common.Map.{map_get}
use ziza_lend.Common.MapLaws.{HasUniqueKeys}
use ziza_lend.Common.Int.{ℤ, pos, ◌+ℤ◌}
use ziza_lend.Common.Js.{int_text}
use ziza_lend.KvStore.{
  MemoryEntry, Entries, expiry_from, is_expired, incr, expire, ttl, counter_of, expiry_of,
  seconds_left,
}
use ziza_lend.KvStore.Spec.{visible, view, update, Command, run, spec}
use ziza_lend.KvStore.Refinement.{Shows, run-Refines, view_again}
use ziza_lend.KvStore.Facts.{view-incr, not_expired}
use ziza_lend.RateLimit.{
  RateLimitConfig, no_outage, rate_key, counted, is_one, start_window, check_rate_limit,
}

-- The entry that a check leaves, from the one that was seen.
abbrev pub next_entry : ℕ → RateLimitConfig → Option MemoryEntry → MemoryEntry
next_entry now config old =
    let count = counter_of old +ℤ pos 1 in
    record {
      value = int_text count;
      expires_at = if is_one count then expiry_from now config.window_seconds else expiry_of old;
    }

abbrev incr_entry : Option MemoryEntry → MemoryEntry
incr_entry old = record { value = int_text (counter_of old +ℤ pos 1); expires_at = expiry_of old }

module _ (now : ℕ) (k : Text) (m : Entries) (u : HasUniqueKeys m) where
  incr-count : (incr now k m).0 ≡ counter_of (view now m k) +ℤ pos 1
  unfolding run spec
  incr-count = ground (arith, (run-Refines now (Command.incr_key k) m u).0)

  incr-Shows :
      (later : ℕ)
      → now ≤ later
      → Shows later (incr now k m).1 (update (view now m) k (some (incr_entry (view now m k))))
  unfolding run spec
  incr-Shows = (run-Refines now (Command.incr_key k) m u).1

  incr-HasUniqueKeys : HasUniqueKeys (incr now k m).1
  unfolding run
  incr-HasUniqueKeys = (run-Refines now (Command.incr_key k) m u).2

module _ (now : ℕ) (k : Text) (config : RateLimitConfig) (m : Entries) (u : HasUniqueKeys m) where
  abbrev the_count : ℤ
  the_count = counter_of (view now m k) +ℤ pos 1

  abbrev started : Entries
  started = start_window now k config.window_seconds the_count (incr now k m).1

  expire-Shows :
      (later : ℕ) (j : Text)
      → now ≤ later
      → view later (expire now k config.window_seconds (incr now k m).1) j
        ≡ visible later (
            update
              (view now m)
              k
              (some (record (incr_entry (view now m k)) {
                expires_at = expiry_from now config.window_seconds;
              }))
              j)
  unfolding run spec
  expire-Shows later j h = ground (
    arith,
    (run-Refines now (Command.expire_key k config.window_seconds) (incr now k m).1
          (incr-HasUniqueKeys now k m u)).1
        later h j,
    view-incr now k m,
    view_again now later (incr now k m).1 j h,
    incr-Shows now k m u later h j,
  )

  started-Shows :
      (later : ℕ) (j : Text)
      → now ≤ later
      → view later started j
        ≡ visible later (update (view now m) k (some (next_entry now config (view now m k))) j)
  unfolding start_window
  started-Shows later j h = elim (Bool-cases (is_one the_count)) [
    | inl first ↦ rw first (expire-Shows later j h)
    | inr more ↦ rw more (incr-Shows now k m u later h j)
  ]

  started-HasUniqueKeys : HasUniqueKeys started
  unfolding start_window run
  started-HasUniqueKeys = ground (
    arith,
    incr-HasUniqueKeys now k m u,
    (run-Refines now (Command.expire_key k config.window_seconds) (incr now k m).1
        (incr-HasUniqueKeys now k m u)).2,
  )

  next_entry-alive :
      visible now (some (next_entry now config (view now m k)))
      ≡ some (next_entry now config (view now m k))
  unfolding is_expired expiry_from
  next_entry-alive = ground (arith, not_expired now (int_text the_count) (map_get k m))

  ttl-started :
      (ttl now k started).0 ≡ seconds_left now (some (next_entry now config (view now m k)))
  unfolding run spec
  ttl-started = ground (
    arith,
    (run-Refines now (Command.ttl_key k) started started-HasUniqueKeys).0,
    started-Shows now k (omega arith),
    text_eq_refl k,
    next_entry-alive,
  )

  ttl-Shows :
      (later : ℕ) (j : Text)
      → now ≤ later
      → view later (ttl now k started).1 j
        ≡ visible later (update (view now m) k (some (next_entry now config (view now m k))) j)
  unfolding run spec
  ttl-Shows later j h =
      (run-Refines now (Command.ttl_key k) started started-HasUniqueKeys).1 later h j
      ∙ view_again now later started j h
      ∙ started-Shows later j h

  ttl-HasUniqueKeys : HasUniqueKeys (ttl now k started).1
  unfolding run
  ttl-HasUniqueKeys = (run-Refines now (Command.ttl_key k) started started-HasUniqueKeys).2

-- What one check does, over what the store shows: the count goes up by one, the first of a window
-- fixes when it ends, and no other key is touched.
pub check_rate_limit-Refines :
    (now : ℕ) (identifier : Text) (config : RateLimitConfig) (m : Entries)
    → HasUniqueKeys m
    → let k = rate_key identifier in
      let next = next_entry now config (view now m k) in
      let (result, m') = check_rate_limit no_outage now identifier config m in
      (result
        ≡ counted now config (counter_of (view now m k) +ℤ pos 1) (seconds_left now (some next)))
      × ((later : ℕ) (j : Text)
          → now ≤ later
          → view later m' j ≡ visible later (update (view now m) k (some next) j))
      × HasUniqueKeys m'
unfolding check_rate_limit
check_rate_limit-Refines now identifier config m u =
    let k = rate_key identifier in
    rw (incr-count now k m u) (
      ap (counted now config (counter_of (view now m k) +ℤ pos 1)) (ttl-started now k config m u),
      ttl-Shows now k config m u,
      ttl-HasUniqueKeys now k config m u,
    )
