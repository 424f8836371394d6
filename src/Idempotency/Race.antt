-- ===== src/Idempotency/Race.antt =====
-- The window in which a recorded outcome does not answer a request.
use mathlib.Core.List.{Memᴰ}
use ziza_lend.Common.{
  ℕ, ◌+◌, ◌*◌, ◌≡◌, refl, true, false, some, List, [], ◌∷◌, arith, text_eq, text_eq_iff,
  text_eq_refl,
}
use ziza_lend.Common.Map.{map_get, map_set, map_delete}
use ziza_lend.KvStore.{expiry_from, is_expired, live, get as kv_get, set as kv_set, set_nx, del}
use ziza_lend.KvStore.Spec.{fresh}
use ziza_lend.Cache.{get, set, read_match, set_not_exists}
use ziza_lend.Idempotency.{
  Operation, Phase, Event, World, step, run, lookup, take_claim, is_recorded, record_outcome,
  lock_key, idempotency_ttl,
}
use ziza_lend.Idempotency.Invariant.{lock_key-ne-cache_key, stored_value-encode}
use ziza_lend.Idempotency.Recorded.{SeenUntil}

-- Two requests of which the second looks up before the first is done, and claims after that.
abbrev pub race : {Body : Type 0} → ℕ → Body → List (Event Body)
race status body =
    Event.look_up 0 true
    ∷ Event.look_up 1 true
    ∷ Event.claim 0 true
    ∷ Event.finish 0 true status (some body)
    ∷ Event.release_read 0 true
    ∷ Event.release_delete 0 true
    ∷ Event.claim 1 true
    ∷ []

abbrev pub new_world : {Body : Type 0} → ℕ → World Body
new_world now = record { now = now; entries = []; phase = λ i. Phase.start }

module _ {Body : Type 0} (op : Operation Body) where
  open op use {responses, claims, cache_key, claim_of}

  -- The outcome is looked up before the claim is taken. So a request that looked it up too early takes
  -- the claim that the first one released, and runs although the outcome is recorded by then.
  pub race_runs_twice :
      (now status : ℕ) (body : Body)
      → is_recorded op status (some body) ≡ true
      → let w = run op (race status body) (new_world now) in
        (w.phase 0 ≡ Phase.settled false (some now))
        × (w.phase 1 ≡ Phase.running (some now))
        × SeenUntil op
            (record { status = status; body = body } ∷ [])
            (now + idempotency_ttl * 1000)
            now
            w.entries
  unfolding run step lookup take_claim record_outcome get set read_match set_not_exists set_nx
      kv_get kv_set live del map_get map_set map_delete expiry_from is_expired
  race_runs_twice now status body kept =
      let own = stored_value-encode op (claim_of 0) in
      let same = text_eq_refl (claim_of 0) in
      let here = text_eq_refl (lock_key op) in
      let apart : text_eq (lock_key op) cache_key ≡ false =
        ground (arith, text_eq_iff (lock_key op) cache_key, lock_key-ne-cache_key op) in
      let apart' : text_eq cache_key (lock_key op) ≡ false =
        ground (arith, text_eq_iff cache_key (lock_key op), lock_key-ne-cache_key op) in
      (
        ground (arith, own, same, here, apart, apart'),
        ground (arith, own, same, here, apart, apart'),
        (
          record { status = status; body = body },
          (Memᴰ.head refl, kept),
          λ later a b. (
            fresh now (responses.encode (record { status = status; body = body })) idempotency_ttl,
            ground (arith, own, same, here, text_eq_refl cache_key, apart, apart'),
            refl,
          ),
        ),
      )
