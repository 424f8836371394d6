-- ===== src/Idempotency/Claims.antt =====
-- What the segments of the middleware leave of the entries that a reader of the store can see.
use ziza_lend.Common.{
  ℕ, ◌≤◌, ◌≡◌, ◌≢◌, ◌⊎◌, inl, inr, refl, Bool, true, false, Option, none, some, [], ◌∷◌, arith,
  Text, text_eq_iff, Option-cases,
}
use ziza_lend.Common.MapLaws.{map_get-map_set, map_get-map_delete}
use ziza_lend.KvStore.{MemoryEntry, Entries, live, get as kv_get, set as kv_set, set_nx, del}
use ziza_lend.KvStore.Spec.{visible, view, update, fresh}
use ziza_lend.KvStore.Refinement.{live-view, view-live, live-Shows, map_set-Shows}
use ziza_lend.Cache.{get, set, set_not_exists, read_match}
use ziza_lend.Idempotency.{
  Operation, Phase, lookup, take_claim, check_held, record_outcome, lock_key, in_flight_ttl,
  idempotency_ttl,
}

-- Reading changes nothing that is seen.
view-get :
    (now later : ℕ) (k j : Text) (m : Entries)
    → now ≤ later
    → view later (kv_get now k m).1 j ≡ view later m j
unfolding kv_get
view-get now later k j m h = view-live now later k j m h

-- `setNX` writes exactly where nothing is seen.
view-set_nx :
    (now later : ℕ) (k j v : Text) (ttl : ℕ) (m : Entries)
    → now ≤ later
    → ((set_nx now k v ttl m).0 ≡ true)
        × (view now m k ≡ none)
        × (view later (set_nx now k v ttl m).1 j
            ≡ visible later (update (view now m) k (some (fresh now v ttl)) j))
      ⊎ ((set_nx now k v ttl m).0 ≡ false)
        × (view later (set_nx now k v ttl m).1 j ≡ view later m j)
unfolding set_nx kv_set
view-set_nx now later k j v ttl m h =
    let seen : (live now k m).0 ≡ view now m k = live-view now k m in
    elim (Option-cases (view now m k)) [
      | inl free ↦ inl (
        ground arith,
        free,
        ground (
          arith,
          map_set-Shows later k (fresh now v ttl) (live now k m).1 (view now m)
              (live-Shows now later k m h) j,
        ),
      )
      | inr (e, held) ↦ inr (ground arith, ground (arith, view-live now later k j m h))
    ]

module _ {Body : Type 0} (op : Operation Body) where
  open op use {claims, responses, cache_key}

  pub view-lookup :
      (up : Bool) (now later : ℕ) (j : Text) (m : Entries)
      → now ≤ later
      → view later (lookup op up now m).1 j ≡ view later m j
  unfolding lookup get
  view-lookup up now later j m h = ground (arith, view-get now later cache_key j m h)

  pub view-check_held :
      (up : Bool) (now later : ℕ) (j : Text) (m : Entries)
      → now ≤ later
      → view later (check_held op up now m).1 j ≡ view later m j
  unfolding check_held get
  view-check_held up now later j m h = ground (arith, view-get now later (lock_key op) j m h)

  pub view-read_match :
      (up : Bool) (now later : ℕ) (uuid j : Text) (m : Entries)
      → now ≤ later
      → view later (read_match claims up now (lock_key op) uuid m).1 j ≡ view later m j
  unfolding read_match
  view-read_match up now later uuid j m h = ground (arith, view-get now later (lock_key op) j m h)

  abbrev pub claim_entry : ℕ → Text → MemoryEntry
  claim_entry now uuid = fresh now (claims.encode uuid) in_flight_ttl

  -- A claim is taken exactly where none is seen; otherwise nothing changes.
  pub view-take_claim :
      (up : Bool) (now later : ℕ) (uuid j : Text) (m : Entries)
      → now ≤ later
      → ((take_claim op up now uuid m).0 ≡ Phase.running (some now))
          × (view now m (lock_key op) ≡ none)
          × (view later (take_claim op up now uuid m).1 j
              ≡ visible later (update (view now m) (lock_key op) (some (claim_entry now uuid)) j))
        ⊎ ((take_claim op up now uuid m).0 ≡ Phase.refused)
          × (view later (take_claim op up now uuid m).1 j ≡ view later m j)
  unfolding take_claim set_not_exists
  view-take_claim false now later uuid j m h = inr (refl, refl)
  view-take_claim true now later uuid j m h =
      elim (view-set_nx now later (lock_key op) j (claims.encode uuid) in_flight_ttl m h) [
        | inl (t, free, v) ↦ inl (ground arith, free, v)
        | inr (f, v) ↦ inr (ground arith, v)
      ]

  -- Recording an outcome touches no other key.
  pub view-record_outcome_ne :
      (up : Bool) (now later status : ℕ) (body : Option Body) (j : Text) (m : Entries)
      → j ≢ cache_key
      → view later (record_outcome op up now status body m) j ≡ view later m j
  unfolding record_outcome set kv_set
  view-record_outcome_ne up now later status none j m ne = refl
  view-record_outcome_ne up now later status (some b) j m ne = ground (
    arith,
    text_eq_iff j cache_key,
    map_get-map_set cache_key j
        (fresh now (responses.encode (record { status = status; body = b })) idempotency_ttl) m,
  )

  pub view-del_ne :
      (later : ℕ) (k j : Text) (m : Entries)
      → j ≢ k
      → view later (del (k ∷ []) m) j ≡ view later m j
  unfolding del
  view-del_ne later k j m ne = ground (arith, text_eq_iff j k, map_get-map_delete k j m)

  pub view-del_self : (later : ℕ) (k : Text) (m : Entries) → view later (del (k ∷ []) m) k ≡ none
  unfolding del
  view-del_self later k m = ground (arith, text_eq_iff k k, map_get-map_delete k k m)
