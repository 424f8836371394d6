-- ===== src/Idempotency/Recorded.antt =====
-- That an outcome is recorded stays so under every segment.
use mathlib.Core.List.{Memᴰ}
use mathlib.Core.Path.{subst}
use ziza_lend.Common.{
  ℕ, ◌+◌, ◌*◌, ◌≤◌, ◌<◌, ◌≡◌, ◌⊎◌, inl, inr, refl, sym, ◌∙◌, Bool, true, false, Option, none, some,
  List, [], ◌∷◌, arith, if◌then◌else◌, Text, text_eq_iff, text_eq_refl, Bool-cases, ◌++◌, All,
  All-split,
}
use ziza_lend.Common.MapLaws.{map_get-map_set}
use ziza_lend.KvStore.{MemoryEntry, Entries, expiry_from, is_expired, set as kv_set, del}
use ziza_lend.KvStore.Spec.{view, fresh}
use ziza_lend.KvStore.Refinement.{view_again}
use ziza_lend.Cache.{set}
use ziza_lend.Idempotency.{
  Operation, CachedResponse, Phase, Event, World, move, step, run, lookup, take_claim, check_held,
  is_recorded, record_outcome, lock_key, idempotency_ttl,
}
use ziza_lend.Idempotency.Claims.{
  view-lookup, view-check_held, view-read_match, view-take_claim, view-del_ne,
}
use ziza_lend.Idempotency.Invariant.{lock_key-ne-cache_key}

-- The outcomes that the requests of a schedule finish with.
abbrev pub finished_with : {Body : Type 0} → Event Body → List (CachedResponse Body)
finished_with (Event.finish i up status (some body)) = record { status = status; body = body } ∷ []
finished_with _ = []

abbrev pub outcomes : {Body : Type 0} → List (Event Body) → List (CachedResponse Body)
outcomes [] = []
outcomes (e ∷ es) = finished_with e ++ outcomes es

-- One of some outcomes that is to be recorded.
abbrev pub IsRecordedOf :
    {Body : Type 0} → Operation Body → List (CachedResponse Body) → CachedResponse Body → Type 0
IsRecordedOf op known r = Memᴰ r known × (is_recorded op r.status (some r.body) ≡ true)

module _ {Body : Type 0} (op : Operation Body) (known : List (CachedResponse Body)) where
  open op use {responses, claims, cache_key, claim_of}

  -- Until a time one of the outcomes is seen under the name of the operation.
  abbrev pub SeenUntil : ℕ → ℕ → Entries → Type 0
  SeenUntil end now m =
      (r : CachedResponse Body) × IsRecordedOf op known r
      × ((later : ℕ)
          → now ≤ later
          → later < end
          → (e : MemoryEntry) × (view later m cache_key ≡ some e) × (e.value ≡ responses.encode r))

  abbrev pub Recorded : ℕ → World Body → Type 0
  Recorded end w = SeenUntil end w.now w.entries × (end ≤ w.now + idempotency_ttl * 1000)

  same-SeenUntil :
      (end now : ℕ) (m m' : Entries)
      → ((later : ℕ) → now ≤ later → view later m' cache_key ≡ view later m cache_key)
      → SeenUntil end now m
      → SeenUntil end now m'
  same-SeenUntil end now m m' same (r, one, seen) =
      (r, one, λ later a b. let (e, at, v) = seen later a b in (e, same later a ∙ at, v))

  take_claim-SeenUntil :
      (end now : ℕ) (up : Bool) (uuid : Text) (m : Entries)
      → SeenUntil end now m
      → SeenUntil end now (take_claim op up now uuid m).1
  take_claim-SeenUntil end now up uuid m =
      same-SeenUntil end now m (take_claim op up now uuid m).1 (λ later a. ground (
        arith,
        view-take_claim op up now later uuid cache_key m a,
        view_again now later m cache_key a,
        text_eq_iff cache_key (lock_key op),
        lock_key-ne-cache_key op,
      ))

  -- What is recorded is seen for 24 hours.
  pub record_outcome-SeenUntil :
      (now status : ℕ) (body : Body) (m : Entries)
      → is_recorded op status (some body) ≡ true
      → Memᴰ (record { status = status; body = body }) known
      → SeenUntil
          (now + idempotency_ttl * 1000)
          now
          (record_outcome op true now status (some body) m)
  unfolding record_outcome set kv_set is_expired expiry_from
  record_outcome-SeenUntil now status body m h k = (
    record { status = status; body = body },
    (k, h),
    λ later a b. (
      fresh now (responses.encode (record { status = status; body = body })) idempotency_ttl,
      ground (
        arith,
        map_get-map_set cache_key cache_key
            (fresh now (responses.encode (record { status = status; body = body })) idempotency_ttl)
            m,
        text_eq_refl cache_key,
      ),
      refl,
    ),
  )

  weaken-SeenUntil :
      (end end' now : ℕ) (m : Entries) → end ≤ end' → SeenUntil end' now m → SeenUntil end now m
  weaken-SeenUntil end end' now m h (r, one, seen) =
      (r, one, λ later a b. seen later a (omega arith))

  unrecorded :
      (up : Bool) (now status : ℕ) (body : Option Body) (m : Entries)
      → (record_outcome op up now status body m ≡ m)
        ⊎ ((up ≡ true) × (b : Body) × (body ≡ some b) × (is_recorded op status (some b) ≡ true))
  unfolding record_outcome set
  unrecorded up now status none m = inl refl
  unrecorded false now status (some b) m = inl (ground arith)
  unrecorded true now status (some b) m = elim (Bool-cases (is_recorded op status (some b))) [
    | inl kept ↦ inr (refl, b, refl, kept)
    | inr skipped ↦ inl (rw skipped refl)
  ]

  record_outcome-keeps :
      (up : Bool) (end now status : ℕ) (body : Option Body) (m : Entries)
      → All (λ r. Memᴰ r known) (finished_with (Event.finish 0 up status body))
      → SeenUntil end now m
      → end ≤ now + idempotency_ttl * 1000
      → SeenUntil end now (record_outcome op up now status body m)
  record_outcome-keeps up end now status body m k s h = elim (unrecorded up now status body m) [
    | inl same ↦ rw same s
    | inr (u, b, is_b, kept) ↦
        rw (u, is_b)
          (weaken-SeenUntil end (now + idempotency_ttl * 1000) now _ h (
            record_outcome-SeenUntil now status b m kept
              (subst (λ o. All (λ r. Memᴰ r known) (finished_with (Event.finish 0 up status o)))
                is_b k).0))
  ]

  -- A segment that leaves what is seen of the outcome.
  moved :
      (end : ℕ) (w : World Body) (i : ℕ) (x : Phase Body × Entries)
      → Recorded end w
      → SeenUntil end w.now x.1
      → Recorded end (move w i x)
  moved end w i x r s = (s, r.1)

  still :
      (end : ℕ) (w : World Body) (m' : Entries)
      → Recorded end w
      → ((later : ℕ) → w.now ≤ later → view later m' cache_key ≡ view later w.entries cache_key)
      → SeenUntil end w.now m'
  still end w m' r same = same-SeenUntil end w.now w.entries m' same r.0

  look_up-Recorded :
      (end : ℕ) (i : ℕ) (up : Bool) (w : World Body)
      → Recorded end w
      → (p : Phase Body) → w.phase i ≡ p
      → Recorded end (step op (Event.look_up i up) w)
  unfolding step
  look_up-Recorded end i up w r Phase.start e =
      rw (e, step)
        (moved end w i (lookup op up w.now w.entries) r
          (still end w _ r (λ later a. view-lookup op up w.now later cache_key w.entries a)))
  look_up-Recorded end i up w r p e = rw (e, step) r

  check-Recorded :
      (end : ℕ) (i : ℕ) (up : Bool) (w : World Body)
      → Recorded end w
      → (p : Phase Body) → w.phase i ≡ p
      → Recorded end (step op (Event.check i up) w)
  unfolding step
  check-Recorded end i up w r Phase.refused e =
      rw (e, step)
        (moved end w i (check_held op up w.now w.entries) r
          (still end w _ r (λ later a. view-check_held op up w.now later cache_key w.entries a)))
  check-Recorded end i up w r p e = rw (e, step) r

  claim-Recorded :
      (end : ℕ) (i : ℕ) (up : Bool) (w : World Body)
      → Recorded end w
      → (p : Phase Body) → w.phase i ≡ p
      → Recorded end (step op (Event.claim i up) w)
  unfolding step
  claim-Recorded end i up w r Phase.missed e =
      rw (e, step)
        (moved end w i (take_claim op up w.now (claim_of i) w.entries) r
          (take_claim-SeenUntil end w.now up (claim_of i) w.entries r.0))
  claim-Recorded end i up w r p e = rw (e, step) r

  finish-Recorded :
      (end : ℕ) (i : ℕ) (up : Bool) (status : ℕ) (body : Option Body) (w : World Body)
      → All (λ r. Memᴰ r known) (finished_with (Event.finish i up status body))
      → Recorded end w
      → (p : Phase Body) → w.phase i ≡ p
      → Recorded end (step op (Event.finish i up status body) w)
  unfolding step
  finish-Recorded end i up status body w k r (Phase.running t) e =
      rw (e, step)
        (moved end w i (Phase.settled false t, record_outcome op up w.now status body w.entries) r
          (record_outcome-keeps up end w.now status body w.entries k r.0 r.1))
  finish-Recorded end i up status body w k r p e = rw (e, step) r

  abort-Recorded :
      (end : ℕ) (i : ℕ) (w : World Body)
      → Recorded end w
      → (p : Phase Body) → w.phase i ≡ p
      → Recorded end (step op (Event.abort i) w)
  unfolding step
  abort-Recorded end i w r (Phase.running t) e =
      rw (e, step) (moved end w i (Phase.settled true t, w.entries) r r.0)
  abort-Recorded end i w r p e = rw (e, step) r

  release_read-Recorded :
      (end : ℕ) (i : ℕ) (up : Bool) (w : World Body)
      → Recorded end w
      → (p : Phase Body) → w.phase i ≡ p
      → Recorded end (step op (Event.release_read i up) w)
  unfolding step
  release_read-Recorded end i up w r (Phase.settled early t) e =
      rw (e, step)
        ((
          still end w _ r
              (λ later a. view-read_match op up w.now later (claim_of i) cache_key w.entries a),
          r.1,
        ))
  release_read-Recorded end i up w r p e = rw (e, step) r

  delete-keeps :
      (end : ℕ) (up : Bool) (w : World Body)
      → Recorded end w
      → SeenUntil end w.now (if up then del (lock_key op ∷ []) w.entries else w.entries)
  delete-keeps end false w r = r.0
  delete-keeps end true w r = still end w _ r (λ later a.
      view-del_ne op later (lock_key op) cache_key w.entries
        (λ e. lock_key-ne-cache_key op (sym e)))

  release_delete-Recorded :
      (end : ℕ) (i : ℕ) (up : Bool) (w : World Body)
      → Recorded end w
      → (p : Phase Body) → w.phase i ≡ p
      → Recorded end (step op (Event.release_delete i up) w)
  unfolding step
  release_delete-Recorded end i up w r (Phase.matched early t) e =
      rw (e, step) ((delete-keeps end up w r, r.1))
  release_delete-Recorded end i up w r p e = rw (e, step) r

  step-Recorded :
      (end : ℕ) (e : Event Body) (w : World Body)
      → All (λ r. Memᴰ r known) (finished_with e)
      → Recorded end w
      → Recorded end (step op e w)
  unfolding step
  step-Recorded end (Event.advance n) w k (s, h) =
      ((s.0, s.1, λ later a b. s.2 later (omega arith) b), omega arith)
  step-Recorded end (Event.look_up i up) w k r = look_up-Recorded end i up w r (w.phase i) refl
  step-Recorded end (Event.claim i up) w k r = claim-Recorded end i up w r (w.phase i) refl
  step-Recorded end (Event.check i up) w k r = check-Recorded end i up w r (w.phase i) refl
  step-Recorded end (Event.finish i up status body) w k r =
      finish-Recorded end i up status body w k r (w.phase i) refl
  step-Recorded end (Event.abort i) w k r = abort-Recorded end i w r (w.phase i) refl
  step-Recorded end (Event.release_read i up) w k r =
      release_read-Recorded end i up w r (w.phase i) refl
  step-Recorded end (Event.release_delete i up) w k r =
      release_delete-Recorded end i up w r (w.phase i) refl

  pub run-Recorded :
      (end : ℕ) (es : List (Event Body)) (w : World Body)
      → All (λ r. Memᴰ r known) (outcomes es)
      → Recorded end w
      → Recorded end (run op es w)
  unfolding run
  run-Recorded end [] w k r = r
  run-Recorded end (e ∷ es) w k r =
      let (now, later) = All-split (λ r. Memᴰ r known) (finished_with e) (outcomes es) k in
      run-Recorded end es (step op e w) later (step-Recorded end e w now r)
