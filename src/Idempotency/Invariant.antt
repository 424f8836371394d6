-- ===== src/Idempotency/Invariant.antt =====
-- What every schedule keeps: who holds the claim of an operation, and whose claim is stored.
use ziza_lend.Common.{
  ℕ, ◌+◌, ◌*◌, ◌≤◌, ◌<◌, ◌≡◌, ◌≢◌, inl, inr, sym, ap, ◌∙◌, Bool, true, Option, none, some, List, [],
  ◌∷◌, ◌++◌, arith, ◌==◌, Text, codes, text_eq_iff, Option-cases, Bool-cases, length, length-append,
}
use ziza_lend.Common.Map.{map_get}
use ziza_lend.KvStore.{MemoryEntry, Entries, expiry_from, is_expired, live, get as kv_get}
use ziza_lend.KvStore.Spec.{visible, view}
use ziza_lend.KvStore.Refinement.{live-view}
use ziza_lend.Cache.{read_match, stored_value}
use ziza_lend.Idempotency.Policy.{in_flight_lock_key}
use ziza_lend.Idempotency.{Operation, Phase, Event, World, move, step, lock_key, in_flight_ttl}
use ziza_lend.Idempotency.Claims.{claim_entry}

-- When the claim that a request holds or held was taken.
abbrev pub claimed : {Body : Type 0} → Phase Body → Option ℕ
claimed (Phase.running t) = t
claimed (Phase.settled early t) = t
claimed (Phase.matched early t) = t
claimed _ = none

abbrev pub holds : {Body : Type 0} → Phase Body → Option ℕ
holds (Phase.running t) = t
holds (Phase.matched early t) = t
holds _ = none

abbrev pub MatchedByClaim : {Body : Type 0} → Phase Body → Type 0
MatchedByClaim (Phase.matched early none) = ⊥
MatchedByClaim _ = Unit

-- When a claim that was taken at a time ends.
abbrev pub claim_end : ℕ → ℕ
claim_end t = t + in_flight_ttl * 1000

pub view_later :
    (now later end : ℕ) (k v : Text) (m : Entries)
    → now ≤ later
    → later < end
    → view now m k ≡ some (record { value = v; expires_at = some end })
    → view later m k ≡ some (record { value = v; expires_at = some end })
unfolding is_expired
view_later now later end k v m h l e = elim (Option-cases (map_get k m)) [
  | inl absent ↦ ground arith
  | inr (x, there) ↦ ground arith
]

module _ {Body : Type 0} (op : Operation Body) where
  open op use {claims, cache_key, claim_of}

  -- What `deleteIfMatch` does only while the claim that it read is alive.
  abbrev pub PromptAt : Event Body → World Body → Type 0
  PromptAt (Event.release_delete i up) w =
      (early : Bool) (t : ℕ) → w.phase i ≡ Phase.matched early (some t) → w.now < claim_end t
  PromptAt _ w = Unit

  abbrev pub IsPrompt : List (Event Body) → World Body → Type 0
  IsPrompt [] w = Unit
  IsPrompt (e ∷ es) w = PromptAt e w × IsPrompt es (step op e w)

  abbrev pub lock_view : ℕ → Entries → Option MemoryEntry
  lock_view later m = view later m (lock_key op)

  abbrev pub entry_of : ℕ → ℕ → MemoryEntry
  entry_of i t = claim_entry op t (claim_of i)

  pub record Inv (w : World Body) : Type 0 where
    pub held :
        (i t later : ℕ)
        → holds (w.phase i) ≡ some t
        → w.now ≤ later
        → later < claim_end t
        → lock_view later w.entries ≡ some (entry_of i t)
    pub owned :
        (later : ℕ) (e : MemoryEntry)
        → w.now ≤ later
        → lock_view later w.entries ≡ some e
        → (j : ℕ) × (t : ℕ) × (claimed (w.phase j) ≡ some t) × (e ≡ entry_of j t)
    pub matched : (i : ℕ) → MatchedByClaim (w.phase i)

  pub lock_key-ne-cache_key : lock_key op ≢ cache_key
  unfolding in_flight_lock_key
  lock_key-ne-cache_key e =
      let shorter : length (cache_key ++ codes ":inflight") ≡ length cache_key = ap length e in
      absurd (omega (arith, length-append cache_key (codes ":inflight")))

  -- A segment that leaves the lock as it was, and whose request holds the stored claim if it holds one.
  pub frame_held :
      (w : World Body) (i : ℕ) (p : Phase Body) (m : Entries)
      → Inv w
      → ((later : ℕ) → w.now ≤ later → lock_view later m ≡ lock_view later w.entries)
      → ((t later : ℕ)
          → holds p ≡ some t
          → w.now ≤ later
          → later < claim_end t
          → lock_view later w.entries ≡ some (entry_of i t))
      → claimed p ≡ claimed (w.phase i)
      → MatchedByClaim p
      → Inv (move w i (p, m))
  frame_held w i p m inv same h c mt = record {
    held = λ j t later a b d. ground (arith, same later b, inv.held j t later, h t later);
    owned = λ later e a b.
        let (j, t, cl, eq) = inv.owned later e a (sym (same later a) ∙ b) in
        (j, t, ground arith, eq);
    matched = λ j. elim (Bool-cases (j == i)) [ inl y ↦ rw y mt | inr n ↦ rw n (inv.matched j) ];
  }

  -- So for a request that holds none after it.
  pub frame :
      (w : World Body) (i : ℕ) (p : Phase Body) (m : Entries)
      → Inv w
      → ((later : ℕ) → w.now ≤ later → lock_view later m ≡ lock_view later w.entries)
      → holds p ≡ none
      → claimed p ≡ claimed (w.phase i)
      → MatchedByClaim p
      → Inv (move w i (p, m))
  frame w i p m inv same h c mt = frame_held w i p m inv same (λ t later a b d. ground arith) c mt

  -- A claim is seen until its end.
  pub entry_of-visible :
      (i t later : ℕ)
      → later < claim_end t
      → visible later (some (entry_of i t)) ≡ some (entry_of i t)
  unfolding is_expired expiry_from
  entry_of-visible i t later h = ground arith

  pub visible-eq-some : (later : ℕ) (x e : MemoryEntry) → visible later (some x) ≡ some e → e ≡ x
  visible-eq-some later x e h = ground arith

  -- Two requests with one claim entry are one.
  pub entry_of-injective :
      ((i j : ℕ) → claim_of i ≡ claim_of j → i ≡ j)
      → (i j t u : ℕ) → entry_of i t ≡ entry_of j u
      → i ≡ j
  entry_of-injective distinct i j t u e = distinct i j (
      some_injective (
        sym (claims.decode-encode (claim_of i))
        ∙ ap (λ (x : MemoryEntry). claims.decode x.value) e
        ∙ claims.decode-encode (claim_of j)))
    where
      some_injective : {a b : Text} → some a ≡ some b → a ≡ b
      some_injective h = cc

  -- What `deleteIfMatch` found to be its own is what is seen.
  pub read_match-seen :
      (up : Bool) (now : ℕ) (uuid : Text) (m : Entries)
      → (read_match claims up now (lock_key op) uuid m).0 ≡ true
      → (e : MemoryEntry) × (lock_view now m ≡ some e) × (stored_value claims e.value ≡ uuid)
  unfolding read_match kv_get
  read_match-seen up now uuid m h =
      let seen : (live now (lock_key op) m).0 ≡ lock_view now m = live-view now (lock_key op) m in
      elim (Option-cases (lock_view now m)) [
        | inl free ↦ absurd (ground (arith, seen))
        | inr (e, there) ↦
            (e, there, ground (arith, seen, text_eq_iff (stored_value claims e.value) uuid))
      ]

  pub stored_value-encode : (t : Text) → stored_value claims (claims.encode t) ≡ t
  unfolding stored_value
  stored_value-encode t = ground (arith, claims.decode-encode t)

  pub entry_of-later :
      (i t now later : ℕ) (m : Entries)
      → now ≤ later
      → later < claim_end t
      → lock_view now m ≡ some (entry_of i t)
      → lock_view later m ≡ some (entry_of i t)
  unfolding expiry_from
  entry_of-later i t now later m h l e =
      view_later now later (claim_end t) (lock_key op) (claims.encode (claim_of i)) m h l e
