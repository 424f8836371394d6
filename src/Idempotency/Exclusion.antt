-- ===== src/Idempotency/Exclusion.antt =====
-- At most one request of an operation runs under a claim that has not expired, whatever the schedule.
use ziza_lend.Common.{
  ℕ, ◌≤◌, ◌<◌, ◌≡◌, inl, inr, refl, sym, ap, ◌∙◌, Bool, true, false, Option, none, some, List, [],
  ◌∷◌, arith, ◌==◌, Bool-cases,
}
use ziza_lend.KvStore.{MemoryEntry, Entries, del}
use ziza_lend.Cache.{read_match, stored_value}
use ziza_lend.Idempotency.{Operation, Phase, Event, World, move, step, run, lock_key}
use ziza_lend.Idempotency.Claims.{view-read_match, view-del_self}
use ziza_lend.Idempotency.Invariant.{
  holds, claim_end, PromptAt, IsPrompt, lock_view, entry_of, Inv, frame_held, frame,
  entry_of-injective, read_match-seen, entry_of-later, stored_value-encode,
}
use ziza_lend.Idempotency.Segments.{
  look_up-Inv, check-Inv, finish-Inv, abort-Inv, advance-Inv, claim-Inv,
}

module _ {Body : Type 0} (op : Operation Body) where
  open op use {claims, cache_key, claim_of}

  module _ (distinct : (i j : ℕ) → claim_of i ≡ claim_of j → i ≡ j) where
    -- A request that reads its own claim holds it.
    own_claim :
        (i : ℕ) (up : Bool) (w : World Body) (early : Bool) (t : Option ℕ)
        → Inv op w
        → w.phase i ≡ Phase.settled early t
        → (read_match claims up w.now (lock_key op) (claim_of i) w.entries).0 ≡ true
        → (u : ℕ) × (t ≡ some u) × (lock_view op w.now w.entries ≡ some (entry_of op i u))
    own_claim i up w early t inv e own =
        let (ent, there, val) = read_match-seen op up w.now (claim_of i) w.entries own in
        let (j, u, cl, eq) = inv.owned w.now ent (omega arith) there in
        let same : i ≡ j = distinct i j (
          sym val
          ∙ ap (λ (x : MemoryEntry). stored_value claims x.value) eq
          ∙ stored_value-encode op (claim_of j)) in
        (u, ground arith, there ∙ ap some eq ∙ ap (λ k. some (entry_of op k u)) (sym same))

    release_read-Inv :
        (i : ℕ) (up : Bool) (w : World Body)
        → Inv op w
        → (p : Phase Body) → w.phase i ≡ p
        → Inv op (step op (Event.release_read i up) w)
    unfolding step
    release_read-Inv i up w inv (Phase.settled early t) e =
        let x : Bool × Entries = read_match claims up w.now (lock_key op) (claim_of i) w.entries in
        let same = λ (later : ℕ) (a : w.now ≤ later).
          view-read_match op up w.now later (claim_of i) (lock_key op) w.entries a in
        rw (e, step)
          (elim (Bool-cases x.0) [
            | inr other ↦
                rw other (frame op w i (Phase.settled early t) x.1 inv same refl (rw e refl) tt)
            | inl own ↦
                let (u, t_is, here) = own_claim i up w early t inv e own in
                rw own (
                  frame_held op w i (Phase.matched early t) x.1 inv same
                    (λ v later a b d.
                      let v_is : v ≡ u = ground arith in
                      rw v_is (entry_of-later op i u w.now later w.entries b (omega arith) here))
                    (rw e refl) (rw t_is tt))
          ])
    release_read-Inv i up w inv p e = rw (e, step) inv

    -- No one else holds a live claim while this one is alive.
    alone :
        (w : World Body) (i j t u later : ℕ)
        → Inv op w
        → holds (w.phase i) ≡ some t
        → holds (w.phase j) ≡ some u
        → w.now < claim_end t
        → w.now ≤ later
        → later < claim_end u
        → i ≡ j
    alone w i j t u later inv hi hj a b d = entry_of-injective op distinct i j t u (
        some_injective (
          sym (inv.held i t w.now hi (omega arith) a)
          ∙ inv.held j u w.now hj (omega arith) (omega arith)))
      where
        some_injective : {x y : MemoryEntry} → some x ≡ some y → x ≡ y
        some_injective h = cc

    delete-Inv :
        (i t : ℕ) (early : Bool) (w : World Body)
        → Inv op w
        → w.phase i ≡ Phase.matched early (some t)
        → w.now < claim_end t
        → Inv op (move w i (Phase.settled early (some t), del (lock_key op ∷ []) w.entries))
    delete-Inv i t early w inv e a = record {
      held = λ j u later b c d. absurd (ground (arith, alone w i j t u later inv (rw e refl)));
      owned =
          λ later x b c. absurd (ground (arith, view-del_self op later (lock_key op) w.entries));
      matched = λ j. elim (Bool-cases (j == i)) [ inl y ↦ rw y tt | inr n ↦ rw n (inv.matched j) ];
    }

    release_delete-Inv :
        (i : ℕ) (up : Bool) (w : World Body)
        → PromptAt op (Event.release_delete i up) w
        → Inv op w
        → (p : Phase Body) → w.phase i ≡ p
        → Inv op (step op (Event.release_delete i up) w)
    unfolding step
    release_delete-Inv i up w prompt inv (Phase.matched early none) e =
        absurd (rw e at (inv.matched i))
    release_delete-Inv i false w prompt inv (Phase.matched early (some t)) e =
        rw (e, step)
          (frame op w i (Phase.settled early (some t)) w.entries inv (λ later a. refl) refl
            (rw e refl) tt)
    release_delete-Inv i true w prompt inv (Phase.matched early (some t)) e =
        rw (e, step) (delete-Inv i t early w inv e (prompt early t e))
    release_delete-Inv i up w prompt inv p e = rw (e, step) inv

    step-Inv : (e : Event Body) (w : World Body) → PromptAt op e w → Inv op w → Inv op (step op e w)
    step-Inv (Event.advance n) w p inv = advance-Inv op n w inv
    step-Inv (Event.look_up i up) w p inv = look_up-Inv op i up w inv (w.phase i) refl
    step-Inv (Event.claim i up) w p inv = claim-Inv op i up w inv (w.phase i) refl
    step-Inv (Event.check i up) w p inv = check-Inv op i up w inv (w.phase i) refl
    step-Inv (Event.finish i up status body) w p inv =
        finish-Inv op i up status body w inv (w.phase i) refl
    step-Inv (Event.abort i) w p inv = abort-Inv op i w inv (w.phase i) refl
    step-Inv (Event.release_read i up) w p inv = release_read-Inv i up w inv (w.phase i) refl
    step-Inv (Event.release_delete i up) w p inv = release_delete-Inv i up w p inv (w.phase i) refl

    run-Inv :
        (es : List (Event Body)) (w : World Body)
        → IsPrompt op es w
        → Inv op w
        → Inv op (run op es w)
    unfolding run
    run-Inv [] w p inv = inv
    run-Inv (e ∷ es) w p inv = run-Inv es (step op e w) p.1 (step-Inv e w p.0 inv)

  -- Every request is new, and no claim of the operation is stored.
  abbrev pub IsFresh : World Body → Type 0
  IsFresh w =
      ((i : ℕ) → w.phase i ≡ Phase.start)
      × ((later : ℕ) → w.now ≤ later → lock_view op later w.entries ≡ none)

  fresh-Inv : (w : World Body) → IsFresh w → Inv op w
  fresh-Inv w f = record {
    held = λ i t later a b d. absurd (ground (arith, f.0 i));
    owned = λ later e a b. absurd (ground (arith, f.1 later a));
    matched = λ i. rw (f.0 i) tt;
  }

  -- Whatever the schedule of an operation's requests, lost connections to the store included, two requests
  -- that run under claims which have not expired are one request, if the connections of both are open: provided
  -- that the UUIDs are distinct and that a claim is deleted before it expires. A request whose connection
  -- closed early has given its claim up and may run beside another.
  pub claims_exclude :
      (distinct : (i j : ℕ) → claim_of i ≡ claim_of j → i ≡ j) (es : List (Event Body))
      (w : World Body)
      → IsFresh w
      → IsPrompt op es w
      → (i j t u : ℕ) → (run op es w).phase i ≡ Phase.running (some t)
      → (run op es w).phase j ≡ Phase.running (some u)
      → (run op es w).now < claim_end t
      → (run op es w).now < claim_end u
      → i ≡ j
  claims_exclude distinct es w f p i j t u ri rj a b =
      alone distinct (run op es w) i j t u (run op es w).now
        (run-Inv distinct es w p (fresh-Inv w f)) (rw ri refl) (rw rj refl) a (omega arith) b
