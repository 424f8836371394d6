-- ===== src/Idempotency/Segments.antt =====
-- The invariant of the claims under every segment but the release of a claim.
use ziza_lend.Common.{
  true, false, ℕ, ◌≤◌, ◌≡◌, inl, inr, refl, sym, ◌∙◌, Bool, Option, none, some, arith, ◌==◌,
  text_eq_refl, Bool-cases,
}
use ziza_lend.KvStore.{Entries}
use ziza_lend.KvStore.Spec.{visible}
use ziza_lend.Idempotency.{
  Operation, Phase, Event, World, move, step, lookup, take_claim, check_held, record_outcome,
  lock_key,
}
use ziza_lend.Idempotency.Claims.{
  view-lookup, view-check_held, view-take_claim, view-record_outcome_ne,
}
use ziza_lend.Idempotency.Invariant.{
  claimed, holds, MatchedByClaim, lock_view, entry_of, Inv, lock_key-ne-cache_key, frame,
  entry_of-visible, visible-eq-some,
}

module _ {Body : Type 0} (op : Operation Body) where
  open op use {claims, cache_key, claim_of}

  lookup-claims_nothing :
      (up : Bool) (now : ℕ) (m : Entries)
      → (holds (lookup op up now m).0 ≡ none)
        × (claimed (lookup op up now m).0 ≡ none)
        × MatchedByClaim (lookup op up now m).0
  unfolding lookup
  lookup-claims_nothing up now m = ground arith

  check_held-claims_nothing :
      (up : Bool) (now : ℕ) (m : Entries)
      → (holds (check_held op up now m).0 ≡ none)
        × (claimed (check_held op up now m).0 ≡ none)
        × MatchedByClaim (check_held op up now m).0
  unfolding check_held
  check_held-claims_nothing up now m = ground arith

  pub look_up-Inv :
      (i : ℕ) (up : Bool) (w : World Body)
      → Inv op w
      → (p : Phase Body) → w.phase i ≡ p
      → Inv op (step op (Event.look_up i up) w)
  unfolding step
  look_up-Inv i up w inv Phase.start e =
      let (h, c, mt) = lookup-claims_nothing up w.now w.entries in
      let x = lookup op up w.now w.entries in
      rw (e, step)
        (frame op w i x.0 x.1 inv
          (λ later a. view-lookup op up w.now later (lock_key op) w.entries a) h (rw e c) mt)
  look_up-Inv i up w inv p e = rw (e, step) inv

  pub check-Inv :
      (i : ℕ) (up : Bool) (w : World Body)
      → Inv op w
      → (p : Phase Body) → w.phase i ≡ p
      → Inv op (step op (Event.check i up) w)
  unfolding step
  check-Inv i up w inv Phase.refused e =
      let (h, c, mt) = check_held-claims_nothing up w.now w.entries in
      let x = check_held op up w.now w.entries in
      rw (e, step)
        (frame op w i x.0 x.1 inv
          (λ later a. view-check_held op up w.now later (lock_key op) w.entries a) h (rw e c) mt)
  check-Inv i up w inv p e = rw (e, step) inv

  pub finish-Inv :
      (i : ℕ) (up : Bool) (status : ℕ) (body : Option Body) (w : World Body)
      → Inv op w
      → (p : Phase Body) → w.phase i ≡ p
      → Inv op (step op (Event.finish i up status body) w)
  unfolding step
  finish-Inv i up status body w inv (Phase.running t) e =
      rw (e, step)
        (frame op w i (Phase.settled false t) (record_outcome op up w.now status body w.entries) inv
          (λ later a.
            view-record_outcome_ne op up w.now later status body (lock_key op) w.entries
              (lock_key-ne-cache_key op))
          refl (rw e refl) tt)
  finish-Inv i up status body w inv p e = rw (e, step) inv

  pub abort-Inv :
      (i : ℕ) (w : World Body)
      → Inv op w
      → (p : Phase Body) → w.phase i ≡ p
      → Inv op (step op (Event.abort i) w)
  unfolding step
  abort-Inv i w inv (Phase.running t) e =
      rw (e, step)
        (frame op w i (Phase.settled true t) w.entries inv (λ later a. refl) refl (rw e refl) tt)
  abort-Inv i w inv p e = rw (e, step) inv

  pub advance-Inv : (n : ℕ) (w : World Body) → Inv op w → Inv op (step op (Event.advance n) w)
  unfolding step
  advance-Inv n w inv = record {
    held = λ i t later a b d. inv.held i t later a (omega arith) d;
    owned = λ later e a b. inv.owned later e (omega arith) b;
    matched = inv.matched;
  }

  take_claim-Inv :
      (i : ℕ) (up : Bool) (w : World Body)
      → Inv op w
      → claimed (w.phase i) ≡ none
      → let x = take_claim op up w.now (claim_of i) w.entries in Inv op (move w i (x.0, x.1))
  take_claim-Inv i up w inv c =
      let x : Phase Body × Entries = take_claim op up w.now (claim_of i) w.entries in
      let seen = λ (later : ℕ) (a : w.now ≤ later).
        view-take_claim op up w.now later (claim_of i) (lock_key op) w.entries a in
      elim (seen w.now (omega arith)) [
        | inr (r, _) ↦
            frame op w i x.0 x.1 inv (λ later a. ground (arith, seen later a)) (rw r refl)
              (rw (r, c) refl) (rw r tt)
        | inl (r, free, _) ↦
            let shown : (later : ℕ)
                → w.now ≤ later
                → lock_view op later x.1 ≡ visible later (some (entry_of op i w.now)) =
              λ later a. ground (arith, seen later a, text_eq_refl (lock_key op)) in
            record {
              held = λ j t later a b d.
                  ground
                    (arith, shown later b, inv.held j t w.now, entry_of-visible op i w.now later);
              owned = λ later e a b. (
                i,
                w.now,
                ground arith,
                visible-eq-some op later (entry_of op i w.now) e (sym (shown later a) ∙ b),
              );
              matched = λ j. elim (Bool-cases (j == i)) [
                | inl y ↦ rw (y, r) tt
                | inr n ↦ rw n (inv.matched j)
              ];
            }
      ]

  pub claim-Inv :
      (i : ℕ) (up : Bool) (w : World Body)
      → Inv op w
      → (p : Phase Body) → w.phase i ≡ p
      → Inv op (step op (Event.claim i up) w)
  unfolding step
  claim-Inv i up w inv Phase.missed e = rw (e, step) (take_claim-Inv i up w inv (rw e refl))
  claim-Inv i up w inv p e = rw (e, step) inv
