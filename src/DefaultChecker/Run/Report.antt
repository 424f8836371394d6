-- ===== src/DefaultChecker/Run/Report.antt =====
-- What a run reports, and what it leaves of its lock.
use ziza_lend.Common.{
  ℕ, suc, ◌+◌, ◌≤◌, ◌<◌, ◌≡◌, ◌∙◌, refl, sym, ap, Bool, true, Option, none, some, List, [], ◌∷◌,
  if◌then◌else◌, map, Text, text_eq, text_eq_iff, ltb, lt→ltb, filter, length, All, All-imp,
}
use ziza_lend.Common.MapLaws.{HasUniqueKeys}
use ziza_lend.KvStore.{Entries, get, set_nx}
use ziza_lend.KvStore.Spec.{visible}
use ziza_lend.KvStore.Refinement.{view_again}
use ziza_lend.Cache.{Codec, read_match, set_not_exists}
use ziza_lend.DefaultChecker.Lock.{
  lock_key, lock_ttl_seconds, Checker, acquire_lock, release_read, release_del,
}
use ziza_lend.DefaultChecker.Lock.Seen.{
  entry, seen, entry-visible, set_nx-free, set_nx-HasUniqueKeys, get-value, get-HasUniqueKeys,
  del-seen, matches, read_match-value, stored_value-encode,
}
use ziza_lend.DefaultChecker.Overdue.{EventRow}
use ziza_lend.DefaultChecker.Batches.{chunk, BatchResult, Rpc}
use ziza_lend.DefaultChecker.Batches.Chunks.{
  flatten, IsCut, chunk-cuts, submit-loan_ids, counts-add,
}
use ziza_lend.DefaultChecker.Run.{
  Settings, target_ids, submit_all, run_body, RunOutcome, skipped, RunWorld, run_inner,
  release_lock, check_overdue_loans,
}

filter_keeps {ℓ} :
    {A : Type ℓ} (p : A → Bool) (xs : List A) → All (λ x. p x ≡ true) xs → filter p xs ≡ xs
filter_keeps p [] h = refl
filter_keeps p (x ∷ xs) h = rw h.0 (ap (◌∷◌ x) (filter_keeps p xs h.1))

submit_all-loan_ids :
    (rpc : ℕ → Rpc) (i : ℕ) (batches : List (List ℕ))
    → map BatchResult.loan_ids (submit_all rpc i batches) ≡ batches
unfolding submit_all
submit_all-loan_ids rpc i [] = refl
submit_all-loan_ids rpc i (ids ∷ rest) =
    ap (λ a. a ∷ map BatchResult.loan_ids (submit_all rpc (suc i) rest))
      (submit-loan_ids (rpc i) ids)
    ∙ ap (◌∷◌ ids) (submit_all-loan_ids rpc (suc i) rest)

-- A run sends each of its loans in exactly one batch, in order and none above the batch size, and every
-- batch counts either as successful or as failed.
pub run_body-report :
    (s : Settings) (current : ℕ) (events : List EventRow) (explicit : Option (List ℕ))
    (rpc : ℕ → Rpc)
    → 0 < s.batch_size
    → (flatten (map BatchResult.loan_ids (run_body s current events explicit rpc).batches)
        ≡ target_ids s current events explicit)
      × All
          (IsCut s.batch_size)
          (map BatchResult.loan_ids (run_body s current events explicit rpc).batches)
      × ((run_body s current events explicit rpc).successful_submissions
            + (run_body s current events explicit rpc).failed_submissions
          ≡ length (run_body s current events explicit rpc).batches)
unfolding run_body
run_body-report s current events explicit rpc sized =
    let targets = target_ids s current events explicit in
    let (whole, cut) = chunk-cuts targets s.batch_size sized in
    let kept : filter (λ b. ltb 0 (length b)) (chunk targets s.batch_size)
        ≡ chunk targets s.batch_size =
      filter_keeps _ (chunk targets s.batch_size)
        (All-imp (chunk targets s.batch_size) (λ b h. lt→ltb 0 (length b) h.0) cut) in
    let sent =
      submit_all-loan_ids rpc 0 (filter (λ b. ltb 0 (length b)) (chunk targets s.batch_size))
      ∙ kept in
    (
      ap flatten sent ∙ whole,
      rw sent cut,
      counts-add (submit_all rpc 0 (filter (λ b. ltb 0 (length b)) (chunk targets s.batch_size))),
    )

module _ (json : Codec Text) where
  release_lock-frees :
      (now since : ℕ) (v : Text) (m : Entries)
      → HasUniqueKeys m
      → seen now m ≡ some (entry (json.encode v) since)
      → seen now (release_lock json true now (some v) m).1 ≡ none
  unfolding release_lock release_read release_del read_match
  release_lock-frees now since v m u there =
      let read : (get now lock_key m).0 ≡ some (json.encode v) =
        get-value now m u ∙ rw there refl in
      let same : (read_match json true now lock_key v m).0 ≡ true =
        read_match-value json now m v
        ∙ ap (matches json v) read
        ∙ ap (λ t. text_eq t v) (stored_value-encode json v)
        ∙ (text_eq_iff v v).1 refl in
      rw same (del-seen now (get now lock_key m).1 (get-HasUniqueKeys now m u))

  -- The run after its lock was taken.
  abbrev locked_run :
      Settings
      → RunWorld
      → Option (List ℕ)
      → Bool
      → Checker
      → Entries
      → RunOutcome × Checker × Entries
  locked_run s w explicit acquired held m' =
      let (released, m'') = release_lock json w.up_at_end w.ended held m' in
      if acquired then (run_inner s w explicit, released, m'') else (skipped, held, m')

  check_overdue_loans-locked :
      (s : Settings) (w : RunWorld) (explicit : Option (List ℕ)) (checker : Checker) (m : Entries)
      → w.up_at_start ≡ true
      → (set_nx w.begun lock_key (json.encode w.lock_value) lock_ttl_seconds m).0 ≡ true
      → check_overdue_loans json s w explicit checker m
        ≡ locked_run s w explicit true
            (some w.lock_value)
            (set_nx w.begun lock_key (json.encode w.lock_value) lock_ttl_seconds m).1
  unfolding check_overdue_loans acquire_lock set_not_exists
  check_overdue_loans-locked s w explicit checker m up taken = rw (up, taken) refl

  -- A run that finds no lock and ends, by a result or by an error, before its own lock does leaves none, if
  -- the store answers at both ends.
  pub check_overdue_loans-releases :
      (s : Settings) (w : RunWorld) (explicit : Option (List ℕ)) (checker : Checker) (m : Entries)
      → HasUniqueKeys m
      → seen w.begun m ≡ none
      → w.begun ≤ w.ended
      → w.ended < w.begun + 600000
      → w.up_at_start ≡ true
      → w.up_at_end ≡ true
      → ((check_overdue_loans json s w explicit checker m).0 ≡ run_inner s w explicit)
        × (seen w.ended (check_overdue_loans json s w explicit checker m).2 ≡ none)
  check_overdue_loans-releases s w explicit checker m u free after soon up_first up_last =
      let (taken, shown) = set_nx-free w.begun (json.encode w.lock_value) m u free in
      let m1 = (set_nx w.begun lock_key (json.encode w.lock_value) lock_ttl_seconds m).1 in
      let u1 = set_nx-HasUniqueKeys w.begun (json.encode w.lock_value) m u in
      let there : seen w.ended m1 ≡ some (entry (json.encode w.lock_value) w.begun) =
        sym (view_again w.begun w.ended m1 lock_key after)
        ∙ ap (visible w.ended) shown
        ∙ entry-visible w.ended w.begun (json.encode w.lock_value) soon in
      let run_is = check_overdue_loans-locked s w explicit checker m up_first taken in
      (
        ap (λ r. r.0) run_is,
        ap (λ r. seen w.ended r.2) run_is
            ∙ ap (λ up. seen w.ended (release_lock json up w.ended (some w.lock_value) m1).1)
                up_last
            ∙ release_lock-frees w.ended w.begun w.lock_value m1 u1 there,
      )
