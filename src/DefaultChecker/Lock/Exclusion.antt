-- ===== src/DefaultChecker/Lock/Exclusion.antt =====
-- Two runs whose locks last are never under way together, where the runs of a process take turns.
use ziza_lend.Common.{
  ℕ, ◌+◌, ◌<◌, ◌≡◌, ◌≢◌, ◌∙◌, refl, sym, ap, Bool, true, false, none, some, inl, inr, if◌then◌else◌,
  Text, text_eq, text_eq_iff, Bool-cases, Option-cases, arith,
}
use mathlib.Core.Path.{subst}
use ziza_lend.Common.Map.{map_get}
use ziza_lend.KvStore.{Entries, get}
use ziza_lend.KvStore.Spec.{visible}
use ziza_lend.KvStore.Refinement.{view_again, run-Refines}
use ziza_lend.Cache.{Codec, read_match, set_not_exists}
use ziza_lend.DefaultChecker.Lock.{
  lock_key, Checker, idle, running, deleting, World, put, lock_of, acquire_lock, release_read,
  release_del, begin, finish, delete_lock, Step, time_passes, store_used, begins, finishes, deletes,
  start, Reached, at_start, after, IsAlone, AreAlone, lock_ttl_seconds,
}
use ziza_lend.DefaultChecker.Lock.Seen.{
  seen, matches, read_match-value, stored_value-encode, visible-lasts, run-Spares, set_nx-free,
  set_nx-taken, set_nx-HasUniqueKeys, get-seen, get-value, get-HasUniqueKeys,
}
use ziza_lend.DefaultChecker.Lock.Invariant.{
  IsLocked, exclusive, wait-IsLocked, used-IsLocked, idle-IsLocked,
}
use ziza_lend.DefaultChecker.Lock.Owner.{
  IsOwned, stop-IsOwned, clear-IsOwned, begin-IsOwned, same_field-IsOwned,
}
use ziza_lend.DefaultChecker.Lock.Moves.{begin-IsLocked, read-IsLocked, delete-IsLocked}

module _ (json : Codec Text) (process : ℕ → ℕ) where
  abbrev WorldIsLocked : World → Type 0
  WorldIsLocked w = IsLocked json w.now w.entries w.phase

  abbrev WorldIsOwned : World → Type 0
  WorldIsOwned w = IsOwned process w.phase w.checker

  begins-IsLocked :
      (w : World) (i : ℕ) (up : Bool) (text : Text)
      → w.phase i ≡ idle
      → ((j since : ℕ) → lock_of (w.phase j) ≢ some (text, since))
      → WorldIsLocked w
      → WorldIsLocked (begin json process i up text w)
  unfolding begin acquire_lock set_not_exists
  begins-IsLocked w i false text waits new inv = idle-IsLocked json i inv
  begins-IsLocked w i true text waits new inv = elim (Option-cases (seen w.now w.entries)) [
    | inl free ↦
        let (taken, shown) = set_nx-free w.now (json.encode text) w.entries inv.unique free in
        rw taken (
          begin-IsLocked json i text
            (set_nx-HasUniqueKeys w.now (json.encode text) w.entries inv.unique) free shown new inv)
    | inr (e, there) ↦
        let (refused, same) = set_nx-taken w.now (json.encode text) w.entries inv.unique there in
        rw refused (
          idle-IsLocked json i (
            used-IsLocked json (set_nx-HasUniqueKeys w.now (json.encode text) w.entries inv.unique)
              same inv))
  ]

  encoded-matches : (u v : Text) → matches json v (some (json.encode u)) ≡ true → u ≡ v
  encoded-matches u v h =
      (text_eq_iff u v).0 (ap (λ t. text_eq t v) (sym (stored_value-encode json u)) ∙ h)

  -- The comparison of a release succeeds only while its own lock lasts.
  match-lasts :
      (w : World) (i : ℕ) {v : Text} {since : ℕ}
      → w.phase i ≡ running v since
      → WorldIsLocked w
      → (read_match json true w.now lock_key v w.entries).0 ≡ true
      → w.now < since + 600000
  match-lasts w i {v} {since} runs inv same =
      let read = sym (read_match-value json w.now w.entries v) ∙ same in
      elim (Option-cases (seen w.now w.entries)) [
        | inl absent ↦ absurd (cc (rw (get-value w.now w.entries inv.unique, absent) at read))
        | inr (e, there) ↦
            let (u, t, is, owner) = inv.placed e there in
            let found : (get w.now lock_key w.entries).0 ≡ some (json.encode u) =
              get-value w.now w.entries inv.unique ∙ rw (there, is) refl in
            let mine = encoded-matches u v (rw found at read) in
            let began = owner i since (ap lock_of runs ∙ rw mine refl) in
            let lasts = visible-lasts w.now t (json.encode u) e (
              ap (λ f. visible w.now (some f)) (sym is)
              ∙ ap (visible w.now) (sym there)
              ∙ view_again w.now w.now w.entries lock_key (omega arith)
              ∙ there) in
            omega (arith, began, lasts)
      ]

  -- The world after the read of a release, by the result of the comparison.
  abbrev after_read : ℕ → Text → ℕ → World → Bool × Entries → World
  after_read i v since w (same, m) = record w {
    entries = m;
    phase = put w.phase i (if same then deleting v since w.now else idle);
    checker = put w.checker (process i) none;
  }

  read-entries :
      (now : ℕ) (v : Text) (m : Entries)
      → (read_match json true now lock_key v m).1 ≡ (get now lock_key m).1
  unfolding read_match
  read-entries now v m = refl

  after_read-IsLocked :
      (w : World) (i : ℕ) (up : Bool) {v : Text} {since : ℕ}
      → w.phase i ≡ running v since
      → WorldIsLocked w
      → WorldIsLocked (after_read i v since w (read_match json up w.now lock_key v w.entries))
  unfolding read_match
  after_read-IsLocked w i false runs inv = idle-IsLocked json i inv
  after_read-IsLocked w i true {v} {since} runs inv =
      let kept : IsLocked json w.now (read_match json true w.now lock_key v w.entries).1 w.phase =
        used-IsLocked json (get-HasUniqueKeys w.now w.entries inv.unique)
          (get-seen w.now w.entries inv.unique) inv in
      elim (Bool-cases (read_match json true w.now lock_key v w.entries).0) [
        | inl same ↦ rw same (read-IsLocked json i runs (match-lasts w i runs inv same) kept)
        | inr other ↦ rw other (idle-IsLocked json i kept)
      ]

  finishes-IsLocked :
      (w : World) (i : ℕ) (up : Bool) {v : Text} {since : ℕ}
      → w.phase i ≡ running v since
      → WorldIsOwned w
      → WorldIsLocked w
      → WorldIsLocked (finish json process i up v since w)
  unfolding finish release_read
  finishes-IsLocked w i up {v} {since} runs owned inv =
      subst (λ c. WorldIsLocked (after_read i v since w (release_read json up w.now c w.entries)))
        (sym (owned.own i runs)) (after_read-IsLocked w i up runs inv)

  deletes-IsLocked :
      (w : World) (i : ℕ) (up : Bool) {v : Text} {since read_at : ℕ}
      → w.phase i ≡ deleting v since read_at
      → (read_at < since + 600000 → w.now < since + 600000)
      → WorldIsLocked w
      → WorldIsLocked (delete_lock json process i up w)
  unfolding delete_lock release_del
  deletes-IsLocked w i false waits prompt inv = idle-IsLocked json i inv
  deletes-IsLocked w i true waits prompt inv =
      delete-IsLocked json i waits (prompt (inv.read_in_time i waits)) inv

  Step-IsLocked :
      {w v : World} → Step json process w v → WorldIsOwned w → WorldIsLocked w → WorldIsLocked v
  Step-IsLocked (time_passes w later h) owned inv = wait-IsLocked json later h inv
  Step-IsLocked (store_used w cmd h) owned inv =
      used-IsLocked json (run-Refines w.now cmd w.entries inv.unique).2
        (run-Spares w.now cmd w.entries inv.unique h) inv
  Step-IsLocked (begins w i up text waits new) owned inv = begins-IsLocked w i up text waits new inv
  Step-IsLocked (finishes w i up runs) owned inv = finishes-IsLocked w i up runs owned inv
  Step-IsLocked (deletes w i up waits prompt) owned inv = deletes-IsLocked w i up waits prompt inv

  begins-IsOwned :
      (w : World) (i : ℕ) (up : Bool) (text : Text)
      → ((j : ℕ) (v : Text) (since : ℕ) → process j ≡ process i → w.phase j ≢ running v since)
      → WorldIsOwned w
      → WorldIsOwned (begin json process i up text w)
  unfolding begin acquire_lock
  begins-IsOwned w i up text alone owned =
      elim (Bool-cases (set_not_exists json up w.now lock_key text lock_ttl_seconds w.entries).0) [
        | inl taken ↦ rw (begin, taken) (begin-IsOwned i text w.now alone owned)
        | inr refused ↦
            rw (begin, refused)
              (same_field-IsOwned (process i) (stop-IsOwned i idle (λ v since e. cc e) owned))
      ]

  finishes-IsOwned :
      (w : World) (i : ℕ) (up : Bool) {v : Text} {since : ℕ}
      → w.phase i ≡ running v since
      → WorldIsOwned w
      → WorldIsOwned (finish json process i up v since w)
  unfolding finish
  finishes-IsOwned w i up {v} {since} runs owned =
      elim (Bool-cases (release_read json up w.now (w.checker (process i)) w.entries).0) [
        | inl same ↦
            rw (finish, same) (clear-IsOwned i (deleting v since w.now) runs (λ u s e. cc e) owned)
        | inr other ↦ rw (finish, other) (clear-IsOwned i idle runs (λ u s e. cc e) owned)
      ]

  Step-IsOwned :
      {w v : World} (st : Step json process w v)
      → IsAlone json process st
      → WorldIsOwned w
      → WorldIsOwned v
  unfolding delete_lock
  Step-IsOwned (time_passes w later h) alone owned = record {
    own = owned.own;
    one_run = owned.one_run;
  }
  Step-IsOwned (store_used w cmd h) alone owned = record {
    own = owned.own;
    one_run = owned.one_run;
  }
  Step-IsOwned (begins w i up text waits new) alone owned = begins-IsOwned w i up text alone owned
  Step-IsOwned (finishes w i up runs) alone owned = finishes-IsOwned w i up runs owned
  Step-IsOwned (deletes w i up waits prompt) alone owned =
      stop-IsOwned i idle (λ v since e. cc e) owned

  start-IsLocked : WorldIsLocked start
  unfolding map_get
  start-IsLocked = record {
    unique = tt;
    held = λ i a l. cc a;
    placed = λ e shown. cc shown;
    read_in_time = λ i a. cc a;
    distinct = λ i j a b. cc a;
  }

  Reached-IsOwned :
      {w : World} (r : Reached json process w) → AreAlone json process r → WorldIsOwned w
  Reached-IsOwned at_start alone = record { own = λ i a. cc a; one_run = λ i j a b same. cc a }
  Reached-IsOwned (after r st) alone = Step-IsOwned st alone.1 (Reached-IsOwned r alone.0)

  Reached-IsLocked :
      {w : World} (r : Reached json process w) → AreAlone json process r → WorldIsLocked w
  Reached-IsLocked at_start alone = start-IsLocked
  Reached-IsLocked (after r st) alone =
      Step-IsLocked st (Reached-IsOwned r alone.0) (Reached-IsLocked r alone.0)

  -- Where the runs of each process take turns: whatever the processes do and however the time passes, two runs
  -- are never under way at once under locks that last, if no two locks have the same value and the deletion of
  -- a release that reads its lock in time arrives in time.
  pub Reached-exclusive :
      {w : World} (r : Reached json process w)
      → AreAlone json process r
      → (i j : ℕ) {u v : Text} {s t : ℕ} → w.phase i ≡ running u s
      → w.now < s + 600000
      → w.phase j ≡ running v t
      → w.now < t + 600000
      → i ≡ j
  Reached-exclusive r alone i j a la b lb =
      exclusive json (Reached-IsLocked r alone) i j (ap lock_of a) la (ap lock_of b) lb

  -- Where the runs of each process take turns: while the lock of a run lasts, an attempt to start another run
  -- is refused, if no two locks have the same value and the deletion of a release that reads its lock in time
  -- arrives in time.
  pub Reached-refuses :
      {w : World} (r : Reached json process w)
      → AreAlone json process r
      → (i : ℕ) {v : Text} {since : ℕ} → w.phase i ≡ running v since
      → w.now < since + 600000
      → (up : Bool) (text : Text) (checker : Checker)
      → (acquire_lock json up w.now text checker w.entries).0 ≡ false
  unfolding acquire_lock set_not_exists
  Reached-refuses r alone i runs lasts false text checker = refl
  Reached-refuses {w} r alone i runs lasts true text checker =
      let inv = Reached-IsLocked r alone in
      (set_nx-taken w.now (json.encode text) w.entries inv.unique
        (inv.held i (ap lock_of runs) lasts)).0
