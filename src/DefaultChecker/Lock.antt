-- ===== src/DefaultChecker/Lock.antt =====
-- The lock of backend/src/services/defaultChecker.ts: `acquireLock`, `releaseLock`, and any number of
-- runs of any number of processes that share a store. A process has one checker, whose field all its runs
-- share. The store's clock is `now`; a release is two calls of the store, and other runs may act between
-- them.
pub mod Seen
pub mod Invariant
pub mod Owner
pub mod Moves
pub mod Exclusion
use ziza_lend.Common.{
  ℕ, ◌+◌, ◌≤◌, ◌<◌, ◌≡◌, ◌≢◌, Bool, true, false, Option, none, some, [], ◌∷◌, if◌then◌else◌, Text,
  text_eq, codes, ◌==◌, all, not,
}
use ziza_lend.KvStore.{Entries, del}
use ziza_lend.KvStore.Spec.{Command, run}
use ziza_lend.Cache.{Codec, set_not_exists, read_match}

abbrev pub lock_key : Text
lock_key = codes "default_checker:running"

abbrev pub lock_ttl_seconds : ℕ
lock_ttl_seconds = 600

-- The field `currentLockValue` of a process.
abbrev pub Checker : Type 0
Checker = Option Text

-- Whether a run is under way, with the value of its lock and the time of its start, or its release waits
-- for the deletion: the time of its read comes last.
pub data Phase : Type 0 where
  idle : Phase
  running : Text → ℕ → Phase
  deleting : Text → ℕ → (read_at : ℕ) → Phase

pub record World : Type 0 where
  pub now : ℕ
  pub entries : Entries
  pub phase : ℕ → Phase
  pub checker : ℕ → Checker

abbrev pub put : {A : Type 0} → (ℕ → A) → ℕ → A → ℕ → A
put family i x j = if j == i then x else family j

-- A lock that a run holds, or is about to delete.
abbrev pub lock_of : Phase → Option (Text × ℕ)
lock_of idle = none
lock_of (running v since) = some (v, since)
lock_of (deleting v since read_at) = some (v, since)

-- A call of the store by another part of the program, which leaves the lock's key alone.
abbrev pub Spares : Command → Type 0
Spares (Command.get_key k) = Unit
Spares (Command.set_key k v t) = text_eq lock_key k ≡ false
Spares (Command.set_nx_key k v t) = text_eq lock_key k ≡ false
Spares (Command.del_keys ks) = all (λ k. not (text_eq lock_key k)) ks ≡ true
Spares (Command.incr_key k) = text_eq lock_key k ≡ false
Spares (Command.expire_key k t) = text_eq lock_key k ≡ false
Spares (Command.ttl_key k) = Unit
Spares Command.sweep_all = Unit
Spares Command.close_all = ⊥

abbrev pub start : World
start = record { now = 0; entries = []; phase = λ i. idle; checker = λ i. none }

module _ (json : Codec Text) where
  -- The value is made of the time and a random number.
  unfoldable pub acquire_lock : Bool → ℕ → Text → Checker → Entries → Bool × Checker × Entries
  unfolding set_not_exists
  acquire_lock up now lock_value checker m =
      let (acquired, m') = set_not_exists json up now lock_key lock_value lock_ttl_seconds m in
      (acquired, if acquired then some lock_value else checker, m')

  -- `releaseLock` up to the read of `deleteIfMatch`: whether the deletion follows.
  unfoldable pub release_read : Bool → ℕ → Checker → Entries → Bool × Entries
  unfolding read_match
  release_read up now none m = (false, m)
  release_read up now (some value) m = read_match json up now lock_key value m

  -- The deletion; an error of the store is swallowed.
  unfoldable pub release_del : Bool → Entries → Entries
  unfolding del
  release_del up m = if up then del (lock_key ∷ []) m else m

  module _ (process : ℕ → ℕ) where
    -- The start of a run, and what is left of it where the lock is refused.
    unfoldable pub begin : ℕ → Bool → Text → World → World
    unfolding acquire_lock
    begin i up lock_value w =
        let (acquired, field, m) =
          acquire_lock up w.now lock_value (w.checker (process i)) w.entries in
        let phase = if acquired then running lock_value w.now else idle in
        record w {
          entries = m;
          phase = put w.phase i phase;
          checker = put w.checker (process i) field;
        }

    -- The read of a release: it compares the lock with the field, whichever run has set it, and clears the field.
    unfoldable pub finish : ℕ → Bool → Text → ℕ → World → World
    unfolding release_read
    finish i up v since w =
        let (same, m) = release_read up w.now (w.checker (process i)) w.entries in
        let phase = if same then deleting v since w.now else idle in
        record w {
          entries = m;
          phase = put w.phase i phase;
          checker = put w.checker (process i) none;
        }

    unfoldable pub delete_lock : ℕ → Bool → World → World
    unfolding release_del
    delete_lock i up w = record w { entries = release_del up w.entries; phase = put w.phase i idle }

    -- The steps. A run begins whatever the other runs of its process do; the value of a new lock is none
    -- that a run holds. Where a release reads the lock while it
    -- lasts, the deletion arrives while it lasts.
    pub data Step : World → World → Type 0 where
      time_passes : (w : World) (later : ℕ) → w.now ≤ later → Step w (record w { now = later })
      store_used :
          (w : World) (cmd : Command)
          → Spares cmd
          → Step w (record w { entries = (run w.now cmd w.entries).1 })
      begins :
          (w : World) (i : ℕ) (up : Bool) (lock_value : Text)
          → w.phase i ≡ idle
          → ((j since : ℕ) → lock_of (w.phase j) ≢ some (lock_value, since))
          → Step w (begin i up lock_value w)
      finishes :
          (w : World) (i : ℕ) (up : Bool) {v : Text} {since : ℕ}
          → w.phase i ≡ running v since
          → Step w (finish i up v since w)
      deletes :
          (w : World) (i : ℕ) (up : Bool) {v : Text} {since read_at : ℕ}
          → w.phase i ≡ deleting v since read_at
          → (read_at < since + 600000 → w.now < since + 600000)
          → Step w (delete_lock i up w)

    pub data Reached : World → Type 0 where
      at_start : Reached start
      after : {w v : World} → Reached w → Step w v → Reached v

    -- A process that starts a run has no other one under way.
    abbrev pub IsAlone : {w v : World} → Step w v → Type 0
    IsAlone (time_passes w later h) = Unit
    IsAlone (store_used w cmd h) = Unit
    IsAlone (begins w i up lock_value waits new) =
        (j : ℕ) (v : Text) (since : ℕ) → process j ≡ process i → w.phase j ≢ running v since
    IsAlone (finishes w i up runs) = Unit
    IsAlone (deletes w i up waits prompt) = Unit

    -- The scheduler and the admin route of a process take turns.
    abbrev pub AreAlone : {w : World} → Reached w → Type 0
    AreAlone at_start = Unit
    AreAlone (after r st) = AreAlone r × IsAlone st
