-- ===== src/DefaultChecker/Lock/Moves.antt =====
-- The invariant of the lock under the steps that start a run and release its lock.
use ziza_lend.Common.{
  ℕ, ◌+◌, ◌<◌, ◌≡◌, ◌≢◌, ◌∙◌, sym, ap, none, some, [], ◌∷◌, inl, inr, Text, ◌==◌, ==_iff,
  Bool-cases, arith,
}
use ziza_lend.Common.MapLaws.{HasUniqueKeys}
use ziza_lend.KvStore.{Entries, del}
use ziza_lend.Cache.{Codec}
use ziza_lend.DefaultChecker.Lock.{Phase, lock_key, idle, running, deleting, put, lock_of}
use ziza_lend.DefaultChecker.Lock.Seen.{entry, seen, del-seen, del-HasUniqueKeys}
use ziza_lend.DefaultChecker.Lock.Invariant.{IsLocked, exclusive, idle-IsLocked}

module _ (json : Codec Text) where
  -- A worker that starts while no lock is seen.
  pub begin-IsLocked :
      {now : ℕ} {m m' : Entries} {worker : ℕ → Phase} (i : ℕ) (text : Text)
      → HasUniqueKeys m'
      → seen now m ≡ none
      → seen now m' ≡ some (entry (json.encode text) now)
      → ((j since : ℕ) → lock_of (worker j) ≢ some (text, since))
      → IsLocked json now m worker
      → IsLocked json now m' (put worker i (running text now))
  begin-IsLocked {now} {m} {m'} {worker} i text u free shown new inv = record {
    unique = u;
    held = held_now;
    placed = λ e there. (text, now, cc (shown, there), owner);
    read_in_time = λ j {v} {since} {read_at} a. elim (Bool-cases (j == i)) [
      | inl this ↦ absurd (cc (rw this at a))
      | inr other ↦ inv.read_in_time j (rw other at a)
    ];
    distinct = distinct_now;
  }
    where
      w : Phase
      w = running text now

      held_now :
          (j : ℕ) {v : Text} {since : ℕ}
          → lock_of (put worker i w j) ≡ some (v, since)
          → now < since + 600000
          → seen now m' ≡ some (entry (json.encode v) since)
      held_now j {v} {since} a l = elim (Bool-cases (j == i)) [
        | inl this ↦ let mine = rw this at a in shown ∙ cc mine
        | inr other ↦ absurd (cc (inv.held j (rw other at a) l, free))
      ]

      owner : (j s : ℕ) → lock_of (put worker i w j) ≡ some (text, s) → s ≡ now
      owner j s a = elim (Bool-cases (j == i)) [
        | inl this ↦ let mine = rw this at a in cc mine
        | inr other ↦ absurd (new j s (rw other at a))
      ]

      distinct_now :
          (j k : ℕ) {v : Text} {s t : ℕ}
          → lock_of (put worker i w j) ≡ some (v, s)
          → lock_of (put worker i w k) ≡ some (v, t)
          → j ≡ k
      distinct_now j k {v} {s} {t} a b = elim (Bool-cases (j == i)) [
        | inl j_this ↦ elim (Bool-cases (k == i)) [
          | inl k_this ↦ (==_iff j i).0 j_this ∙ sym ((==_iff k i).0 k_this)
          | inr other ↦ let mine = rw j_this at a in absurd (new k t (rw other at b ∙ cc mine))
        ]
        | inr j_other ↦ elim (Bool-cases (k == i)) [
          | inl k_this ↦ let mine = rw k_this at b in absurd (new j s (rw j_other at a ∙ cc mine))
          | inr other ↦ inv.distinct j k (rw j_other at a) (rw other at b)
        ]
      ]

  -- A release that has read the lock of its own run.
  pub read-IsLocked :
      {now : ℕ} {m : Entries} {worker : ℕ → Phase} (i : ℕ) {v : Text} {since : ℕ}
      → (worker i) ≡ running v since
      → now < since + 600000
      → IsLocked json now m worker
      → IsLocked json now m (put worker i (deleting v since now))
  read-IsLocked {now} {m} {worker} i {v} {since} runs lasts inv = record {
    unique = inv.unique;
    held = λ j a l. inv.held j (was j a) l;
    placed = λ f shown.
        let (u, t, is, owner) = inv.placed f shown in (u, t, is, λ j s a. owner j s (was j a));
    read_in_time = in_time;
    distinct = λ j k a b. inv.distinct j k (was j a) (was k b);
  }
    where
      was :
          (j : ℕ) {l : Text × ℕ}
          → lock_of (put worker i (deleting v since now) j) ≡ some l
          → lock_of (worker j) ≡ some l
      was j a = elim (Bool-cases (j == i)) [
        | inl this ↦
            ap (λ k. lock_of (worker k)) ((==_iff j i).0 this) ∙ ap lock_of runs ∙ rw this at a
        | inr other ↦ rw other at a
      ]

      in_time :
          (j : ℕ) {u : Text} {s read_at : ℕ}
          → (put worker i (deleting v since now) j) ≡ deleting u s read_at
          → read_at < s + 600000
      in_time j {u} {s} {read_at} a = elim (Bool-cases (j == i)) [
        | inl this ↦ let mine = rw this at a in ground (arith, mine, lasts)
        | inr other ↦ inv.read_in_time j (rw other at a)
      ]

  -- The deletion of a lock that lasts.
  pub delete-IsLocked :
      {now : ℕ} {m : Entries} {worker : ℕ → Phase} (i : ℕ) {v : Text} {since read_at : ℕ}
      → (worker i) ≡ deleting v since read_at
      → now < since + 600000
      → IsLocked json now m worker
      → IsLocked json now (del (lock_key ∷ []) m) (put worker i idle)
  delete-IsLocked {now} {m} {worker} i {v} {since} waits lasts inv = record {
    unique = del-HasUniqueKeys now m inv.unique;
    held = λ j {v = u} {since = s} a l. absurd (elsewhere j u s a l);
    placed = λ e shown. absurd (cc (del-seen now m inv.unique, shown));
    read_in_time = gone.read_in_time;
    distinct = gone.distinct;
  }
    where
      gone : IsLocked json now m (put worker i idle)
      gone = idle-IsLocked json i inv

      elsewhere :
          (j : ℕ) (u : Text) (s : ℕ)
          → lock_of (put worker i idle j) ≡ some (u, s)
          → now < s + 600000
          → ⊥
      elsewhere j u s a l = elim (Bool-cases (j == i)) [
        | inl this ↦ cc (rw this at a)
        | inr other ↦ cc (
          (==_iff j i).1 (exclusive json inv j i (rw other at a) l (ap lock_of waits) lasts),
          other,
        )
      ]
