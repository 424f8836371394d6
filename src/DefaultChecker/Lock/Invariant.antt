-- ===== src/DefaultChecker/Lock/Invariant.antt =====
-- What holds of the lock's entry and the workers, and that each change of them keeps it.
use ziza_lend.Common.{
  ℕ, ◌+◌, ◌≤◌, ◌<◌, ◌≡◌, ◌∙◌, sym, ap, some, inl, inr, Text, ◌==◌, Bool-cases, Option-cases, arith,
}
use ziza_lend.Common.MapLaws.{HasUniqueKeys}
use ziza_lend.KvStore.{MemoryEntry, Entries}
use ziza_lend.KvStore.Spec.{visible}
use ziza_lend.KvStore.Refinement.{view_again}
use ziza_lend.Cache.{Codec}
use ziza_lend.DefaultChecker.Lock.{lock_key, Phase, idle, deleting, put, lock_of}
use ziza_lend.DefaultChecker.Lock.Seen.{entry, seen, entry-visible}

pub visible-same : (now : ℕ) (f e : MemoryEntry) → visible now (some f) ≡ some e → f ≡ e
visible-same now f e h = ground (arith, h)

module _ (json : Codec Text) where
  -- The lock of a run is what the store shows while it lasts; what it shows is the lock of one start,
  -- and a release that waits for its deletion has read it while it lasted.
  pub record IsLocked (now : ℕ) (m : Entries) (worker : ℕ → Phase) : Type 0 where
    pub unique : HasUniqueKeys m
    pub held :
        (i : ℕ) {v : Text} {since : ℕ}
        → lock_of (worker i) ≡ some (v, since)
        → now < since + 600000
        → seen now m ≡ some (entry (json.encode v) since)
    pub placed :
        (e : MemoryEntry)
        → seen now m ≡ some e
        → (u : Text) × (t : ℕ) × (e ≡ entry (json.encode u) t)
          × ((i s : ℕ) → lock_of (worker i) ≡ some (u, s) → s ≡ t)
    pub read_in_time :
        (i : ℕ) {v : Text} {since read_at : ℕ}
        → (worker i) ≡ deleting v since read_at
        → read_at < since + 600000
    pub distinct :
        (i j : ℕ) {v : Text} {s t : ℕ}
        → lock_of (worker i) ≡ some (v, s)
        → lock_of (worker j) ≡ some (v, t)
        → i ≡ j

  pub encode_injective : (u v : Text) → json.encode u ≡ json.encode v → u ≡ v
  encode_injective u v e = cc (json.decode-encode u, json.decode-encode v, ap json.decode e)

  pub exclusive :
      {now : ℕ} {m : Entries} {worker : ℕ → Phase}
      → IsLocked now m worker
      → (i j : ℕ) {u v : Text} {s t : ℕ} → lock_of (worker i) ≡ some (u, s)
      → now < s + 600000
      → lock_of (worker j) ≡ some (v, t)
      → now < t + 600000
      → i ≡ j
  exclusive inv i j {u} {v} a la b lb =
      let same : json.encode u ≡ json.encode v = cc (inv.held i a la, inv.held j b lb) in
      inv.distinct i j (rw (encode_injective u v same) at a) b

  -- Time passes.
  pub wait-IsLocked :
      {now : ℕ} {m : Entries} {worker : ℕ → Phase} (later : ℕ)
      → now ≤ later
      → IsLocked now m worker
      → IsLocked later m worker
  wait-IsLocked {now} {m} {worker} later h inv = record {
    unique = inv.unique;
    held = λ i {v} {since} a l.
        sym (view_again now later m lock_key h)
        ∙ ap (visible later) (inv.held i a (omega arith))
        ∙ entry-visible later since (json.encode v) l;
    placed = λ e shown. earlier e (view_again now later m lock_key h ∙ shown);
    read_in_time = inv.read_in_time;
    distinct = inv.distinct;
  }
    where
      earlier :
          (e : MemoryEntry)
          → visible later (seen now m) ≡ some e
          → (u : Text) × (t : ℕ) × (e ≡ entry (json.encode u) t)
            × ((i s : ℕ) → lock_of (worker i) ≡ some (u, s) → s ≡ t)
      earlier e shown = elim (Option-cases (seen now m)) [
        | inl absent ↦ absurd (cc (rw absent at shown))
        | inr (f, there) ↦
            let (u, t, is, owner) = inv.placed f there in
            (u, t, sym (visible-same later f e (rw there at shown)) ∙ is, owner)
      ]

  -- Other parts of the program use the store.
  pub used-IsLocked :
      {now : ℕ} {m m' : Entries} {worker : ℕ → Phase}
      → HasUniqueKeys m'
      → seen now m' ≡ seen now m
      → IsLocked now m worker
      → IsLocked now m' worker
  used-IsLocked u same inv = record {
    unique = u;
    held = λ i a l. same ∙ inv.held i a l;
    placed = λ e shown. inv.placed e (sym same ∙ shown);
    read_in_time = inv.read_in_time;
    distinct = inv.distinct;
  }

  -- A run that is idle afterwards gives up its lock.
  pub idle-IsLocked :
      {now : ℕ} {m : Entries} {worker : ℕ → Phase} (i : ℕ)
      → IsLocked now m worker
      → IsLocked now m (put worker i idle)
  idle-IsLocked {now} {m} {worker} i inv = record {
    unique = inv.unique;
    held = λ j a l. inv.held j (was j a) l;
    placed = λ f shown.
        let (u, t, is, owner) = inv.placed f shown in (u, t, is, λ j s a. owner j s (was j a));
    read_in_time = λ j {v} {since} {read_at} a. elim (Bool-cases (j == i)) [
      | inl this ↦ absurd (cc (rw this at a))
      | inr other ↦ inv.read_in_time j (rw other at a)
    ];
    distinct = λ j k a b. inv.distinct j k (was j a) (was k b);
  }
    where
      was :
          (j : ℕ) {l : Text × ℕ}
          → lock_of (put worker i idle j) ≡ some l
          → lock_of (worker j) ≡ some l
      was j a = elim (Bool-cases (j == i)) [
        | inl this ↦ absurd (cc (rw this at a))
        | inr other ↦ rw other at a
      ]
