-- ===== src/DefaultChecker/Lock/Seen.antt =====
-- What is seen under the lock's key after each call of the store.
use ziza_lend.Common.{
  ℕ, ◌+◌, ◌<◌, ◌≡◌, ◌∙◌, refl, ap, Bool, true, false, not, Option, none, some, List, [], ◌∷◌, inl,
  inr, Text, text_eq, text_eq_iff, all, Bool-cases, Option-cases, arith,
}
use ziza_lend.Common.MapLaws.{HasUniqueKeys}
use ziza_lend.KvStore.{MemoryEntry, Entries, expiry_from, is_expired, get, set_nx, del}
use ziza_lend.KvStore.Spec.{
  Contents, visible, view, update, remove_all, Command, flag, run, spec, fresh,
}
use ziza_lend.KvStore.Refinement.{view_again, run-Refines}
use ziza_lend.Cache.{Codec, stored_value, read_match}
use ziza_lend.DefaultChecker.Lock.{lock_key, lock_ttl_seconds, Spares}

-- The entry of a lock, and when it is seen.
abbrev pub entry : Text → ℕ → MemoryEntry
entry text since = fresh since text lock_ttl_seconds

pub entry-visible :
    (now since : ℕ) (text : Text)
    → now < since + 600000
    → visible now (some (entry text since)) ≡ some (entry text since)
unfolding is_expired expiry_from
entry-visible now since text h = ground (arith, h)

pub visible-lasts :
    (now since : ℕ) (text : Text) (e : MemoryEntry)
    → visible now (some (entry text since)) ≡ some e
    → now < since + 600000
unfolding is_expired expiry_from
visible-lasts now since text e h = ground (arith, h)

-- What is seen under the lock's key.
abbrev pub seen : ℕ → Entries → Option MemoryEntry
seen now m = view now m lock_key

remove_all-spares :
    (ks : List Text) (c : Contents)
    → all (λ k. not (text_eq lock_key k)) ks ≡ true
    → remove_all ks c lock_key ≡ c lock_key
remove_all-spares [] c h = refl
remove_all-spares (k ∷ ks) c h = elim (Bool-cases (text_eq lock_key k)) [
  | inl same ↦ ground (arith, same, h)
  | inr other ↦ remove_all-spares ks (update c k none) (ground (arith, other, h)) ∙ rw other refl
]

spec-Spares :
    (now : ℕ) (cmd : Command) (c : Contents) → Spares cmd → (spec now cmd c).1 lock_key ≡ c lock_key
unfolding spec
spec-Spares now (Command.get_key k) c h = refl
spec-Spares now (Command.set_key k v t) c h = rw h refl
spec-Spares now (Command.set_nx_key k v t) c h = elim (Option-cases (c k)) [
  | inl e ↦ ground (arith, e, h)
  | inr (x, e) ↦ ground (arith, e)
]
spec-Spares now (Command.del_keys ks) c h = remove_all-spares ks c h
spec-Spares now (Command.incr_key k) c h = rw h refl
spec-Spares now (Command.expire_key k t) c h = elim (Option-cases (c k)) [
  | inl e ↦ ground (arith, e)
  | inr (x, e) ↦ ground (arith, e, h)
]
spec-Spares now (Command.ttl_key k) c h = refl
spec-Spares now Command.sweep_all c h = refl
spec-Spares now Command.close_all c h = absurd h

run-seen :
    (now : ℕ) (cmd : Command) (m : Entries)
    → HasUniqueKeys m
    → seen now (run now cmd m).1 ≡ visible now ((spec now cmd (view now m)).1 lock_key)
run-seen now cmd m u = (run-Refines now cmd m u).1 now (omega arith) lock_key

pub run-Spares :
    (now : ℕ) (cmd : Command) (m : Entries)
    → HasUniqueKeys m
    → Spares cmd
    → seen now (run now cmd m).1 ≡ seen now m
run-Spares now cmd m u h =
    run-seen now cmd m u
    ∙ ap (visible now) (spec-Spares now cmd (view now m) h)
    ∙ view_again now now m lock_key (omega arith)

-- The start of a lock, where none is seen and where one is.
abbrev start_lock : ℕ → Text → Command
start_lock now text = Command.set_nx_key lock_key text lock_ttl_seconds

spec-free :
    (now : ℕ) (text : Text) (c : Contents)
    → c lock_key ≡ none
    → spec now (start_lock now text) c ≡ (flag true, update c lock_key (some (entry text now)))
unfolding spec
spec-free now text c h = rw (h, spec) refl

spec-taken :
    (now : ℕ) (text : Text) (c : Contents) {e : MemoryEntry}
    → c lock_key ≡ some e
    → spec now (start_lock now text) c ≡ (flag false, c)
unfolding spec
spec-taken now text c h = rw (h, spec) refl

pub set_nx-free :
    (now : ℕ) (text : Text) (m : Entries)
    → HasUniqueKeys m
    → seen now m ≡ none
    → ((set_nx now lock_key text lock_ttl_seconds m).0 ≡ true)
      × (seen now (set_nx now lock_key text lock_ttl_seconds m).1 ≡ some (entry text now))
unfolding run text_eq
set_nx-free now text m u h = (
  cc ((run-Refines now (start_lock now text) m u).0, spec-free now text (view now m) h),
  run-seen now (start_lock now text) m u
      ∙ ap (λ r. visible now (r.1 lock_key)) (spec-free now text (view now m) h)
      ∙ entry-visible now now text (omega arith),
)

pub set_nx-taken :
    (now : ℕ) (text : Text) (m : Entries) {e : MemoryEntry}
    → HasUniqueKeys m
    → seen now m ≡ some e
    → ((set_nx now lock_key text lock_ttl_seconds m).0 ≡ false)
      × (seen now (set_nx now lock_key text lock_ttl_seconds m).1 ≡ seen now m)
unfolding run
set_nx-taken now text m u h = (
  cc ((run-Refines now (start_lock now text) m u).0, spec-taken now text (view now m) h),
  run-seen now (start_lock now text) m u
      ∙ ap (λ r. visible now (r.1 lock_key)) (spec-taken now text (view now m) h)
      ∙ view_again now now m lock_key (omega arith),
)

pub set_nx-HasUniqueKeys :
    (now : ℕ) (text : Text) (m : Entries)
    → HasUniqueKeys m
    → HasUniqueKeys (set_nx now lock_key text lock_ttl_seconds m).1
unfolding run
set_nx-HasUniqueKeys now text m u = (run-Refines now (start_lock now text) m u).2

pub get-seen :
    (now : ℕ) (m : Entries) → HasUniqueKeys m → seen now (get now lock_key m).1 ≡ seen now m
unfolding run
get-seen now m u = run-Spares now (Command.get_key lock_key) m u tt

pub get-value :
    (now : ℕ) (m : Entries)
    → HasUniqueKeys m
    → (get now lock_key m).0
      ≡ (elim (seen now m) as (λ _. Option Text) [ none ↦ none | some e ↦ some e.value ])
unfolding run spec
get-value now m u = cc ((run-Refines now (Command.get_key lock_key) m u).0)

pub get-HasUniqueKeys :
    (now : ℕ) (m : Entries) → HasUniqueKeys m → HasUniqueKeys (get now lock_key m).1
unfolding run
get-HasUniqueKeys now m u = (run-Refines now (Command.get_key lock_key) m u).2

pub del-seen : (now : ℕ) (m : Entries) → HasUniqueKeys m → seen now (del (lock_key ∷ []) m) ≡ none
unfolding run spec
del-seen now m u =
    run-seen now (Command.del_keys (lock_key ∷ [])) m u ∙ rw (text_eq_iff lock_key lock_key).1 refl

pub del-HasUniqueKeys :
    (now : ℕ) (m : Entries) → HasUniqueKeys m → HasUniqueKeys (del (lock_key ∷ []) m)
unfolding run
del-HasUniqueKeys now m u = (run-Refines now (Command.del_keys (lock_key ∷ [])) m u).2

-- The comparison of a release.
module _ (json : Codec Text) where
  abbrev pub matches : Text → Option Text → Bool
  matches v none = false
  matches v (some stored) = text_eq (stored_value json stored) v

  pub read_match-value :
      (now : ℕ) (m : Entries) (v : Text)
      → (read_match json true now lock_key v m).0 ≡ matches v (get now lock_key m).0
  unfolding read_match
  read_match-value now m v = elim (Option-cases (get now lock_key m).0) [
    | inl absent ↦ rw absent refl
    | inr (stored, there) ↦ rw there refl
  ]

  pub stored_value-encode : (u : Text) → stored_value json (json.encode u) ≡ u
  unfolding stored_value
  stored_value-encode u = rw (json.decode-encode u, stored_value) refl
