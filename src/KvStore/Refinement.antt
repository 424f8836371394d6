-- ===== src/KvStore/Refinement.antt =====
-- The in-process store implements the contract of `Spec`: an expired entry is never seen, whether
-- or not it was reclaimed.
use ziza_lend.Common.{
  ℕ, ◌≤◌, ◌≡◌, refl, sym, ◌∙◌, none, some, List, [], ◌∷◌, arith, Text, text_eq_iff, Option-cases,
  inl, inr, true,
}
use ziza_lend.Common.Map.{map_get, map_set, map_delete}
use ziza_lend.Common.MapLaws.{
  map_get-map_set, map_get-map_delete, HasUniqueKeys, map_set-HasUniqueKeys,
  map_delete-HasUniqueKeys,
}
use ziza_lend.KvStore.{MemoryEntry, Entries, expiry_from, is_expired, live, sweep, del}
use ziza_lend.KvStore.Spec.{Contents, visible, view, update, remove_all, Command, run, spec, fresh}

-- What has expired stays expired.
pub is_expired_mono :
    (now later : ℕ) (e : MemoryEntry)
    → now ≤ later
    → is_expired now e ≡ true
    → is_expired later e ≡ true
unfolding is_expired
is_expired_mono now later e h x = ground arith

pub live-view : (now : ℕ) (key : Text) (m : Entries) → (live now key m).0 ≡ view now m key
unfolding live
live-view now key m = ground arith

pub view-live :
    (now later : ℕ) (key j : Text) (m : Entries)
    → now ≤ later
    → view later (live now key m).1 j ≡ view later m j
unfolding live
view-live now later key j m h = elim (Option-cases (map_get key m)) [
  | inl absent ↦ ground arith
  | inr (e, there) ↦
      ground (arith, map_get-map_delete key j m, text_eq_iff j key, is_expired_mono now later e h)
]

map_get-sweep :
    (now : ℕ) (k : Text) (m : Entries) → map_get k m ≡ none → map_get k (sweep now m) ≡ none
unfolding sweep map_get
map_get-sweep now k [] h = refl
map_get-sweep now k ((i, e) ∷ m) h = ground (arith, map_get-sweep now k m)

view-sweep :
    (now later : ℕ) (j : Text) (m : Entries)
    → now ≤ later
    → HasUniqueKeys m
    → view later (sweep now m) j ≡ view later m j
unfolding sweep map_get
view-sweep now later j [] h u = refl
view-sweep now later j ((k, e) ∷ m) h u = ground (
  arith,
  text_eq_iff j k,
  is_expired_mono now later e h,
  view-sweep now later j m h u.1,
  map_get-sweep now k m u.0,
)

sweep-HasUniqueKeys : (now : ℕ) (m : Entries) → HasUniqueKeys m → HasUniqueKeys (sweep now m)
unfolding sweep
sweep-HasUniqueKeys now [] u = tt
sweep-HasUniqueKeys now ((k, e) ∷ m) u =
    ground (arith, sweep-HasUniqueKeys now m u.1, map_get-sweep now k m u.0)

live-HasUniqueKeys :
    (now : ℕ) (key : Text) (m : Entries) → HasUniqueKeys m → HasUniqueKeys (live now key m).1
unfolding live
live-HasUniqueKeys now key m u = ground (arith, map_delete-HasUniqueKeys key m u)

del-HasUniqueKeys : (ks : List Text) (m : Entries) → HasUniqueKeys m → HasUniqueKeys (del ks m)
unfolding del
del-HasUniqueKeys [] m u = u
del-HasUniqueKeys (k ∷ ks) m u =
    del-HasUniqueKeys ks (map_delete k m) (map_delete-HasUniqueKeys k m u)

pub view_again :
    (now later : ℕ) (m : Entries) (j : Text)
    → now ≤ later
    → visible later (view now m j) ≡ view later m j
view_again now later m j h = elim (Option-cases (map_get j m)) [
  | inl absent ↦ ground arith
  | inr (e, there) ↦ ground (arith, is_expired_mono now later e h)
]

-- The map shows at a time what the contents do.
abbrev pub Shows : ℕ → Entries → Contents → Type 0
Shows later m c = (j : Text) → view later m j ≡ visible later (c j)

pub live-Shows :
    (now later : ℕ) (k : Text) (m : Entries)
    → now ≤ later
    → Shows later (live now k m).1 (view now m)
live-Shows now later k m h j = view-live now later k j m h ∙ sym (view_again now later m j h)

pub map_set-Shows :
    (later : ℕ) (k : Text) (e : MemoryEntry) (m : Entries) (c : Contents)
    → Shows later m c
    → Shows later (map_set k e m) (update c k (some e))
map_set-Shows later k e m c h j = rw map_get-map_set (ground (arith, h j))

del-Shows :
    (later : ℕ) (ks : List Text) (m : Entries) (c : Contents)
    → Shows later m c
    → Shows later (del ks m) (remove_all ks c)
unfolding del
del-Shows later [] m c h = h
del-Shows later (k ∷ ks) m c h =
    del-Shows later ks (map_delete k m) (update c k none)
      (λ j. rw map_get-map_delete (ground (arith, h j)))

-- One call: the reply is the contract's, and so is what is seen from then on.
abbrev pub Refines : ℕ → Command → Entries → Type 0
Refines now cmd m =
    ((run now cmd m).0 ≡ (spec now cmd (view now m)).0)
    × ((later : ℕ) → now ≤ later → Shows later (run now cmd m).1 (spec now cmd (view now m)).1)
    × HasUniqueKeys (run now cmd m).1

pub run-Refines : (now : ℕ) (cmd : Command) (m : Entries) → HasUniqueKeys m → Refines now cmd m
unfolding run spec map_get
run-Refines now (Command.get_key k) m u = (
  ground (arith, live-view now k m),
  λ later h. live-Shows now later k m h,
  live-HasUniqueKeys now k m u,
)
run-Refines now (Command.set_key k v t) m u = (
  refl,
  λ later h. map_set-Shows later k _ m (view now m) (λ j. sym (view_again now later m j h)),
  map_set-HasUniqueKeys k _ m u,
)
run-Refines now (Command.set_nx_key k v t) m u =
    let at : (live now k m).0 ≡ view now m k = live-view now k m in
    elim (Option-cases (view now m k)) [
      | inl absent ↦ (
        ground arith,
        λ later h j. ground (
          arith,
          map_set-Shows later k (fresh now v t) (live now k m).1 (view now m)
              (live-Shows now later k m h) j,
        ),
        ground (
          arith,
          map_set-HasUniqueKeys k (fresh now v t) (live now k m).1 (live-HasUniqueKeys now k m u),
        ),
      )
      | inr (e, there) ↦ (
        ground arith,
        λ later h j. ground (arith, live-Shows now later k m h j),
        ground (arith, live-HasUniqueKeys now k m u),
      )
    ]
run-Refines now (Command.del_keys ks) m u = (
  refl,
  λ later h. del-Shows later ks m (view now m) (λ j. sym (view_again now later m j h)),
  del-HasUniqueKeys ks m u,
)
run-Refines now (Command.incr_key k) m u = (
  ground (arith, live-view now k m),
  λ later h.
      rw (← live-view now k m)
        (map_set-Shows later k _ _ (view now m) (live-Shows now later k m h)),
  map_set-HasUniqueKeys k _ _ (live-HasUniqueKeys now k m u),
)
run-Refines now (Command.expire_key k t) m u =
    let at : (live now k m).0 ≡ view now m k = live-view now k m in
    elim (Option-cases (view now m k)) [
      | inl absent ↦ (
        ground arith,
        λ later h j. ground (arith, live-Shows now later k m h j),
        ground (arith, live-HasUniqueKeys now k m u),
      )
      | inr (e, there) ↦ (
        ground arith,
        λ later h j. ground (
          arith,
          map_set-Shows later k (record e { expires_at = expiry_from now t }) (live now k m).1
              (view now m) (live-Shows now later k m h) j,
        ),
        ground (
          arith,
          map_set-HasUniqueKeys k (record e { expires_at = expiry_from now t }) (live now k m).1
              (live-HasUniqueKeys now k m u),
        ),
      )
    ]
run-Refines now (Command.ttl_key k) m u = (
  ground (arith, live-view now k m),
  λ later h. live-Shows now later k m h,
  live-HasUniqueKeys now k m u,
)
run-Refines now Command.sweep_all m u = (
  refl,
  λ later h j. view-sweep now later j m h u ∙ sym (view_again now later m j h),
  sweep-HasUniqueKeys now m u,
)
run-Refines now Command.close_all m u = (refl, λ later h j. refl, tt)
