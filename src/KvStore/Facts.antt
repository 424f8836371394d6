-- ===== src/KvStore/Facts.antt =====
-- Whole histories of calls, lifetimes, counters and the listing of keys.
use mathlib.Core.Path.{fun_ext}
use ziza_lend.Common.{
  ℕ, ◌+◌, ◌*◌, ◌≤◌, ◌≡◌, refl, ap, none, some, Option, List, [], ◌∷◌, arith, Text, ltb, leb,
  text_eq, text_eq_iff, text_eq_refl, Bool, false, ◌&&◌, if◌then◌else◌, is_some, any,
}
use ziza_lend.Common.Map.{map_get, map_keys}
use ziza_lend.Common.MapLaws.{map_get-map_set, HasUniqueKeys}
use ziza_lend.Common.Int.{pos, ◌+ℤ◌}
use ziza_lend.Common.Js.{int_text, parse_int-int_text}
use ziza_lend.KvStore.{
  MemoryEntry, Entries, expiry_from, is_expired, live, get, set, incr, keys_from, keys, counter_of,
  expiry_of,
}
use ziza_lend.KvStore.Glob.{glob_match}
use ziza_lend.KvStore.Spec.{Contents, visible, view, fresh, Command, Reply, run, spec}
use ziza_lend.KvStore.Refinement.{Shows, run-Refines, live-view, view-live}

-- A history of calls, each at its time, against the store and against the contract.
unfoldable pub run_all : List (ℕ × Command) → Entries → List Reply
run_all [] m = []
run_all ((now, cmd) ∷ rest) m = let (r, m') = run now cmd m in r ∷ run_all rest m'

unfoldable pub spec_all : List (ℕ × Command) → Contents → List Reply
spec_all [] c = []
spec_all ((now, cmd) ∷ rest) c =
    let (r, c') = spec now cmd (λ k. visible now (c k)) in r ∷ spec_all rest c'

-- The clock does not go back.
abbrev pub IsOrdered : ℕ → List (ℕ × Command) → Type 0
IsOrdered t [] = Unit
IsOrdered t ((now, cmd) ∷ rest) = (t ≤ now) × IsOrdered now rest

run_all-from :
    (t : ℕ) (cs : List (ℕ × Command)) (m : Entries) (c : Contents)
    → IsOrdered t cs
    → HasUniqueKeys m
    → ((later : ℕ) → t ≤ later → Shows later m c)
    → run_all cs m ≡ spec_all cs c
unfolding run_all spec_all
run_all-from t [] m c o u h = refl
run_all-from t ((now, cmd) ∷ rest) m c o u h =
    let (reply, later_view, unique) = run-Refines now cmd m u in
    let same : view now m ≡ (λ k. visible now (c k)) = fun_ext (h now o.0) in
    rw (← same, reply)
      (ap (◌∷◌ (spec now cmd (view now m)).0)
        (run_all-from now rest (run now cmd m).1 _ o.1 unique later_view))

-- Any history of calls on an empty store, at times that do not go back, gets the replies of the
-- contract.
pub run_all-refines :
    (cs : List (ℕ × Command)) → IsOrdered 0 cs → run_all cs [] ≡ spec_all cs (λ k. none)
unfolding map_get
run_all-refines cs o = run_all-from 0 cs [] (λ k. none) o tt (λ later h j. refl)

-- A value that is set is read back until its lifetime has passed, and never after; with a
-- lifetime of 0 it is read back for ever.
pub get-set :
    (now later lifetime : ℕ) (k v : Text) (m : Entries)
    → now ≤ later
    → (get later k (set now k v lifetime m)).0
      ≡ (if ltb 0 lifetime && leb (now + lifetime * 1000) later then none else some v)
unfolding get set live is_expired expiry_from
get-set now later lifetime k v m h =
    ground (arith, map_get-map_set k k (fresh now v lifetime) m, text_eq_iff k k)

incr-reply :
    (now : ℕ) (k : Text) (m : Entries) → (incr now k m).0 ≡ counter_of (view now m k) +ℤ pos 1
unfolding incr
incr-reply now k m = ap (λ e. counter_of e +ℤ pos 1) (live-view now k m)

pub not_expired :
    (now : ℕ) (v : Text) (o : Option MemoryEntry)
    → is_expired now (record { value = v; expires_at = expiry_of (visible now o) }) ≡ false
unfolding is_expired expiry_of
not_expired now v none = refl
not_expired now v (some e) = ground arith

-- The entry that `incr` writes is seen: it expires when the one before it does.
pub view-incr :
    (now : ℕ) (k : Text) (m : Entries)
    → view now (incr now k m).1 k
      ≡ some (record {
        value = int_text (counter_of (view now m k) +ℤ pos 1);
        expires_at = expiry_of (view now m k);
      })
unfolding incr
view-incr now k m = rw (
  live-view now k m,
  map_get-map_set,
  text_eq_refl,
  not_expired now (int_text (counter_of (view now m k) +ℤ pos 1)) (map_get k m),
)

-- `incr` adds one to the number that is seen, and leaves the expiry alone.
pub incr-keeps-expiry :
    (now : ℕ) (k : Text) (m : Entries)
    → ((incr now k m).0 ≡ counter_of (view now m k) +ℤ pos 1)
      × (expiry_of (view now (incr now k m).1 k) ≡ expiry_of (view now m k))
      × (counter_of (view now (incr now k m).1 k) ≡ (incr now k m).0)
unfolding expiry_of counter_of
incr-keeps-expiry now k m = (
  incr-reply now k m,
  rw (view-incr now k m) refl,
  rw (view-incr now k m)
      (ground (arith, parse_int-int_text (counter_of (view now m k) +ℤ pos 1), incr-reply now k m)),
)

abbrev pub contains : Text → List Text → Bool
contains k ks = any (λ j. text_eq k j) ks

keys_from-contains :
    (now : ℕ) (p k : Text) (ks : List Text) (m : Entries)
    → contains k (keys_from now p ks m).0
      ≡ (contains k ks && is_some (view now m k) && glob_match p k)
unfolding keys_from
keys_from-contains now p k [] m = refl
keys_from-contains now p k (j ∷ ks) m =
    let here : (live now j m).0 ≡ view now m j = live-view now j m in
    let there : view now (live now j m).1 k ≡ view now m k =
      view-live now now j k m (omega arith) in
    let rest = keys_from-contains now p k ks (live now j m).1 in
    ground (arith, text_eq_iff k j, here, there, rest)

mem-map_keys : (k : Text) (m : Entries) → contains k (map_keys m) ≡ is_some (map_get k m)
unfolding map_get
mem-map_keys k [] = refl
mem-map_keys k ((j, e) ∷ m) = ground (arith, mem-map_keys k m)

-- `keys` lists exactly the keys that are seen and match the pattern.
pub contains-keys :
    (now : ℕ) (p k : Text) (m : Entries)
    → contains k (keys now p m).0 ≡ (is_some (view now m k) && glob_match p k)
unfolding keys
contains-keys now p k m =
    rw (keys_from-contains now p k (map_keys m) m, mem-map_keys k m) (seen (map_get k m))
  where
    seen :
        (o : Option MemoryEntry)
        → (is_some o && is_some (visible now o) && glob_match p k)
          ≡ (is_some (visible now o) && glob_match p k)
    seen none = refl
    seen (some e) = refl
