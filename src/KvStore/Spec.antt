-- ===== src/KvStore/Spec.antt =====
-- The contract of the `KvStore` interface, as a machine over what a reader can see: a function
-- from keys to entries, with no map, no deletion of expired entries and no timer in it.
use ziza_lend.Common.{
  ℕ, Option, none, some, Bool, true, false, List, [], ◌∷◌, if◌then◌else◌, Text, text_eq,
}
use ziza_lend.Common.Int.{ℤ, pos, ◌+ℤ◌}
use ziza_lend.Common.Js.{int_text}
use ziza_lend.Common.Map.{map_get}
use ziza_lend.KvStore.{
  MemoryEntry, Entries, expiry_from, is_expired, sweep, get, set, set_nx, del, counter_of,
  expiry_of, incr, expire, seconds_left, ttl, close,
}

abbrev pub Contents : Type 0
Contents = Text → Option MemoryEntry

-- An entry as it is seen at a time.
abbrev pub visible : ℕ → Option MemoryEntry → Option MemoryEntry
visible now none = none
visible now (some e) = if is_expired now e then none else some e

-- What a map of entries shows at a time.
abbrev pub view : ℕ → Entries → Contents
view now entries key = visible now (map_get key entries)

abbrev pub update : Contents → Text → Option MemoryEntry → Contents
update c key v j = if text_eq j key then v else c j

abbrev pub remove_all : List Text → Contents → Contents
remove_all [] c = c
remove_all (k ∷ ks) c = remove_all ks (update c k none)

-- The calls of the interface, and the timer.
pub data Command : Type 0 where
  get_key : Text → Command
  set_key set_nx_key : Text → Text → ℕ → Command
  del_keys : List Text → Command
  incr_key : Text → Command
  expire_key : Text → ℕ → Command
  ttl_key : Text → Command
  sweep_all close_all : Command

pub data Reply : Type 0 where
  done : Reply
  found : Option Text → Reply
  flag : Bool → Reply
  number : ℤ → Reply

unfoldable pub run : ℕ → Command → Entries → Reply × Entries
unfolding get set set_nx del incr expire ttl sweep close
run now (get_key k) m = let (r, m') = get now k m in (found r, m')
run now (set_key k v t) m = (done, set now k v t m)
run now (set_nx_key k v t) m = let (r, m') = set_nx now k v t m in (flag r, m')
run now (del_keys ks) m = (done, del ks m)
run now (incr_key k) m = let (r, m') = incr now k m in (number r, m')
run now (expire_key k t) m = (done, expire now k t m)
run now (ttl_key k) m = let (r, m') = ttl now k m in (number r, m')
run now sweep_all m = (done, sweep now m)
run now close_all m = (done, close m)

abbrev pub fresh : ℕ → Text → ℕ → MemoryEntry
fresh now v t = record { value = v; expires_at = expiry_from now t }

-- The reply and the contents that the contract asks for.
unfoldable pub spec : ℕ → Command → Contents → Reply × Contents
spec now (get_key k) c = (found (elim (c k) [ none ↦ none | some e ↦ some e.value ]), c)
spec now (set_key k v t) c = (done, update c k (some (fresh now v t)))
spec now (set_nx_key k v t) c = elim (c k) [
  | some e ↦ (flag false, c)
  | none ↦ (flag true, update c k (some (fresh now v t)))
]
spec now (del_keys ks) c = (done, remove_all ks c)
spec now (incr_key k) c =
    let next = counter_of (c k) +ℤ pos 1 in
    (
      number next,
      update c k (some (record { value = int_text next; expires_at = expiry_of (c k) })),
    )
spec now (expire_key k t) c = elim (c k) [
  | none ↦ (done, c)
  | some e ↦ (done, update c k (some (record e { expires_at = expiry_from now t })))
]
spec now (ttl_key k) c = (number (seconds_left now (c k)), c)
spec now sweep_all c = (done, c)
spec now close_all c = (done, λ k. none)
