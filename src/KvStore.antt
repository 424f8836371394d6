-- ===== src/KvStore.antt =====
-- The in-process key-value store of backend/src/utils/kvStore.ts (`createMemoryKvStore`), and the
-- choice of a driver. `Date.now()` is the argument `now`, in milliseconds; every method is a
-- function from the map of entries to its reply and the new map. Lifetimes are seconds, and are
-- natural numbers: the source treats a negative one as 0.
pub mod Driver
pub mod Glob
pub mod Spec
pub mod Refinement
pub mod Facts
use ziza_lend.Common.{
  ℕ, ◌+◌, ◌-◌, ◌*◌, ◌/◌, max, Option, none, some, Bool, true, false, ◌&&◌, List, [], ◌∷◌, map,
  arith, ltb, leb, if◌then◌else◌, Text,
}
use ziza_lend.Common.Int.{ℤ, pos, negsuc, ◌+ℤ◌}
use ziza_lend.Common.Js.{parse_int, int_text}
use ziza_lend.Common.Map.{Map, map_get, map_set, map_delete, map_keys}
use Glob.{glob_match}

pub record MemoryEntry : Type 0 where
  pub value : Text
  pub expires_at : Option ℕ

abbrev pub Entries : Type 0
Entries = Map MemoryEntry

-- `expiryFrom`: an absolute time, or none for a key that never expires.
unfoldable pub expiry_from : ℕ → ℕ → Option ℕ
expiry_from now ttl = if ltb 0 ttl then some (now + ttl * 1000) else none

-- `entry.expiresAt !== null && entry.expiresAt <= Date.now()`.
unfoldable pub is_expired : ℕ → MemoryEntry → Bool
is_expired now e = elim e.expires_at [ none ↦ false | some t ↦ leb t now ]

-- `live`: an expired entry is removed, and is absent.
unfoldable pub live : ℕ → Text → Entries → Option MemoryEntry × Entries
unfolding is_expired
live now key entries = elim (map_get key entries) [
  | none ↦ (none, entries)
  | some e ↦ if is_expired now e then (none, map_delete key entries) else (some e, entries)
]

-- The timer's sweep.
unfoldable pub sweep : ℕ → Entries → Entries
unfolding is_expired
sweep now [] = []
sweep now ((k, e) ∷ m) = if is_expired now e then sweep now m else (k, e) ∷ sweep now m

unfoldable pub get : ℕ → Text → Entries → Option Text × Entries
get now key entries =
    let (found, entries') = live now key entries in
    (elim found [ none ↦ none | some e ↦ some e.value ], entries')

unfoldable pub set : ℕ → Text → Text → ℕ → Entries → Entries
unfolding expiry_from
set now key value ttl entries =
    map_set key (record { value = value; expires_at = expiry_from now ttl }) entries

unfoldable pub set_nx : ℕ → Text → Text → ℕ → Entries → Bool × Entries
set_nx now key value ttl entries =
    let (found, entries') = live now key entries in
    elim found [ some e ↦ (false, entries') | none ↦ (true, set now key value ttl entries') ]

unfoldable pub del : List Text → Entries → Entries
del [] entries = entries
del (k ∷ ks) entries = del ks (map_delete k entries)

-- The filter of `keys` over the keys that stood in the map when it began.
unfoldable pub keys_from : ℕ → Text → List Text → Entries → List Text × Entries
keys_from now pattern [] entries = ([], entries)
keys_from now pattern (k ∷ ks) entries =
    let (found, entries') = live now k entries in
    let (rest, last) = keys_from now pattern ks entries' in
    (elim found [ none ↦ rest | some e ↦ if glob_match pattern k then k ∷ rest else rest ], last)

unfoldable pub keys : ℕ → Text → Entries → List Text × Entries
keys now pattern entries = keys_from now pattern (map_keys entries) entries

-- The number that `incr` counts on from: 0 where there is no entry or no number in it.
unfoldable pub counter_of : Option MemoryEntry → ℤ
counter_of none = pos 0
counter_of (some e) = elim (parse_int e.value) [ none ↦ pos 0 | some n ↦ n ]

unfoldable pub expiry_of : Option MemoryEntry → Option ℕ
expiry_of none = none
expiry_of (some e) = e.expires_at

unfoldable pub incr : ℕ → Text → Entries → ℤ × Entries
incr now key entries =
    let (existing, entries') = live now key entries in
    let next = counter_of existing +ℤ pos 1 in
    (next, map_set key (record { value = int_text next; expires_at = expiry_of existing }) entries')

unfoldable pub expire : ℕ → Text → ℕ → Entries → Entries
expire now key ttl entries =
    let (found, entries') = live now key entries in
    elim found [
      | none ↦ entries'
      | some e ↦ map_set key (record e { expires_at = expiry_from now ttl }) entries'
    ]

-- The seconds that are left, rounded up: -1 for a key with no expiry, -2 for an absent one.
unfoldable pub seconds_left : ℕ → Option MemoryEntry → ℤ
seconds_left now none = negsuc 1
seconds_left now (some e) = elim e.expires_at [
  | none ↦ negsuc 0
  | some t ↦ pos (max 1 ((t - now + 999) / 1000))
]

unfoldable pub ttl : ℕ → Text → Entries → ℤ × Entries
ttl now key entries =
    let (found, entries') = live now key entries in (seconds_left now found, entries')

-- `close` stops the timer and clears the map.
unfoldable pub close : Entries → Entries
close entries = []
