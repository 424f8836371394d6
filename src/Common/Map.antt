-- ===== src/Common/Map.antt =====
-- A JavaScript `Map` with string keys, in insertion order: writing a key that is there keeps its
-- place.
use ziza_lend.Common.{Option, none, some, List, [], ◌∷◌, if◌then◌else◌, Text, text_eq}

abbrev pub Map {ℓ} : Type ℓ → Type ℓ
Map V = List (Text × V)

module _ {ℓ} {V : Type ℓ} where
  -- `m.get(k)`.
  unfoldable pub map_get : Text → Map V → Option V
  unfolding text_eq
  map_get k [] = none
  map_get k ((j, v) ∷ m) = if text_eq k j then some v else map_get k m

  -- `m.set(k, v)`.
  unfoldable pub map_set : Text → V → Map V → Map V
  unfolding text_eq
  map_set k v [] = (k, v) ∷ []
  map_set k v ((j, w) ∷ m) = if text_eq k j then (j, v) ∷ m else (j, w) ∷ map_set k v m

  -- `m.delete(k)`.
  unfoldable pub map_delete : Text → Map V → Map V
  unfolding text_eq
  map_delete k [] = []
  map_delete k ((j, w) ∷ m) = if text_eq k j then map_delete k m else (j, w) ∷ map_delete k m

  -- `[...m.keys()]`.
  abbrev pub map_keys : Map V → List Text
  map_keys [] = []
  map_keys ((j, w) ∷ m) = j ∷ map_keys m
