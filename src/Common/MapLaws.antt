-- ===== src/Common/MapLaws.antt =====
-- What a read finds after a write or a deletion.
use ziza_lend.Common.{
  ◌≡◌, refl, none, some, [], ◌∷◌, arith, if◌then◌else◌, Text, text_eq, text_eq_iff,
}
use ziza_lend.Common.Map.{Map, map_get, map_set, map_delete}

module _ {ℓ} {V : Type ℓ} where
  pub map_get-map_set :
      (k j : Text) (v : V) (m : Map V)
      → map_get j (map_set k v m) ≡ (if text_eq j k then some v else map_get j m)
  unfolding map_get map_set
  map_get-map_set k j v [] = refl
  map_get-map_set k j v ((i, w) ∷ m) =
      ground (arith, text_eq_iff k i, text_eq_iff j k, text_eq_iff j i, map_get-map_set k j v m)

  pub map_get-map_delete :
      (k j : Text) (m : Map V)
      → map_get j (map_delete k m) ≡ (if text_eq j k then none else map_get j m)
  unfolding map_get map_delete
  map_get-map_delete k j [] = ground arith
  map_get-map_delete k j ((i, w) ∷ m) =
      ground (arith, text_eq_iff k i, text_eq_iff j k, text_eq_iff j i, map_get-map_delete k j m)

  -- A JavaScript map holds a key once.
  abbrev pub HasUniqueKeys : Map V → Type ℓ
  HasUniqueKeys [] = Unit
  HasUniqueKeys ((k, v) ∷ m) = (map_get k m ≡ none) × HasUniqueKeys m

  pub map_set-HasUniqueKeys :
      (k : Text) (v : V) (m : Map V) → HasUniqueKeys m → HasUniqueKeys (map_set k v m)
  unfolding map_set map_get
  map_set-HasUniqueKeys k v [] h = (refl, tt)
  map_set-HasUniqueKeys k v ((i, w) ∷ m) h = ground (
    arith,
    text_eq_iff k i,
    text_eq_iff i k,
    map_get-map_set k i v m,
    map_set-HasUniqueKeys k v m h.1,
  )

  pub map_delete-HasUniqueKeys :
      (k : Text) (m : Map V) → HasUniqueKeys m → HasUniqueKeys (map_delete k m)
  unfolding map_delete
  map_delete-HasUniqueKeys k [] h = tt
  map_delete-HasUniqueKeys k ((i, w) ∷ m) h = ground (
    arith,
    text_eq_iff k i,
    text_eq_iff i k,
    map_get-map_delete k i m,
    map_delete-HasUniqueKeys k m h.1,
  )
