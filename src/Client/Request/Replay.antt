-- ===== src/Client/Request/Replay.antt =====
-- What a request that is not idempotent is sent with.
use ziza_lend.Common.{
  ℕ, ◌≡◌, ◌∙◌, refl, ap, false, Option, none, some, [], ◌∷◌, inl, inr, Text, text_eq, text_eq_iff,
  codes, Bool-cases, arith,
}
use ziza_lend.Common.Js.{to_lower}
use ziza_lend.Common.Map.{Map, map_get, map_set}
use ziza_lend.Common.MapLaws.{map_get-map_set, HasUniqueKeys, map_set-HasUniqueKeys}
use ziza_lend.Client.{
  Config, HeadersInit, headers, idempotency_key_header, read_header, merge, header_entries,
  with_header, own_entries, write_some, bearer, fetch_headers,
}
use ziza_lend.Client.Request.{replay_key, attempt_init}

merge-HasUniqueKeys : (m base : Map Text) → HasUniqueKeys base → HasUniqueKeys (merge m base)
unfolding merge
merge-HasUniqueKeys [] base h = h
merge-HasUniqueKeys ((k, v) ∷ m) base h =
    merge-HasUniqueKeys m (map_set k v base) (map_set-HasUniqueKeys k v base h)

merge-get_absent :
    (j : Text) (m base : Map Text) → map_get j m ≡ none → map_get j (merge m base) ≡ map_get j base
unfolding merge map_get
merge-get_absent j [] base h = refl
merge-get_absent j ((k, v) ∷ m) base h =
    ground (arith, merge-get_absent j m (map_set k v base), map_get-map_set k j v base)

-- A key of a map without repetitions is copied with its value.
merge-get :
    (j : Text) {v : Text} (m base : Map Text)
    → HasUniqueKeys m
    → map_get j m ≡ some v
    → map_get j (merge m base) ≡ some v
unfolding merge map_get
merge-get j [] base u h = ground (arith, h)
merge-get j ((k, w) ∷ m) base u h = elim (Bool-cases (text_eq j k)) [
  | inl same ↦
      merge-get_absent j m (map_set k w base) (rw ((text_eq_iff j k).0 same) u.0)
      ∙ ground (arith, map_get-map_set k j w base, same, h)
  | inr other ↦ merge-get j m (map_set k w base) u.1 (ground (arith, other, h))
]

write_some-get :
    (name j : Text) (value : Option Text) (m : Map Text)
    → text_eq j name ≡ false
    → map_get j (write_some name value m) ≡ map_get j m
unfolding write_some
write_some-get name j none m other = refl
write_some-get name j (some value) m other = ground (arith, map_get-map_set name j value m)

-- The headers of an attempt with a key hold it under its name.
key-is_sent :
    (date_parse : Text → Option ℕ) (c : Config) (init : Option HeadersInit) (key : Text)
    → map_get idempotency_key_header (fetch_headers c (attempt_init date_parse c init (some key)))
      ≡ some key
unfolding fetch_headers own_entries attempt_init with_header text_eq map_get
key-is_sent date_parse c init key =
    write_some-get (codes "x-api-key") idempotency_key_header c.api_key _ refl
    ∙ write_some-get (codes "Authorization") idempotency_key_header (bearer c.token) _ refl
    ∙ merge-get idempotency_key_header (with_header init idempotency_key_header key) _
        (map_set-HasUniqueKeys idempotency_key_header key _
          (merge-HasUniqueKeys (header_entries init) [] tt))
        (map_get-map_set idempotency_key_header idempotency_key_header key
          (merge (header_entries init) []))

-- The name of the header as a `Headers` instance spells it.
abbrev pub lower_case_name : Text
lower_case_name = codes "idempotency-key"

module _ (date_parse : Text → Option ℕ) (c : Config) (method minted : Text) (m : Map Text) where
  -- The headers that are sent for a caller with a `Headers` instance.
  abbrev pub sent_for_instance : Map Text
  sent_for_instance = fetch_headers c (
      attempt_init date_parse c (some (headers m))
        (replay_key date_parse c method (some (headers m)) minted))

  instance_key :
      {key : Text}
      → map_get lower_case_name m ≡ some key
      → replay_key date_parse c method (some (headers m)) minted ≡ some key
  unfolding replay_key read_header to_lower
  instance_key found = rw (found, replay_key) refl

  lower_case-is_sent :
      {key : Text}
      → HasUniqueKeys m
      → map_get lower_case_name m ≡ some key
      → map_get lower_case_name
          (fetch_headers c (attempt_init date_parse c (some (headers m)) (some key)))
        ≡ some key
  unfolding fetch_headers own_entries attempt_init with_header header_entries text_eq map_get
  lower_case-is_sent {key} unique found =
      write_some-get (codes "x-api-key") lower_case_name c.api_key _ refl
      ∙ write_some-get (codes "Authorization") lower_case_name (bearer c.token) _ refl
      ∙ merge-get lower_case_name (with_header (some (headers m)) idempotency_key_header key) _
          (map_set-HasUniqueKeys idempotency_key_header key _ (merge-HasUniqueKeys m [] tt))
          (map_get-map_set idempotency_key_header lower_case_name key (merge m [])
            ∙ merge-get lower_case_name m [] unique found)

  -- A caller that passes its key in a `Headers` instance is sent with the key under two spellings of the
  -- one name, which `fetch` joins to one value.
  pub key-is_sent_twice :
      {key : Text}
      → HasUniqueKeys m
      → map_get lower_case_name m ≡ some key
      → (map_get lower_case_name sent_for_instance ≡ some key)
        × (map_get idempotency_key_header sent_for_instance ≡ some key)
  key-is_sent_twice {key} unique found =
      let sent_with =
        λ (k : Option Text). fetch_headers c (attempt_init date_parse c (some (headers m)) k) in
      (
        ap (λ k. map_get lower_case_name (sent_with k)) (instance_key found)
            ∙ lower_case-is_sent unique found,
        ap (λ k. map_get idempotency_key_header (sent_with k)) (instance_key found)
            ∙ key-is_sent date_parse c (some (headers m)) key,
      )
