-- ===== src/Idempotency/Keys.antt =====
-- When two requests share the name of an outcome.
use mathlib.Core.List.{append_assoc}
use ziza_lend.Common.{
  ℕ, suc, ◌≤◌, ◌≡◌, ◌≢◌, ◌⊎◌, inl, inr, refl, sym, ap, ◌∙◌, true, Option, none, some, [], ◌∷◌, ◌++◌,
  arith, Text, codes, length, take, append-cancel_left, length-append, all-append,
}
use ziza_lend.Idempotency.Policy.{
  credential_scope, idempotency_cache_key, in_flight_lock_key, upper, route_of,
  is_valid_idempotency_key, is_key_char,
}

-- A text with no colon in it ends where the first colon stands.
abbrev pub HasNoColon : Text → Type 0
HasNoColon [] = Unit
HasNoColon (c ∷ s) = (c ≢ b':') × HasNoColon s

split_at_colon :
    (s t s' t' : Text)
    → HasNoColon s
    → HasNoColon s'
    → s ++ b':' ∷ t ≡ s' ++ b':' ∷ t'
    → (s ≡ s') × (t ≡ t')
split_at_colon [] t [] t' h h' e = ground arith
split_at_colon [] t (c ∷ s') t' h h' e = ground arith
split_at_colon (c ∷ s) t [] t' h h' e = ground arith
split_at_colon (c ∷ s) t (d ∷ s') t' h h' e = ground (arith, split_at_colon s t s' t' h.1 h'.1)

take-HasNoColon : (n : ℕ) (s : Text) → HasNoColon s → HasNoColon (take n s)
take-HasNoColon ℕ.zero s h = tt
take-HasNoColon (suc n) [] h = tt
take-HasNoColon (suc n) (c ∷ s) h = (h.0, take-HasNoColon n s h.1)

module _ (sha256_hex : Text → Text) (hex : (t : Text) → HasNoColon (sha256_hex t)) where
  abbrev scope : Option Text → Text
  scope = credential_scope sha256_hex

  -- A scope is `anonymous`, or `c:` before a text with no colon.
  scope_shape :
      (c : Option Text)
      → (scope c ≡ codes "anonymous") ⊎ ((h : Text) × (scope c ≡ b'c' ∷ b':' ∷ h) × HasNoColon h)
  unfolding credential_scope
  scope_shape none = inl refl
  scope_shape (some []) = inl refl
  scope_shape (some (x ∷ s)) =
      inr
        (take 16 (sha256_hex (x ∷ s)), refl, take-HasNoColon 16 (sha256_hex (x ∷ s)) (hex (x ∷ s)))

  scope_and_key :
      (c c' : Option Text) (key key' : Text)
      → scope c ++ b':' ∷ key ≡ scope c' ++ b':' ∷ key'
      → (scope c ≡ scope c') × (key ≡ key')
  scope_and_key c c' key key' e = elim (scope_shape c) [
    | inl a ↦ elim (scope_shape c') [
      | inl a' ↦
          let (p, q) =
            split_at_colon (codes "anonymous") key (codes "anonymous") key' (omega arith)
              (omega arith) (rw (a, a') at e) in
          (a ∙ sym a', q)
      | inr (h', b', n') ↦
          let f : codes "anonymous" ++ b':' ∷ key ≡ (b'c' ∷ b':' ∷ h') ++ b':' ∷ key' =
            rw (a, b') at e in
          ground arith
    ]
    | inr (h, b, n) ↦ elim (scope_shape c') [
      | inl a' ↦
          let f : (b'c' ∷ b':' ∷ h) ++ b':' ∷ key ≡ codes "anonymous" ++ b':' ∷ key' =
            rw (b, a') at e in
          ground arith
      | inr (h', b', n') ↦
          let f : (b'c' ∷ b':' ∷ h) ++ b':' ∷ key ≡ (b'c' ∷ b':' ∷ h') ++ b':' ∷ key' =
            rw (b, b') at e in
          let (p, q) = split_at_colon h key h' key' n n' (append-cancel_left (codes "c:") _ _ f) in
          (b ∙ ap (λ t. b'c' ∷ b':' ∷ t) p ∙ sym b', q)
    ]
  ]

  -- Two requests share the name of an outcome only if they have the same method, route, caller scope
  -- and key, where no colon stands in the methods, the routes and the text of a hash.
  pub idempotency_cache_key-injective :
      (method method' path path' : Text) (c c' : Option Text) (key key' : Text)
      → HasNoColon (upper method)
      → HasNoColon (upper method')
      → HasNoColon (route_of path)
      → HasNoColon (route_of path')
      → idempotency_cache_key method path (scope c) key
        ≡ idempotency_cache_key method' path' (scope c') key'
      → (upper method ≡ upper method')
        × (route_of path ≡ route_of path')
        × (scope c ≡ scope c')
        × (key ≡ key')
  unfolding idempotency_cache_key
  idempotency_cache_key-injective method method' path path' c c' key key' h h' r r' e =
      let e₁ = append-cancel_left (codes "idemp:") _ _ e in
      let (m, e₂) = split_at_colon (upper method) _ (upper method') _ h h' e₁ in
      let (p, e₃) = split_at_colon (route_of path) _ (route_of path') _ r r' e₂ in
      let (s, k) = scope_and_key c c' key key' e₃ in (m, p, s, k)

-- The claim of a key has the name of the outcome of another key of the same caller, which is as valid
-- as the first where that has at most 191 characters.
pub in_flight_lock_key-collides :
    (method path scope key : Text)
    → is_valid_idempotency_key key ≡ true
    → length key ≤ 191
    → (other : Text) × (is_valid_idempotency_key other ≡ true)
      × (in_flight_lock_key (idempotency_cache_key method path scope key)
          ≡ idempotency_cache_key method path scope other)
unfolding is_valid_idempotency_key in_flight_lock_key idempotency_cache_key
in_flight_lock_key-collides method path scope key h k = (
  key ++ codes ":inflight",
  ground (
    arith,
    all-append is_key_char key (codes ":inflight"),
    length-append key (codes ":inflight"),
  ),
  ap (◌++◌ (codes "idemp:")) (simp append_assoc),
)
