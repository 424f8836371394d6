-- ===== src/DefaultChecker/Batches/Chunks.antt =====
-- The chunks are the list, cut.
use ziza_lend.Common.{
  ℕ, zero, suc, ◌+◌, ◌≤◌, ◌<◌, ◌≡◌, ◌∙◌, refl, ap, false, not, Text, Option, List, [], ◌∷◌, ◌++◌,
  take, drop, length, length-drop, length-take, take-append-drop, filter, ◌==◌, All, Bool-cases,
  Option-cases, inl, inr, arith,
}
use ziza_lend.DefaultChecker.Batches.{
  chunk_from, chunk, BatchResult, Rpc, after_send, submit_check_defaults_with_timeout,
  is_successful, is_failed,
}

abbrev pub flatten {ℓ} : {A : Type ℓ} → List (List A) → List A
flatten [] = []
flatten (xs ∷ rest) = xs ++ flatten rest

abbrev pub IsCut {ℓ} : {A : Type ℓ} → ℕ → List A → Type 0
IsCut size xs = (0 < length xs) × (length xs ≤ size)

module _ {ℓ} {A : Type ℓ} where
  flatten-chunk_from :
      (rounds size : ℕ) (items : List A)
      → 0 < size
      → length items ≤ rounds
      → flatten (chunk_from rounds size items) ≡ items
  unfolding chunk_from
  flatten-chunk_from zero size [] some_size enough = refl
  flatten-chunk_from zero size (x ∷ items) some_size enough = absurd (omega arith)
  flatten-chunk_from (suc rounds) size [] some_size enough = refl
  flatten-chunk_from (suc rounds) size (x ∷ items) some_size enough =
      ap (λ r. take size (x ∷ items) ++ r)
        (flatten-chunk_from rounds size (drop size (x ∷ items)) some_size
          (omega (arith, length-drop size (x ∷ items))))
      ∙ take-append-drop size (x ∷ items)

  chunk_from-IsCut :
      (rounds size : ℕ) (items : List A)
      → 0 < size
      → All (IsCut size) (chunk_from rounds size items)
  unfolding chunk_from
  chunk_from-IsCut zero size items some_size = tt
  chunk_from-IsCut (suc rounds) size [] some_size = tt
  chunk_from-IsCut (suc rounds) size (x ∷ items) some_size = (
    omega (arith, length-take size (x ∷ items)),
    chunk_from-IsCut rounds size (drop size (x ∷ items)) some_size,
  )

  -- The chunks hold the items in order, each once; none is empty or above the size.
  pub chunk-cuts :
      (items : List A) (size : ℕ)
      → 0 < size
      → (flatten (chunk items size) ≡ items) × All (IsCut size) (chunk items size)
  unfolding chunk
  chunk-cuts items size some_size =
      let sized : (size == 0) ≡ false = ground (arith, some_size) in
      rw sized (
        flatten-chunk_from (length items) size items some_size (omega arith),
        chunk_from-IsCut (length items) size items some_size,
      )

after_send-loan_ids :
    (rpc : Rpc) (ids : List ℕ) (hash : Text) (status : Option Text)
    → (after_send rpc ids hash status).loan_ids ≡ ids
unfolding after_send
after_send-loan_ids rpc ids [] status = refl
after_send-loan_ids rpc ids (c ∷ hash) status = refl

pub submit-loan_ids :
    (rpc : Rpc) (ids : List ℕ) → (submit_check_defaults_with_timeout rpc ids).loan_ids ≡ ids
unfolding submit_check_defaults_with_timeout
submit-loan_ids rpc ids = elim (Option-cases rpc.sent) [
  | inl lost ↦ ground (arith, lost)
  | inr ((hash, status), answered) ↦
      ground (arith, answered, after_send-loan_ids rpc ids hash status)
]

pub is_failed-not : (b : BatchResult) → is_failed b ≡ not (is_successful b)
unfolding is_failed is_successful
is_failed-not b = ground arith

pub counts-add :
    (bs : List BatchResult)
    → length (filter is_successful bs) + length (filter is_failed bs) ≡ length bs
counts-add [] = refl
counts-add (b ∷ bs) = elim (Bool-cases (is_successful b)) [
  | inl good ↦ rw (is_failed-not b, good) (omega (arith, counts-add bs))
  | inr bad ↦ rw (is_failed-not b, bad) (omega (arith, counts-add bs))
]
