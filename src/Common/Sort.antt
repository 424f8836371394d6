-- ===== src/Common/Sort.antt =====
-- A stable sort by a numeric key, which is what `sort` with a difference of keys and `ORDER BY` come to,
-- and the lemmas on it.
use mathlib.Core.List.Perm
use mathlib.Core.List.Memᴰ
use mathlib.Core.List.{Perm, Memᴰ}
use ziza_lend.Common.{
  ℕ, suc, ◌≤◌, ◌≡◌, ◌∙◌, refl, ap, length, ◌⊎◌, inl, inr, List, [], ◌∷◌, if◌then◌else◌, leb, leb→le,
  All, All-imp, Bool-cases, arith,
}

module _ {ℓ} {A : Type ℓ} (key : A → ℕ) where
  unfoldable pub insert_by : A → List A → List A
  insert_by a [] = a ∷ []
  insert_by a (x ∷ xs) =
      let rest = insert_by a xs in if leb (key a) (key x) then a ∷ x ∷ xs else x ∷ rest

  unfoldable pub sort_by : List A → List A
  unfolding insert_by
  sort_by [] = []
  sort_by (a ∷ xs) = insert_by a (sort_by xs)

  insert_by-All {κ} :
      (P : A → Type κ) (a : A) (xs : List A) → P a → All P xs → All P (insert_by a xs)
  unfolding insert_by
  insert_by-All P a [] p h = (p, tt)
  insert_by-All P a (x ∷ xs) p h = elim (Bool-cases (leb (key a) (key x))) [
    | inl t ↦ rw t (p, h)
    | inr f ↦ rw f (h.0, insert_by-All P a xs p h.1)
  ]

  pub sort_by-All {κ} : (P : A → Type κ) (xs : List A) → All P xs → All P (sort_by xs)
  unfolding sort_by
  sort_by-All P [] h = tt
  sort_by-All P (x ∷ xs) h = insert_by-All P x (sort_by xs) h.0 (sort_by-All P xs h.1)

  -- The keys of the list do not fall.
  abbrev pub IsAscending : List A → Type 0
  IsAscending [] = Unit
  IsAscending (x ∷ xs) = All (λ y. key x ≤ key y) xs × IsAscending xs

  insert_by-IsAscending : (a : A) (xs : List A) → IsAscending xs → IsAscending (insert_by a xs)
  unfolding insert_by
  insert_by-IsAscending a [] h = (tt, tt)
  insert_by-IsAscending a (x ∷ xs) h = elim (Bool-cases (leb (key a) (key x))) [
    | inl t ↦
        rw t ((ground arith, All-imp xs (λ y k. omega (arith, leb→le (key a) (key x) t)) h.0), h)
    | inr f ↦
        rw f (
          insert_by-All (λ y. key x ≤ key y) a xs (ground arith) h.0,
          insert_by-IsAscending a xs h.1,
        )
  ]

  pub sort_by-IsAscending : (xs : List A) → IsAscending (sort_by xs)
  unfolding sort_by
  sort_by-IsAscending [] = tt
  sort_by-IsAscending (x ∷ xs) = insert_by-IsAscending x (sort_by xs) (sort_by-IsAscending xs)

  insert_by-Perm : (a : A) (xs : List A) → Perm (insert_by a xs) (a ∷ xs)
  unfolding insert_by
  insert_by-Perm a [] = Perm.refl (a ∷ [])
  insert_by-Perm a (x ∷ xs) = elim (Bool-cases (leb (key a) (key x))) [
    | inl t ↦ rw t (Perm.refl (a ∷ x ∷ xs))
    | inr f ↦ rw f (Perm.trans (Perm.cons x (insert_by-Perm a xs)) (Perm.swap a x xs))
  ]

  pub sort_by-Perm : (xs : List A) → Perm (sort_by xs) xs
  unfolding sort_by
  sort_by-Perm [] = Perm.refl []
  sort_by-Perm (x ∷ xs) = Perm.trans (insert_by-Perm x (sort_by xs)) (Perm.cons x (sort_by-Perm xs))

  insert_by-Memᴰ : {x : A} (a : A) (xs : List A) → (x ≡ a) ⊎ Memᴰ x xs → Memᴰ x (insert_by a xs)
  unfolding insert_by
  insert_by-Memᴰ a [] (inl e) = Memᴰ.head e
  insert_by-Memᴰ a [] (inr m) = absurd (Memᴰ.not-nil m)
  insert_by-Memᴰ {x} a (y ∷ ys) h = elim (Bool-cases (leb (key a) (key y))) [
    | inl t ↦ rw t (elim h [ inl e ↦ Memᴰ.head e | inr m ↦ Memᴰ.tail m ])
    | inr f ↦ rw f (elim h [
      | inl e ↦ Memᴰ.tail (insert_by-Memᴰ a ys (inl e))
      | inr m ↦ elim (Memᴰ.cases_cons m) [
        | inl e ↦ Memᴰ.head e
        | inr k ↦ Memᴰ.tail (insert_by-Memᴰ a ys (inr k))
      ]
    ])
  ]

  pub sort_by-Memᴰ : {x : A} (xs : List A) → Memᴰ x xs → Memᴰ x (sort_by xs)
  unfolding sort_by
  sort_by-Memᴰ [] m = m
  sort_by-Memᴰ (y ∷ ys) (Memᴰ.head e) = insert_by-Memᴰ y (sort_by ys) (inl e)
  sort_by-Memᴰ (y ∷ ys) (Memᴰ.tail m) = insert_by-Memᴰ y (sort_by ys) (inr (sort_by-Memᴰ ys m))

  length-insert_by : (a : A) (xs : List A) → length (insert_by a xs) ≡ suc (length xs)
  unfolding insert_by
  length-insert_by a [] = refl
  length-insert_by a (x ∷ xs) = elim (Bool-cases (leb (key a) (key x))) [
    | inl t ↦ rw t refl
    | inr f ↦ rw f (ap suc (length-insert_by a xs))
  ]

  pub length-sort_by : (xs : List A) → length (sort_by xs) ≡ length xs
  unfolding sort_by
  length-sort_by [] = refl
  length-sort_by (x ∷ xs) = length-insert_by x (sort_by xs) ∙ ap suc (length-sort_by xs)
