-- ===== src/Client/Pages/Walk.antt =====
-- What is requested, and what is collected.
use ziza_lend.Common.{
  ℕ, zero, suc, ◌≤◌, ◌<◌, ◌≡◌, ◌↔◌, ◌⊎◌, refl, sym, ap, Bool, true, false, Option, none, some, List,
  [], ◌∷◌, ◌++◌, Text, text_eq_iff, inl, inr, length, Bool-cases, Option-cases, arith,
}
use ziza_lend.Client.Pages.{
  IteratorPage, Cursor, same_cursor, was_requested, next_of, Walked, walk, iterate_pages,
  collect_pages,
}
use mathlib.Core.Path.{subst}

same_cursor_iff : (c d : Cursor) → (same_cursor c d ≡ true) ↔ (c ≡ d)
unfolding same_cursor
same_cursor_iff none none = (λ _. refl, λ _. refl)
same_cursor_iff none (some t) = (λ e. cc, λ e. cc)
same_cursor_iff (some s) none = (λ e. cc, λ e. cc)
same_cursor_iff (some s) (some t) = ground (arith, text_eq_iff s t)

-- No cursor of the list is one that was requested, nor stands in it twice.
abbrev pub AreNew : List Cursor → List Cursor → Type 0
AreNew requested [] = Unit
AreNew requested (c ∷ cs) = (was_requested c requested ≡ false) × AreNew (c ∷ requested) cs

module _ {A : Type 0} (fetch_page : Cursor → Option (IteratorPage A)) where
  module _ (left : ℕ) (requested : List Cursor) (cursor : Cursor) where
    walk-lost :
        fetch_page cursor ≡ none
        → walk fetch_page (suc left) requested cursor
          ≡ record { yielded = []; asked = cursor ∷ []; threw = true }
    unfolding walk
    walk-lost lost = rw (lost, walk) refl

    module _ {page : IteratorPage A} (found : fetch_page cursor ≡ some page) where
      walk-ends :
          next_of page ≡ none
          → walk fetch_page (suc left) requested cursor
            ≡ record { yielded = page.items; asked = cursor ∷ []; threw = false }
      unfolding walk
      walk-ends ends = rw (found, ends, walk) refl

      walk-old :
          {next : Text}
          → next_of page ≡ some next
          → was_requested (some next) requested ≡ true
          → walk fetch_page (suc left) requested cursor
            ≡ record { yielded = page.items; asked = cursor ∷ []; threw = false }
      unfolding walk
      walk-old more old = rw (found, more, old, walk) refl

      walk-on :
          {next : Text}
          → next_of page ≡ some next
          → was_requested (some next) requested ≡ false
          → walk fetch_page (suc left) requested cursor
            ≡ record (walk fetch_page left (some next ∷ requested) (some next)) {
              yielded =
                  page.items ++ (walk fetch_page left (some next ∷ requested) (some next)).yielded;
              asked = cursor ∷ (walk fetch_page left (some next ∷ requested) (some next)).asked;
            }
      unfolding walk
      walk-on more fresh = rw (found, more, fresh, walk) refl

  -- What holds of the loop's result by its three ways out and its step.
  walk-induct {ℓ} :
      (P : ℕ → List Cursor → Cursor → Walked A → Type ℓ)
      → ((requested : List Cursor) (cursor : Cursor)
          → P 0 requested cursor (record { yielded = []; asked = []; threw = false }))
      → ((left : ℕ) (requested : List Cursor) (cursor : Cursor) (items : List A) (threw : Bool)
          → P
              (suc left)
              requested
              cursor
              (record { yielded = items; asked = cursor ∷ []; threw = threw }))
      → ((left : ℕ) (requested : List Cursor) (cursor : Cursor) (items : List A) (next : Text)
            (w : Walked A)
          → was_requested (some next) requested ≡ false
          → P left (some next ∷ requested) (some next) w
          → P
              (suc left)
              requested
              cursor
              (record w { yielded = items ++ w.yielded; asked = cursor ∷ w.asked }))
      → (left : ℕ) (requested : List Cursor) (cursor : Cursor)
      → P left requested cursor (walk fetch_page left requested cursor)
  unfolding walk
  walk-induct P start out on zero requested cursor = start requested cursor
  walk-induct P start out on (suc left) requested cursor = elim (Option-cases (fetch_page cursor)) [
    | inl lost ↦
        subst (P (suc left) requested cursor) (sym (walk-lost left requested cursor lost))
          (out left requested cursor [] true)
    | inr (page, found) ↦ elim (Option-cases (next_of page)) [
      | inl ends ↦
          subst (P (suc left) requested cursor) (sym (walk-ends left requested cursor found ends))
            (out left requested cursor page.items false)
      | inr (next, more) ↦ elim (Bool-cases (was_requested (some next) requested)) [
        | inl old ↦
            subst (P (suc left) requested cursor)
              (sym (walk-old left requested cursor found more old))
              (out left requested cursor page.items false)
        | inr fresh ↦
            subst (P (suc left) requested cursor)
              (sym (walk-on left requested cursor found more fresh))
              (on left requested cursor page.items next
                (walk fetch_page left (some next ∷ requested) (some next)) fresh
                (walk-induct P start out on left (some next ∷ requested) (some next)))
      ]
    ]
  ]

  -- The requests that follow the first are new.
  abbrev AskedAreNew : ℕ → List Cursor → Cursor → Walked A → Type 0
  AskedAreNew left requested cursor w =
      (length w.asked ≤ left)
      × (((left ≡ 0) × (w.asked ≡ []))
          ⊎ ((more : List Cursor) × (w.asked ≡ cursor ∷ more) × AreNew requested more))

  walk-AskedAreNew :
      (left : ℕ) (requested : List Cursor) (cursor : Cursor)
      → AskedAreNew left requested cursor (walk fetch_page left requested cursor)
  walk-AskedAreNew =
      walk-induct AskedAreNew (λ requested cursor. (omega arith, inl (refl, refl)))
        (λ left requested cursor items threw. (omega arith, inr ([], refl, tt)))
        (λ left requested cursor items next w fresh ih.
          (omega (arith, ih.0), inr (w.asked, refl, next_new left requested next w fresh ih.1)))
    where
      next_new :
          (left : ℕ) (requested : List Cursor) (next : Text) (w : Walked A)
          → was_requested (some next) requested ≡ false
          → ((left ≡ 0) × (w.asked ≡ []))
            ⊎ ((more : List Cursor) × (w.asked ≡ some next ∷ more)
                × AreNew (some next ∷ requested) more)
          → AreNew requested w.asked
      next_new left requested next w fresh (inl (z, e)) = rw e tt
      next_new left requested next w fresh (inr (more, e, new)) = rw e (fresh, new)

  -- The pages from a cursor to the last one, with their items and the cursors after the first.
  pub data Chain : Cursor → List A → List Cursor → Type 0 where
    last :
        {cursor : Cursor} {page : IteratorPage A}
        → fetch_page cursor ≡ some page
        → next_of page ≡ none
        → Chain cursor page.items []
    more :
        {cursor : Cursor} {page : IteratorPage A} {next : Text} {items : List A}
        {cursors : List Cursor}
        → fetch_page cursor ≡ some page
        → next_of page ≡ some next
        → Chain (some next) items cursors
        → Chain cursor (page.items ++ items) (some next ∷ cursors)

  walk-Chain :
      {cursor : Cursor} {items : List A} {cursors : List Cursor}
      → Chain cursor items cursors
      → (left : ℕ) (requested : List Cursor) → AreNew requested cursors
      → length cursors < left
      → ((walk fetch_page left requested cursor).yielded ≡ items)
        × ((walk fetch_page left requested cursor).threw ≡ false)
  walk-Chain (last found ends) zero requested new few = absurd (omega arith)
  walk-Chain {cursor} (last found ends) (suc left) requested new few =
      rw (walk-ends left requested cursor found ends) (refl, refl)
  walk-Chain (more found next rest) zero requested new few = absurd (omega arith)
  walk-Chain {cursor} (more {page} {next} found goes_on rest) (suc left) requested new few =
      let (items, ok) = walk-Chain rest left (some next ∷ requested) new.1 (omega arith) in
      rw (walk-on left requested cursor found goes_on new.0) (ap (λ r. page.items ++ r) items, ok)

  -- However the server answers, at most `maxPages` pages are requested, and no cursor twice.
  pub iterate_pages-asked :
      (max_pages : ℕ) (start : Cursor) (walked : Walked A)
      → iterate_pages fetch_page max_pages start ≡ some walked
      → (length walked.asked ≤ max_pages)
        × ((more : List Cursor) × (walked.asked ≡ start ∷ more) × AreNew (start ∷ []) more)
  unfolding iterate_pages
  iterate_pages-asked zero start walked done = cc
  iterate_pages-asked (suc n) start walked done =
      let (few, which) =
        subst (AskedAreNew (suc n) (start ∷ []) start)
          {x = walk fetch_page (suc n) (start ∷ []) start} {y = walked} (ground (arith, done))
          (walk-AskedAreNew (suc n) (start ∷ []) start) in
      (few, elim which [ inl (z, e) ↦ absurd (omega (arith, z)) | inr found ↦ found ])

  -- A collection whose pages have different cursors and are no more than `maxPages` is collected whole
  -- and in order.
  pub collect_pages-whole :
      (max_pages : ℕ) (start : Cursor) {items : List A} {cursors : List Cursor}
      → Chain start items cursors
      → AreNew (start ∷ []) cursors
      → length cursors < max_pages
      → collect_pages fetch_page max_pages start ≡ some items
  unfolding collect_pages iterate_pages
  collect_pages-whole max_pages start {items} chain new few =
      let (all_of, ok) = walk-Chain chain max_pages (start ∷ []) new few in
      ground (arith, all_of, ok)
