-- ===== src/Client/Pages.antt =====
-- packages/sdk/src/pagination.ts: `iteratePages`, run to its end, and `collectPages`. The fetch of a page
-- is a parameter; it gives none where it throws.
pub mod Walk
use ziza_lend.Common.{
  ℕ, zero, suc, Bool, true, false, ◌||◌, Option, none, some, List, [], ◌∷◌, ◌++◌, if◌then◌else◌,
  Text, text_eq, ltb,
}

pub record IteratorPage (A : Type 0) : Type 0 where
  pub items : List A
  pub next_cursor : Option Text

abbrev pub default_max_pages : ℕ
default_max_pages = 100

abbrev pub Cursor : Type 0
Cursor = Option Text

-- `===` on `string | undefined`.
unfoldable pub same_cursor : Cursor → Cursor → Bool
unfolding text_eq
same_cursor none none = true
same_cursor none (some t) = false
same_cursor (some s) none = false
same_cursor (some s) (some t) = text_eq s t

-- `requested.has(next)`.
unfoldable pub was_requested : Cursor → List Cursor → Bool
unfolding same_cursor
was_requested c [] = false
was_requested c (d ∷ requested) = same_cursor c d || was_requested c requested

-- The cursor to go on with: an empty text is none.
unfoldable pub next_of : {A : Type 0} → IteratorPage A → Cursor
next_of {A} page = elim page.next_cursor [ none ↦ none | some t ↦ filled t ]
  where
    filled : Text → Cursor
    filled [] = none
    filled (c ∷ s) = some (c ∷ s)

-- The items that were yielded, the cursors that were requested, and whether a fetch threw.
pub record Walked (A : Type 0) : Type 0 where
  pub yielded : List A
  pub asked : List Cursor
  pub threw : Bool

module _ {A : Type 0} (fetch_page : Cursor → Option (IteratorPage A)) where
  -- The loop, with the pages that may still be fetched.
  unfoldable pub walk : ℕ → List Cursor → Cursor → Walked A
  unfolding was_requested next_of
  walk zero requested cursor = record { yielded = []; asked = []; threw = false }
  walk (suc left) requested cursor = elim (fetch_page cursor) [
    | none ↦ record { yielded = []; asked = cursor ∷ []; threw = true }
    | some page ↦
        let last : Walked A = record { yielded = page.items; asked = cursor ∷ []; threw = false } in
        elim (next_of page) [
          | none ↦ last
          | some next ↦
              let rest = walk left (some next ∷ requested) (some next) in
              if was_requested (some next) requested then last else record {
                yielded = page.items ++ rest.yielded;
                asked = cursor ∷ rest.asked;
                threw = rest.threw;
              }
        ]
  ]

  -- None where `maxPages` is refused.
  unfoldable pub iterate_pages : ℕ → Cursor → Option (Walked A)
  unfolding walk
  iterate_pages max_pages start_cursor =
      if ltb max_pages 1 then none else some (walk max_pages (start_cursor ∷ []) start_cursor)

  -- None where it throws.
  unfoldable pub collect_pages : ℕ → Cursor → Option (List A)
  unfolding iterate_pages
  collect_pages max_pages start_cursor = elim (iterate_pages max_pages start_cursor) [
    | none ↦ none
    | some walked ↦ if walked.threw then none else some walked.yielded
  ]
