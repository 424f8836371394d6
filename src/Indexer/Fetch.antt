-- ===== src/Indexer/Fetch.antt =====
-- `fetchEventsInRange` of backend/src/services/eventIndexer.ts. The RPC server is a parameter: the page
-- that it answers to a range and a cursor, none where the call fails.
pub mod Pages
use ziza_lend.Common.{
  ℕ, zero, suc, Bool, true, false, not, ◌&&◌, ◌||◌, Option, none, some, List, [], ◌∷◌, ◌++◌,
  if◌then◌else◌, Text, text_eq, filter, leb, ltb,
}
use ziza_lend.Common.Sort.{sort_by}
use ziza_lend.Indexer.Values.{RawEvent}

-- `nextCursor` is `response.nextCursor ?? response.cursor`.
pub record Page (ScVal : Type 0) : Type 0 where
  pub events : List (RawEvent ScVal)
  pub next_cursor : Option Text

-- The answer of the whole loop; `unfinished` is the fuel running out.
pub data Fetched (ScVal : Type 0) : Type 0 where
  all_of : List (RawEvent ScVal) → Fetched ScVal
  rpc_error unfinished : Fetched ScVal

module _ {ScVal : Type 0} where
  abbrev pub in_range : ℕ → ℕ → RawEvent ScVal → Bool
  in_range from to e = leb from e.ledger && leb e.ledger to

  -- The cursor of the next call: none where the loop ends, at an empty or unchanged cursor or a page
  -- with nothing in range.
  unfoldable pub continue_at : Option Text → Option Text → List (RawEvent ScVal) → Option Text
  continue_at cursor none events = none
  continue_at cursor (some []) events = none
  continue_at cursor (some (c ∷ s)) [] = none
  continue_at none (some (c ∷ s)) (e ∷ es) = some (c ∷ s)
  continue_at (some old) (some (c ∷ s)) (e ∷ es) =
      if text_eq (c ∷ s) old then none else some (c ∷ s)

  abbrev pub and_then : List (RawEvent ScVal) → Fetched ScVal → Fetched ScVal
  and_then events (all_of rest) = all_of (events ++ rest)
  and_then events rpc_error = rpc_error
  and_then events unfinished = unfinished

  -- `sort` by the ledger.
  abbrev pub sort_by_ledger : List (RawEvent ScVal) → List (RawEvent ScVal)
  sort_by_ledger events = sort_by (λ e. e.ledger) events

  abbrev pub sorted : Fetched ScVal → Fetched ScVal
  sorted (all_of events) = all_of (sort_by_ledger events)
  sorted rpc_error = rpc_error
  sorted unfinished = unfinished

module _ {ScVal : Type 0} (get_events : ℕ → ℕ → Option Text → Option (Page ScVal)) where
  unfoldable pub fetch_pages : ℕ → ℕ → ℕ → Option Text → Fetched ScVal
  unfolding continue_at
  fetch_pages zero from to cursor = unfinished
  fetch_pages (suc fuel) from to cursor = elim (get_events from to cursor) [
    | none ↦ rpc_error
    | some page ↦
        elim (continue_at cursor page.next_cursor (filter (in_range from to) page.events)) [
          | none ↦ all_of (filter (in_range from to) page.events)
          | some next ↦
              and_then (filter (in_range from to) page.events)
                (fetch_pages fuel from to (some next))
        ]
  ]

  unfoldable pub fetch_events_in_range : ℕ → ℕ → ℕ → Fetched ScVal
  unfolding fetch_pages
  fetch_events_in_range fuel from to = sorted (fetch_pages fuel from to none)
