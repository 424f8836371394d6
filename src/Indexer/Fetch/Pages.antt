-- ===== src/Indexer/Fetch/Pages.antt =====
-- What the loop over the pages gathers, and when it ends.
use mathlib.Core.List.{Perm}
use mathlib.Core.Path.{subst}
use ziza_lend.Common.{
  ℕ, zero, suc, ◌≤◌, ◌≡◌, refl, ap, inl, inr, Option, none, some, List, [], ◌∷◌, ◌++◌, Text, filter,
  arith, All, All-append, Bool-cases, Option-cases, any, true, text_eq, text_eq_refl, text_eq_iff,
  sym,
}
use ziza_lend.Common.Sort.{IsAscending, sort_by-All, sort_by-IsAscending, sort_by-Perm}
use ziza_lend.Indexer.Values.{RawEvent}
use ziza_lend.Indexer.Fetch.{
  Page, Fetched, all_of, rpc_error, unfinished, in_range, continue_at, and_then, sort_by_ledger,
  sorted, fetch_pages, fetch_events_in_range,
}

module _ {ScVal : Type 0} (get_events : ℕ → ℕ → Option Text → Option (Page ScVal))
    (from to : ℕ) where
  -- The server has nothing behind this page: it names no cursor or the one that was asked for, or none of
  -- its events is in the range.
  pub data IsFinal (cursor : Option Text) (page : Page ScVal) : Type 0 where
    no_cursor : page.next_cursor ≡ none → IsFinal cursor page
    empty_cursor : page.next_cursor ≡ some [] → IsFinal cursor page
    cursor_stays :
        {c : ℕ} {s : Text}
        → cursor ≡ some (c ∷ s)
        → page.next_cursor ≡ some (c ∷ s)
        → IsFinal cursor page
    no_events : filter (in_range from to) page.events ≡ [] → IsFinal cursor page

  -- The page goes on at a new cursor.
  abbrev pub GoesOn : Option Text → Page ScVal → ℕ → Text → Type 0
  GoesOn cursor page c s =
      (page.next_cursor ≡ some (c ∷ s))
      × ((cursor ≡ some (c ∷ s)) → ⊥)
      × (any (in_range from to) page.events ≡ true)

  -- The server answers the range in the given number of pages from a cursor on, with these events.
  pub data Serves : Option Text → List (RawEvent ScVal) → ℕ → Type 0 where
    last :
        {cursor : Option Text} {page : Page ScVal} (events : List (RawEvent ScVal))
        → get_events from to cursor ≡ some page
        → IsFinal cursor page
        → events ≡ filter (in_range from to) page.events
        → Serves cursor events 1
    more :
        {cursor : Option Text} {page : Page ScVal} {c : ℕ} {s : Text} {rest : List (RawEvent ScVal)}
        {n : ℕ} (events : List (RawEvent ScVal))
        → get_events from to cursor ≡ some page
        → GoesOn cursor page c s
        → Serves (some (c ∷ s)) rest n
        → events ≡ filter (in_range from to) page.events ++ rest
        → Serves cursor events (suc n)

  -- A call fails after that many pages.
  pub data Breaks : Option Text → ℕ → Type 0 where
    now : {cursor : Option Text} → get_events from to cursor ≡ none → Breaks cursor 1
    later :
        {cursor : Option Text} {page : Page ScVal} {c : ℕ} {s : Text} {n : ℕ}
        → get_events from to cursor ≡ some page
        → GoesOn cursor page c s
        → Breaks (some (c ∷ s)) n
        → Breaks cursor (suc n)

  continue_at-none :
      (cursor : Option Text) (page : Page ScVal)
      → IsFinal cursor page
      → continue_at cursor page.next_cursor (filter (in_range from to) page.events) ≡ none
  unfolding continue_at
  continue_at-none cursor page (no_cursor e) = rw (continue_at, e) refl
  continue_at-none cursor page (empty_cursor e) = rw (continue_at, e) refl
  continue_at-none cursor page (cursor_stays {c} {s} asked e) =
      rw (asked, e) (unmoved c s (filter (in_range from to) page.events))
    where
      unmoved :
          (c : ℕ) (s : Text) (es : List (RawEvent ScVal))
          → continue_at (some (c ∷ s)) (some (c ∷ s)) es ≡ none
      unmoved c s [] = refl
      unmoved c s (e ∷ es) = rw (continue_at, text_eq_refl (c ∷ s)) refl
  continue_at-none cursor page (no_events e) = rw e (ended cursor page.next_cursor)
    where
      ended : (old next : Option Text) → continue_at {ScVal = ScVal} old next [] ≡ none
      ended old none = refl
      ended old (some []) = refl
      ended old (some (c ∷ s)) = refl

  continue_at-some :
      (cursor : Option Text) (page : Page ScVal) (c : ℕ) (s : Text)
      → GoesOn cursor page c s
      → continue_at cursor page.next_cursor (filter (in_range from to) page.events) ≡ some (c ∷ s)
  unfolding continue_at
  continue_at-some cursor page c s (e, new, found) = rw e (moved cursor page.events new found)
    where
      onward :
          (old : Option Text) (x : RawEvent ScVal) (xs : List (RawEvent ScVal))
          → ((old ≡ some (c ∷ s)) → ⊥)
          → continue_at old (some (c ∷ s)) (x ∷ xs) ≡ some (c ∷ s)
      onward none x xs new = refl
      onward (some old) x xs new = elim (Bool-cases (text_eq (c ∷ s) old)) [
        | inl same ↦ absurd (new (ap some (sym ((text_eq_iff (c ∷ s) old).0 same))))
        | inr apart ↦ rw (continue_at, apart) refl
      ]

      moved :
          (old : Option Text) (es : List (RawEvent ScVal))
          → ((old ≡ some (c ∷ s)) → ⊥)
          → any (in_range from to) es ≡ true
          → continue_at old (some (c ∷ s)) (filter (in_range from to) es) ≡ some (c ∷ s)
      moved old [] new found = absurd (cc found)
      moved old (x ∷ xs) new found = elim (Bool-cases (in_range from to x)) [
        | inl t ↦ rw t (onward old x (filter (in_range from to) xs) new)
        | inr f ↦ rw f (moved old xs new (rw f at found))
      ]

  fetch_pages-Serves :
      (fuel : ℕ) {cursor : Option Text} {events : List (RawEvent ScVal)} {n : ℕ}
      → Serves cursor events n
      → n ≤ fuel
      → fetch_pages get_events fuel from to cursor ≡ all_of events
  unfolding fetch_pages
  fetch_pages-Serves zero (last events g f e) h = absurd (omega arith)
  fetch_pages-Serves (suc fuel) {cursor} (last {page} events g f e) h =
      rw (fetch_pages, g, continue_at-none cursor page f, e) refl
  fetch_pages-Serves zero (more events g c s e) h = absurd (omega arith)
  fetch_pages-Serves (suc fuel) {cursor} (more {page} {c} {s} events g k v e) h =
      rw
        (
          fetch_pages,
          g,
          continue_at-some cursor page c s k,
          fetch_pages-Serves fuel v (omega arith),
          e,
        )
        refl

  fetch_pages-Breaks :
      (fuel : ℕ) {cursor : Option Text} {n : ℕ}
      → Breaks cursor n
      → n ≤ fuel
      → fetch_pages get_events fuel from to cursor ≡ rpc_error
  unfolding fetch_pages
  fetch_pages-Breaks zero (now g) h = absurd (omega arith)
  fetch_pages-Breaks (suc fuel) (now g) h = rw (fetch_pages, g) refl
  fetch_pages-Breaks zero (later g k v) h = absurd (omega arith)
  fetch_pages-Breaks (suc fuel) {cursor} (later {page} {c} {s} g k v) h =
      rw
        (
          fetch_pages,
          g,
          continue_at-some cursor page c s k,
          fetch_pages-Breaks fuel v (omega arith),
        )
        refl

  abbrev pub IsWithin : RawEvent ScVal → Type 0
  IsWithin e = (from ≤ e.ledger) × (e.ledger ≤ to)

  filter-IsWithin : (es : List (RawEvent ScVal)) → All IsWithin (filter (in_range from to) es)
  filter-IsWithin [] = tt
  filter-IsWithin (e ∷ es) = elim (Bool-cases (in_range from to e)) [
    | inl t ↦ rw t (ground arith, filter-IsWithin es)
    | inr f ↦ rw f (filter-IsWithin es)
  ]

  -- Nothing but events of the range, where anything was fetched.
  abbrev pub AreWithin : Fetched ScVal → Type 0
  AreWithin (all_of events) = All IsWithin events
  AreWithin rpc_error = Unit
  AreWithin unfinished = Unit

  and_then-AreWithin :
      (es : List (RawEvent ScVal)) (rest : Fetched ScVal)
      → All IsWithin es
      → AreWithin rest
      → AreWithin (and_then es rest)
  and_then-AreWithin es (all_of rest) h k = All-append IsWithin es rest h k
  and_then-AreWithin es rpc_error h k = tt
  and_then-AreWithin es unfinished h k = tt

  fetch_pages-AreWithin :
      (fuel : ℕ) (cursor : Option Text) → AreWithin (fetch_pages get_events fuel from to cursor)
  unfolding fetch_pages
  fetch_pages-AreWithin zero cursor = tt
  fetch_pages-AreWithin (suc fuel) cursor = elim (Option-cases (get_events from to cursor)) [
    | inl g ↦ rw (fetch_pages, g) tt
    | inr (page, g) ↦
        elim (Option-cases
          (continue_at cursor page.next_cursor (filter (in_range from to) page.events))) [
            | inl c ↦ rw (fetch_pages, g, c) (filter-IsWithin page.events)
            | inr (next, c) ↦
                rw (fetch_pages, g, c)
                  (and_then-AreWithin (filter (in_range from to) page.events)
                    (fetch_pages get_events fuel from to (some next)) (filter-IsWithin page.events)
                    (fetch_pages-AreWithin fuel (some next)))
          ]
  ]

module _ {ScVal : Type 0} (get_events : ℕ → ℕ → Option Text → Option (Page ScVal))
    (from to : ℕ) where
  sorted-AreWithin :
      (f : Fetched ScVal) → AreWithin get_events from to f → AreWithin get_events from to (sorted f)
  sorted-AreWithin (all_of es) h = sort_by-All (λ e. e.ledger) (IsWithin get_events from to) es h
  sorted-AreWithin rpc_error h = tt
  sorted-AreWithin unfinished h = tt

  pub fetch_events_in_range-AreWithin :
      (fuel : ℕ) → AreWithin get_events from to (fetch_events_in_range get_events fuel from to)
  unfolding fetch_events_in_range
  fetch_events_in_range-AreWithin fuel =
      sorted-AreWithin (fetch_pages get_events fuel from to none)
        (fetch_pages-AreWithin get_events from to fuel none)

  pub fetch_events_in_range-Breaks :
      (fuel : ℕ) {n : ℕ}
      → Breaks get_events from to none n
      → n ≤ fuel
      → fetch_events_in_range get_events fuel from to ≡ rpc_error
  unfolding fetch_events_in_range
  fetch_events_in_range-Breaks fuel v h = ap sorted (fetch_pages-Breaks get_events from to fuel v h)

  pub fetch_events_in_range-all :
      (fuel : ℕ) {events : List (RawEvent ScVal)} {n : ℕ}
      → Serves get_events from to none events n
      → n ≤ fuel
      → fetch_events_in_range get_events fuel from to ≡ all_of (sort_by_ledger events)
  unfolding fetch_events_in_range
  fetch_events_in_range-all fuel v h = ap sorted (fetch_pages-Serves get_events from to fuel v h)

  -- Where the server lays the range out in n pages, each but the last with an event of the range and a new
  -- cursor, the loop over the pages ends within n turns, and `fetchEventsInRange` returns the events of all
  -- the pages that lie in the range, each as often as it was served, by rising ledger.
  pub fetch_events_in_range-Serves :
      (fuel : ℕ) {events : List (RawEvent ScVal)} {n : ℕ}
      → Serves get_events from to none events n
      → n ≤ fuel
      → (fetched : List (RawEvent ScVal)) × (fetch_events_in_range get_events fuel from to
          ≡ all_of fetched)
        × Perm fetched events
        × IsAscending (λ e. e.ledger) fetched
        × All (IsWithin get_events from to) fetched
  unfolding fetch_events_in_range
  fetch_events_in_range-Serves fuel {events = events} s h = (
    sort_by_ledger events,
    ap sorted (fetch_pages-Serves get_events from to fuel s h),
    sort_by-Perm (λ e. e.ledger) events,
    sort_by-IsAscending (λ e. e.ledger) events,
    subst (AreWithin get_events from to)
        (ap sorted (fetch_pages-Serves get_events from to fuel s h))
        (fetch_events_in_range-AreWithin fuel),
  )
