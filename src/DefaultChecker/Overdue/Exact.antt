-- ===== src/DefaultChecker/Overdue/Exact.antt =====
-- The loans that are found are those that are overdue.
use mathlib.Core.List.{Memᴰ}
use ziza_lend.Common.{
  ℕ, ◌+◌, ◌≤◌, ◌<◌, ◌≡◌, ◌⊎◌, refl, sym, Bool, true, false, not, ◌&&◌, ◌||◌, inl, inr, Option, none,
  some, List, [], ◌∷◌, map, if◌then◌else◌, text_eq, codes, ltb, ◌==◌, ==_iff, any, all, filter,
  filter-Memᴰ, filter-All, map-All, map-Memᴰ, take-All, take-all, take, length, ltb→lt, lt→ltb, All,
  All-imp, Bool-cases, arith,
}
use ziza_lend.Common.Sort.{sort_by, sort_by-All, sort_by-Memᴰ, length-sort_by}
use ziza_lend.DefaultChecker.Overdue.{
  EventRow, is_loan, is_approval, is_closing, add_loan, approved_loans, approved_ledger, Active,
  active_loans, overdue, in_order, fetch_overdue_loan_ids, fetch_overdue_stats,
}

-- An approval of the loan is there, none is followed by its end, and the term of every approval is over.
unfoldable pub is_overdue : ℕ → ℕ → List EventRow → ℕ → Bool
is_overdue term current events id =
    any (is_approval id) events
    && not (any (is_closing id) events)
    && all (λ e. not (is_approval id e) || ltb (e.ledger + term) current) events

module _ (id : ℕ) where
  any-Memᴰ : (ids : List ℕ) → any (λ other. other == id) ids ≡ true → Memᴰ id ids
  any-Memᴰ [] h = absurd (cc h)
  any-Memᴰ (x ∷ ids) h = elim (Bool-cases (x == id)) [
    | inl same ↦ Memᴰ.head (sym ((==_iff x id).0 same))
    | inr other ↦ Memᴰ.tail (any-Memᴰ ids (ground (arith, h, other)))
  ]

  add_loan-Memᴰ :
      (found : Option ℕ) (ids : List ℕ)
      → (is_loan id found ≡ true) ⊎ Memᴰ id ids
      → Memᴰ id (add_loan found ids)
  unfolding add_loan
  add_loan-Memᴰ none ids (inl e) = absurd (cc e)
  add_loan-Memᴰ none ids (inr m) = m
  add_loan-Memᴰ (some x) ids h = elim (Bool-cases (any (λ other. other == x) ids)) [
    | inl old ↦ rw old (elim h [ inl e ↦ any-Memᴰ ids (rw ((==_iff x id).0 e) at old) | inr m ↦ m ])
    | inr new ↦
        rw new (elim h [ inl e ↦ Memᴰ.head (sym ((==_iff x id).0 e)) | inr m ↦ Memᴰ.tail m ])
  ]

  approved_loans-Memᴰ :
      (events : List EventRow)
      → any (is_approval id) events ≡ true
      → Memᴰ id (approved_loans events)
  unfolding approved_loans is_approval
  approved_loans-Memᴰ [] h = absurd (cc h)
  approved_loans-Memᴰ (e ∷ events) h = elim (Bool-cases (is_approval id e)) [
    | inl this ↦ add_loan-Memᴰ _ (approved_loans events) (inl (ground (arith, this)))
    | inr other ↦
        add_loan-Memᴰ _ (approved_loans events)
          (inr (approved_loans-Memᴰ events (ground (arith, h, other))))
  ]

  approved_ledger-all :
      (term current : ℕ) (events : List EventRow)
      → approved_ledger id events + term < current
      → all (λ e. not (is_approval id e) || ltb (e.ledger + term) current) events ≡ true
  unfolding approved_ledger
  approved_ledger-all term current [] h = refl
  approved_ledger-all term current (e ∷ events) h =
      ground (arith, h, approved_ledger-all term current events)

  -- Without an approval the maximum is 0.
  all-approved_ledger :
      (term current : ℕ) (events : List EventRow)
      → all (λ e. not (is_approval id e) || ltb (e.ledger + term) current) events ≡ true
      → (approved_ledger id events + term < current)
        ⊎ ((any (is_approval id) events ≡ false) × (approved_ledger id events ≡ 0))
  unfolding approved_ledger
  all-approved_ledger term current [] h = inr (refl, refl)
  all-approved_ledger term current (e ∷ events) h = elim (Bool-cases (is_approval id e)) [
    | inl this ↦ inl (elim (all-approved_ledger term current events (ground (arith, h))) [
      | inl before ↦ ground (arith, h, this, before)
      | inr (absent, zero_max) ↦ ground (arith, h, this, zero_max)
    ])
    | inr other ↦ elim (all-approved_ledger term current events (ground (arith, h))) [
      | inl before ↦ inl (ground (arith, h, other, before))
      | inr (absent, zero_max) ↦
          inr (ground (arith, other, absent), ground (arith, other, zero_max))
    ]
  ]

add_loan-All {κ} :
    (P : ℕ → Type κ) (found : Option ℕ) (ids : List ℕ)
    → ((id : ℕ) → found ≡ some id → P id)
    → All P ids
    → All P (add_loan found ids)
unfolding add_loan
add_loan-All P none ids new h = h
add_loan-All P (some x) ids new h = elim (Bool-cases (any (λ other. other == x) ids)) [
  | inl old ↦ rw old h
  | inr fresh ↦ rw fresh (new x refl, h)
]

approved_loans-All :
    (events : List EventRow)
    → All (λ id. any (is_approval id) events ≡ true) (approved_loans events)
unfolding approved_loans is_approval
approved_loans-All [] = tt
approved_loans-All (e ∷ events) =
    add_loan-All _ _ (approved_loans events) (λ id found. this id found)
      (All-imp (approved_loans events) (λ id h. ground (arith, h)) (approved_loans-All events))
  where
    this :
        (id : ℕ)
        → (if text_eq e.event_type (codes "LoanApproved") then e.loan_id else none) ≡ some id
        → any (is_approval id) (e ∷ events) ≡ true
    this id found = elim (Bool-cases (text_eq e.event_type (codes "LoanApproved"))) [
      | inl approval ↦ ground (arith, approval, rw approval at found)
      | inr other ↦ absurd (cc (rw other at found))
    ]

module _ (term current : ℕ) (events : List EventRow) where
  abbrev active : ℕ → Active
  active id = record { loan_id = id; due_ledger = approved_ledger id events + term }

  -- A loan that is found is overdue.
  abbrev IsLate : Active → Type 0
  IsLate a = is_overdue term current events a.loan_id ≡ true

  late :
      (a : Active)
      → (any (is_approval a.loan_id) events ≡ true)
        × (any (is_closing a.loan_id) events ≡ false)
        × (a.due_ledger ≡ approved_ledger a.loan_id events + term)
      → a.due_ledger < current
      → IsLate a
  unfolding is_overdue
  late a h before =
      ground
        (arith, h, approved_ledger-all a.loan_id term current events (ground (arith, h, before)))

  active_loans-All :
      All
        (λ a.
          (any (is_approval a.loan_id) events ≡ true)
          × (any (is_closing a.loan_id) events ≡ false)
          × (a.due_ledger ≡ approved_ledger a.loan_id events + term))
        (active_loans term events)
  unfolding active_loans
  active_loans-All =
      map-All active _ (filter (λ id. not (any (is_closing id) events)) (approved_loans events)) (
        All-imp _ (λ id h. (h.0, ground (arith, h.1), refl))
          (filter-All _ (λ id. not (any (is_closing id) events)) (approved_loans events)
            (approved_loans-All events)))

  overdue-All : All IsLate (overdue term current events)
  unfolding overdue
  overdue-All =
      All-imp _ (λ a h. late a h.0 (ltb→lt a.due_ledger current h.1))
        (filter-All _ (λ a. ltb a.due_ledger current) (active_loans term events) active_loans-All)

  overdue-Memᴰ :
      (id : ℕ)
      → is_overdue term current events id ≡ true
      → Memᴰ (active id) (overdue term current events)
  unfolding overdue active_loans is_overdue
  overdue-Memᴰ id h =
      filter-Memᴰ (λ a. ltb a.due_ledger current) (active_loans term events)
        (ground (arith, h, all-approved_ledger id term current events))
        (map-Memᴰ active
          (filter (λ other. not (any (is_closing other) events)) (approved_loans events))
          (filter-Memᴰ (λ other. not (any (is_closing other) events)) (approved_loans events)
            (ground (arith, h)) (approved_loans-Memᴰ id events (ground (arith, h)))))

  -- Every loan that a run finds by itself is overdue: it has an approval, neither a repayment nor a
  -- default, and the term of each of its approvals ended before the ledger.
  pub fetch_overdue_loan_ids_sound :
      (limit : ℕ)
      → All
          (λ id. is_overdue term current events id ≡ true)
          (fetch_overdue_loan_ids term limit current events)
  unfolding fetch_overdue_loan_ids
  fetch_overdue_loan_ids_sound limit =
      All-imp _ (λ id h. h.0)
        (filter-All _ (ltb 0)
          (map Active.loan_id (take limit (in_order (overdue term current events))))
          (map-All Active.loan_id _ (take limit (in_order (overdue term current events))) (
            take-All IsLate limit (in_order (overdue term current events)) (
              sort_by-All Active.due_ledger IsLate _
                (sort_by-All Active.loan_id IsLate _ overdue-All)))))

  -- Where the count of the statistics is within the limit of a run, the run finds every loan that is overdue
  -- and has an id above 0.
  pub fetch_overdue_loan_ids-whole :
      (limit id : ℕ)
      → (fetch_overdue_stats term current events).overdue_count ≤ limit
      → 0 < id
      → is_overdue term current events id ≡ true
      → Memᴰ id (fetch_overdue_loan_ids term limit current events)
  unfolding fetch_overdue_loan_ids fetch_overdue_stats
  fetch_overdue_loan_ids-whole limit id few real h =
      let rows = overdue term current events in
      let ordered = in_order rows in
      let short : length ordered ≤ limit = omega (
        arith,
        few,
        length-sort_by Active.due_ledger (sort_by Active.loan_id rows),
        length-sort_by Active.loan_id rows,
      ) in
      rw (take-all limit ordered short) (
        filter-Memᴰ (ltb 0) (map Active.loan_id ordered) (lt→ltb 0 id real) (
          map-Memᴰ Active.loan_id ordered (
            sort_by-Memᴰ Active.due_ledger (sort_by Active.loan_id rows)
              (sort_by-Memᴰ Active.loan_id rows (overdue-Memᴰ id h)))))
