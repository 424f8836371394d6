-- ===== src/DefaultChecker/Overdue.antt =====
-- `fetchOverdueLoanIds` and `fetchOverdueStats` of backend/src/services/defaultChecker.ts. The table
-- `contract_events` is a list of rows with the columns that the queries read.
pub mod Exact
use ziza_lend.Common.{
  ℕ, ◌+◌, ◌-◌, ◌<◌, min, max, Bool, true, false, not, ◌&&◌, ◌||◌, Option, none, some, List, [], ◌∷◌,
  map, if◌then◌else◌, Text, text_eq, codes, ltb, ◌==◌, any, all, filter, take, length,
}
use ziza_lend.Common.Sort.{sort_by}

pub record EventRow : Type 0 where
  pub event_type : Text
  pub loan_id : Option ℕ
  pub ledger : ℕ

abbrev pub default_term_ledgers : ℕ
default_term_ledgers = 17280

abbrev pub is_loan : ℕ → Option ℕ → Bool
is_loan id none = false
is_loan id (some other) = other == id

unfoldable pub is_approval : ℕ → EventRow → Bool
unfolding text_eq
is_approval id e = text_eq e.event_type (codes "LoanApproved") && is_loan id e.loan_id

unfoldable pub is_closing : ℕ → EventRow → Bool
unfolding text_eq
is_closing id e =
    (text_eq e.event_type (codes "LoanRepaid") || text_eq e.event_type (codes "LoanDefaulted"))
    && is_loan id e.loan_id

-- The loans of the approvals, each once.
unfoldable pub add_loan : Option ℕ → List ℕ → List ℕ
add_loan none ids = ids
add_loan (some id) ids = if any (λ other. other == id) ids then ids else id ∷ ids

unfoldable pub approved_loans : List EventRow → List ℕ
unfolding add_loan text_eq
approved_loans [] = []
approved_loans (e ∷ events) =
    add_loan (if text_eq e.event_type (codes "LoanApproved") then e.loan_id else none)
      (approved_loans events)

-- `MAX(ledger)` of the approvals of a loan.
unfoldable pub approved_ledger : ℕ → List EventRow → ℕ
unfolding is_approval
approved_ledger id [] = 0
approved_ledger id (e ∷ events) =
    max (if is_approval id e then e.ledger else 0) (approved_ledger id events)

pub record Active : Type 0 where
  pub loan_id : ℕ
  pub due_ledger : ℕ

unfoldable pub active_loans : ℕ → List EventRow → List Active
unfolding approved_loans approved_ledger is_closing
active_loans term events =
    map (λ id. record { loan_id = id; due_ledger = approved_ledger id events + term })
      (filter (λ id. not (any (is_closing id) events)) (approved_loans events))

unfoldable pub overdue : ℕ → ℕ → List EventRow → List Active
unfolding active_loans
overdue term current events = filter (λ a. ltb a.due_ledger current) (active_loans term events)

-- `ORDER BY due_ledger ASC, loan_id ASC`.
abbrev pub in_order : List Active → List Active
in_order rows = sort_by Active.due_ledger (sort_by Active.loan_id rows)

unfoldable pub fetch_overdue_loan_ids : ℕ → ℕ → ℕ → List EventRow → List ℕ
unfolding overdue sort_by
fetch_overdue_loan_ids term limit current events =
    filter (ltb 0) (map Active.loan_id (take limit (in_order (overdue term current events))))

pub record Stats : Type 0 where
  pub overdue_count : ℕ
  pub oldest_due_ledger : Option ℕ
  pub ledgers_past_oldest_due : Option ℕ

-- `MIN(due_ledger)`.
unfoldable pub oldest : List Active → Option ℕ
oldest [] = none
oldest (a ∷ rows) = elim (oldest rows) [
  | none ↦ some a.due_ledger
  | some due ↦ some (min a.due_ledger due)
]

unfoldable pub fetch_overdue_stats : ℕ → ℕ → List EventRow → Stats
unfolding overdue oldest
fetch_overdue_stats term current events =
    let rows = overdue term current events in
    record {
      overdue_count = length rows;
      oldest_due_ledger = oldest rows;
      ledgers_past_oldest_due = elim (oldest rows) [
        | none ↦ none
        | some due ↦ some (current - due)
      ];
    }
