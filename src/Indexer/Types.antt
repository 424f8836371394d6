-- ===== src/Indexer/Types.antt =====
-- The event types of backend/src/services/webhookService.ts, and how an event's symbol names one
-- (`decodeEventType` and its tables in backend/src/services/eventIndexer.ts).
use ziza_lend.Common.{
  Bool, true, false, Option, none, some, List, [], ◌∷◌, if◌then◌else◌, Text, text_eq, codes,
}

pub data EventType : Type 0 where
  loan_requested loan_approved loan_repaid loan_defaulted collateral_liquidated : EventType
  collateral_returned collateral_deposited collateral_released col_dep col_rel : EventType
  late_fee_charged loan_extended loan_cancelled loan_rejected loan_refinanced : EventType
  interest_rate_updated default_term_updated term_limits_updated late_fee_rate_updated : EventType
  grace_period_updated default_window_updated max_loan_amount_updated min_repayment_updated :
      EventType
  max_loans_per_borrower min_rate_bps_updated max_rate_bps_updated rate_oracle_updated : EventType
  deposit withdraw yield_distributed emergency_withdraw deposit_cap_updated : EventType
  withdrawal_cooldown_updated nft_minted score_updated nft_seized nft_burned : EventType
  proposal_created proposal_approved proposal_finalized proposal_cancelled loan_apprv : EventType
  loan_liquidated mint score_upd score_decr seized nft_burned_alias adm_remint hash_upd : EventType
  gov_prop gov_appr gov_fin transfer mnt_auth mnt_rev paused unpaused min_score_updated : EventType
  pool_paused pool_unpaused gov_cncl gov_emerg gov_exp : EventType

-- `SUPPORTED_WEBHOOK_EVENT_TYPES`.
unfoldable pub supported_types : List (Text × EventType)
supported_types =
    (codes "LoanRequested", loan_requested)
    ∷ (codes "LoanApproved", loan_approved)
    ∷ (codes "LoanRepaid", loan_repaid)
    ∷ (codes "LoanDefaulted", loan_defaulted)
    ∷ (codes "CollateralLiquidated", collateral_liquidated)
    ∷ (codes "CollateralReturned", collateral_returned)
    ∷ (codes "CollateralDeposited", collateral_deposited)
    ∷ (codes "CollateralReleased", collateral_released)
    ∷ (codes "ColDep", col_dep)
    ∷ (codes "ColRel", col_rel)
    ∷ (codes "LateFeeCharged", late_fee_charged)
    ∷ (codes "LoanExtended", loan_extended)
    ∷ (codes "LoanCancelled", loan_cancelled)
    ∷ (codes "LoanRejected", loan_rejected)
    ∷ (codes "LoanRefinanced", loan_refinanced)
    ∷ (codes "InterestRateUpdated", interest_rate_updated)
    ∷ (codes "DefaultTermUpdated", default_term_updated)
    ∷ (codes "TermLimitsUpdated", term_limits_updated)
    ∷ (codes "LateFeeRateUpdated", late_fee_rate_updated)
    ∷ (codes "GracePeriodUpdated", grace_period_updated)
    ∷ (codes "DefaultWindowUpdated", default_window_updated)
    ∷ (codes "MaxLoanAmountUpdated", max_loan_amount_updated)
    ∷ (codes "MinRepaymentUpdated", min_repayment_updated)
    ∷ (codes "MaxLoansPerBorrower", max_loans_per_borrower)
    ∷ (codes "MinRateBpsUpdated", min_rate_bps_updated)
    ∷ (codes "MaxRateBpsUpdated", max_rate_bps_updated)
    ∷ (codes "RateOracleUpdated", rate_oracle_updated)
    ∷ (codes "Deposit", deposit)
    ∷ (codes "Withdraw", withdraw)
    ∷ (codes "YieldDistributed", yield_distributed)
    ∷ (codes "EmergencyWithdraw", emergency_withdraw)
    ∷ (codes "DepositCapUpdated", deposit_cap_updated)
    ∷ (codes "WithdrawalCooldownUpdated", withdrawal_cooldown_updated)
    ∷ (codes "NFTMinted", nft_minted)
    ∷ (codes "ScoreUpdated", score_updated)
    ∷ (codes "NFTSeized", nft_seized)
    ∷ (codes "NFTBurned", nft_burned)
    ∷ (codes "ProposalCreated", proposal_created)
    ∷ (codes "ProposalApproved", proposal_approved)
    ∷ (codes "ProposalFinalized", proposal_finalized)
    ∷ (codes "ProposalCancelled", proposal_cancelled)
    ∷ (codes "LoanApprv", loan_apprv)
    ∷ (codes "LoanLiquidated", loan_liquidated)
    ∷ (codes "Mint", mint)
    ∷ (codes "ScoreUpd", score_upd)
    ∷ (codes "ScoreDecr", score_decr)
    ∷ (codes "Seized", seized)
    ∷ (codes "NftBurned", nft_burned_alias)
    ∷ (codes "AdmRemint", adm_remint)
    ∷ (codes "HashUpd", hash_upd)
    ∷ (codes "GovProp", gov_prop)
    ∷ (codes "GovAppr", gov_appr)
    ∷ (codes "GovFin", gov_fin)
    ∷ (codes "Transfer", transfer)
    ∷ (codes "MntAuth", mnt_auth)
    ∷ (codes "MntRev", mnt_rev)
    ∷ (codes "Paused", paused)
    ∷ (codes "Unpaused", unpaused)
    ∷ (codes "MinScoreUpdated", min_score_updated)
    ∷ (codes "PoolPaused", pool_paused)
    ∷ (codes "PoolUnpaused", pool_unpaused)
    ∷ (codes "GovCncl", gov_cncl)
    ∷ (codes "GovEmerg", gov_emerg)
    ∷ (codes "GovExp", gov_exp)
    ∷ []

-- The text of a type, as the column `event_type` has it.
unfoldable pub type_name : EventType → Text
type_name loan_requested = codes "LoanRequested"
type_name loan_approved = codes "LoanApproved"
type_name loan_repaid = codes "LoanRepaid"
type_name loan_defaulted = codes "LoanDefaulted"
type_name collateral_liquidated = codes "CollateralLiquidated"
type_name collateral_returned = codes "CollateralReturned"
type_name collateral_deposited = codes "CollateralDeposited"
type_name collateral_released = codes "CollateralReleased"
type_name col_dep = codes "ColDep"
type_name col_rel = codes "ColRel"
type_name late_fee_charged = codes "LateFeeCharged"
type_name loan_extended = codes "LoanExtended"
type_name loan_cancelled = codes "LoanCancelled"
type_name loan_rejected = codes "LoanRejected"
type_name loan_refinanced = codes "LoanRefinanced"
type_name interest_rate_updated = codes "InterestRateUpdated"
type_name default_term_updated = codes "DefaultTermUpdated"
type_name term_limits_updated = codes "TermLimitsUpdated"
type_name late_fee_rate_updated = codes "LateFeeRateUpdated"
type_name grace_period_updated = codes "GracePeriodUpdated"
type_name default_window_updated = codes "DefaultWindowUpdated"
type_name max_loan_amount_updated = codes "MaxLoanAmountUpdated"
type_name min_repayment_updated = codes "MinRepaymentUpdated"
type_name max_loans_per_borrower = codes "MaxLoansPerBorrower"
type_name min_rate_bps_updated = codes "MinRateBpsUpdated"
type_name max_rate_bps_updated = codes "MaxRateBpsUpdated"
type_name rate_oracle_updated = codes "RateOracleUpdated"
type_name deposit = codes "Deposit"
type_name withdraw = codes "Withdraw"
type_name yield_distributed = codes "YieldDistributed"
type_name emergency_withdraw = codes "EmergencyWithdraw"
type_name deposit_cap_updated = codes "DepositCapUpdated"
type_name withdrawal_cooldown_updated = codes "WithdrawalCooldownUpdated"
type_name nft_minted = codes "NFTMinted"
type_name score_updated = codes "ScoreUpdated"
type_name nft_seized = codes "NFTSeized"
type_name nft_burned = codes "NFTBurned"
type_name proposal_created = codes "ProposalCreated"
type_name proposal_approved = codes "ProposalApproved"
type_name proposal_finalized = codes "ProposalFinalized"
type_name proposal_cancelled = codes "ProposalCancelled"
type_name loan_apprv = codes "LoanApprv"
type_name loan_liquidated = codes "LoanLiquidated"
type_name mint = codes "Mint"
type_name score_upd = codes "ScoreUpd"
type_name score_decr = codes "ScoreDecr"
type_name seized = codes "Seized"
type_name nft_burned_alias = codes "NftBurned"
type_name adm_remint = codes "AdmRemint"
type_name hash_upd = codes "HashUpd"
type_name gov_prop = codes "GovProp"
type_name gov_appr = codes "GovAppr"
type_name gov_fin = codes "GovFin"
type_name transfer = codes "Transfer"
type_name mnt_auth = codes "MntAuth"
type_name mnt_rev = codes "MntRev"
type_name paused = codes "Paused"
type_name unpaused = codes "Unpaused"
type_name min_score_updated = codes "MinScoreUpdated"
type_name pool_paused = codes "PoolPaused"
type_name pool_unpaused = codes "PoolUnpaused"
type_name gov_cncl = codes "GovCncl"
type_name gov_emerg = codes "GovEmerg"
type_name gov_exp = codes "GovExp"

-- The types of which a loan has one event at most, by a unique index of the table.
abbrev pub is_status_type : EventType → Bool
is_status_type loan_approved = true
is_status_type loan_defaulted = true
is_status_type _ = false

-- `EVENT_TYPE_ALIASES`.
unfoldable pub event_type_aliases : List (Text × Text)
event_type_aliases =
    (codes "Mint", codes "NFTMinted")
    ∷ (codes "AdmRemint", codes "NFTMinted")
    ∷ (codes "ScoreUpd", codes "ScoreUpdated")
    ∷ (codes "Seized", codes "NFTSeized")
    ∷ (codes "NftBurned", codes "NFTBurned")
    ∷ (codes "MinScore", codes "MinScoreUpdated")
    ∷ (codes "GovProp", codes "ProposalCreated")
    ∷ (codes "GovAppr", codes "ProposalApproved")
    ∷ (codes "GovFin", codes "ProposalFinalized")
    ∷ (codes "GovCncl", codes "ProposalCancelled")
    ∷ (codes "GovEmerg", codes "ProposalCancelled")
    ∷ (codes "GovExp", codes "ProposalCancelled")
    ∷ (codes "ColDep", codes "CollateralDeposited")
    ∷ (codes "ColRel", codes "CollateralReleased")
    ∷ []

-- The entry of a table under a name.
unfoldable pub find_name : {A : Type 0} → Text → List (Text × A) → Option A
find_name name [] = none
find_name name ((n, a) ∷ rest) = if text_eq n name then some a else find_name name rest

unfoldable pub canonical_name : Text → Text
unfolding find_name event_type_aliases
canonical_name raw = elim (find_name raw event_type_aliases) [ none ↦ raw | some name ↦ name ]

unfoldable pub type_of_symbol : Text → Option EventType
unfolding find_name canonical_name supported_types
type_of_symbol raw = find_name (canonical_name raw) supported_types

-- `ADMIN_CONFIG_EVENT_TYPES`.
unfoldable pub is_admin_config : EventType → Bool
is_admin_config min_score_updated = true
is_admin_config interest_rate_updated = true
is_admin_config default_term_updated = true
is_admin_config term_limits_updated = true
is_admin_config late_fee_rate_updated = true
is_admin_config grace_period_updated = true
is_admin_config default_window_updated = true
is_admin_config max_loan_amount_updated = true
is_admin_config min_repayment_updated = true
is_admin_config max_loans_per_borrower = true
is_admin_config min_rate_bps_updated = true
is_admin_config max_rate_bps_updated = true
is_admin_config rate_oracle_updated = true
is_admin_config _ = false
