-- ===== src/Tests.antt =====
-- The development at concrete inputs.
mod Store
mod Replays
mod Hooks
mod Access
mod Credit
mod Kingdom
mod Transfer
mod Ledgers
mod Deliveries
mod Amounts
mod Streaming
mod Payloads
mod Clients
mod Checks
mod Corrections
