-- ===== src/DefaultChecker/Batches.antt =====
-- `chunk` and the submission of one batch of backend/src/services/defaultChecker.ts. What the RPC server
-- answers is a parameter of each batch.
pub mod Chunks
use ziza_lend.Common.{
  ℕ, zero, suc, Bool, true, false, Option, none, some, List, [], ◌∷◌, if◌then◌else◌, Text, take,
  drop, length, ◌==◌,
}

-- The rounds of the loop that are left: as many as there are items are enough.
unfoldable pub chunk_from {ℓ} : {A : Type ℓ} → ℕ → ℕ → List A → List (List A)
chunk_from zero size items = []
chunk_from (suc rounds) size [] = []
chunk_from (suc rounds) size (x ∷ items) =
    take size (x ∷ items) ∷ chunk_from rounds size (drop size (x ∷ items))

unfoldable pub chunk {ℓ} : {A : Type ℓ} → List A → ℕ → List (List A)
unfolding chunk_from
chunk items size = if size == 0 then items ∷ [] else chunk_from (length items) size items

pub data BatchError : Type 0 where
  batch_failed prepare_failed send_failed no_hash timed_out : BatchError

pub record BatchResult : Type 0 where
  pub loan_ids : List ℕ
  pub tx_hash : Option Text
  pub submit_status : Option Text
  pub tx_status : Option Text
  pub error : Option BatchError

-- What a submission meets: whether the account loads and the transaction is prepared, the hash and the
-- status of `sendTransaction`, the status that polling ends with, and whether all of it is in time.
pub record Rpc : Type 0 where
  pub account : Bool
  pub prepared : Bool
  pub sent : Option (Text × Option Text)
  pub polled : Option Text
  pub in_time : Bool

abbrev pub failed_batch : List ℕ → Option Text → BatchError → BatchResult
failed_batch ids status reason = record {
  loan_ids = ids;
  tx_hash = none;
  submit_status = status;
  tx_status = none;
  error = some reason;
}

-- An empty hash counts as none.
unfoldable pub after_send : Rpc → List ℕ → Text → Option Text → BatchResult
after_send rpc ids [] status = failed_batch ids status no_hash
after_send rpc ids (c ∷ hash) status = record {
  loan_ids = ids;
  tx_hash = some (c ∷ hash);
  submit_status = status;
  tx_status = rpc.polled;
  error = none;
}

-- None where it throws.
unfoldable pub submit_check_defaults : Rpc → List ℕ → Option BatchResult
unfolding after_send
submit_check_defaults rpc ids =
    if rpc.account
    then (if rpc.prepared
        then elim rpc.sent [
          | none ↦ some (failed_batch ids none send_failed)
          | some (hash, status) ↦ some (after_send rpc ids hash status)
        ]
        else some (failed_batch ids none prepare_failed))
    else none

unfoldable pub submit_check_defaults_with_timeout : Rpc → List ℕ → BatchResult
unfolding submit_check_defaults
submit_check_defaults_with_timeout rpc ids =
    if rpc.in_time
    then elim (submit_check_defaults rpc ids) [
      | none ↦ failed_batch ids none batch_failed
      | some result ↦ result
    ]
    else failed_batch ids none timed_out

-- `!b.error && b.txHash`, and `b.error || !b.txHash`.
unfoldable pub is_successful : BatchResult → Bool
is_successful b = elim b.error [
  | some e ↦ false
  | none ↦ elim b.tx_hash [ none ↦ false | some hash ↦ true ]
]

unfoldable pub is_failed : BatchResult → Bool
is_failed b = elim b.error [
  | some e ↦ true
  | none ↦ elim b.tx_hash [ none ↦ true | some hash ↦ false ]
]
