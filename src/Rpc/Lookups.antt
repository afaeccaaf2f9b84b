-- ===== src/Rpc/Lookups.antt =====
-- The wrappers of src/robust_provider/provider.rs that look something up: the ones that report a
-- missing block, and the ones that hand `None` on.
use robust_provider.Prelude.{ℕ}
use robust_provider.Errors.Classify.{RetryHints}
use robust_provider.Runtime.{World, Runtime, RuntimeLaws}
use robust_provider.Provider.{RobustProvider}
use robust_provider.Rpc.Block.{
  BlockApi, get_block_by_number, get_block, get_block_number_by_id, get_block_by_hash,
  get_block_receipts, get_block_transaction_count_by_hash, get_block_transaction_count_by_number,
  get_uncle,
}
use robust_provider.Rpc.Laws.{
  ReportsMissing, robust_rpc_or-missing_iff, PassesOn, robust_rpc-PassesOn,
}
use robust_provider.Rpc.Transaction.{
  TransactionApi, get_transaction_by_block_hash_and_index,
  get_transaction_by_block_number_and_index, get_transaction_by_hash, get_raw_transaction_by_hash,
  get_transaction_receipt, get_transaction_by_sender_nonce,
  get_raw_transaction_by_block_hash_and_index, get_raw_transaction_by_block_number_and_index,
}

module _ {P T : Type 0} {rt : Runtime P} (laws : RuntimeLaws rt) (hints : RetryHints T)
    (self : RobustProvider P) where
  -- Every wrapper that looks a block up, or something of a block, reports a missing block as it does.
  abbrev pub EachReportsMissing :
      (api : BlockApi P T) → api.BlockNumberOrTag → api.BlockId → api.BlockHash → World P → Type 0
  EachReportsMissing api number id hash w =
      ReportsMissing laws hints self (get_block_by_number rt hints self api number)
        (api.get_block_by_number number) w
      × ReportsMissing laws hints self (get_block rt hints self api id) (api.get_block id) w
      × ReportsMissing laws hints self (get_block_number_by_id rt hints self api id)
          (api.get_block_number_by_id id) w
      × ReportsMissing laws hints self (get_block_by_hash rt hints self api hash)
          (api.get_block_by_hash hash) w
      × ReportsMissing laws hints self (get_block_receipts rt hints self api id)
          (api.get_block_receipts id) w
      × ReportsMissing laws hints self (get_block_transaction_count_by_hash rt hints self api hash)
          (api.get_block_transaction_count_by_hash hash) w
      × ReportsMissing laws hints self
          (get_block_transaction_count_by_number rt hints self api number)
          (api.get_block_transaction_count_by_number number) w

  -- The seven wrappers that look a block up, or something of a block, always come to a result, and
  -- report `BlockNotFound` exactly when the call with failover found `None`, or failed with an error
  -- that names a missing block.
  pub block_lookups-EachReportsMissing :
      (api : BlockApi P T) (number : api.BlockNumberOrTag) (id : api.BlockId) (hash : api.BlockHash)
      (w : World P)
      → EachReportsMissing api number id hash w
  unfolding get_block_by_number get_block get_block_number_by_id get_block_by_hash
      get_block_receipts get_block_transaction_count_by_hash get_block_transaction_count_by_number
  block_lookups-EachReportsMissing api number id hash w = (
    robust_rpc_or-missing_iff laws hints self (api.get_block_by_number number) w,
    robust_rpc_or-missing_iff laws hints self (api.get_block id) w,
    robust_rpc_or-missing_iff laws hints self (api.get_block_number_by_id id) w,
    robust_rpc_or-missing_iff laws hints self (api.get_block_by_hash hash) w,
    robust_rpc_or-missing_iff laws hints self (api.get_block_receipts id) w,
    robust_rpc_or-missing_iff laws hints self (api.get_block_transaction_count_by_hash hash) w,
    robust_rpc_or-missing_iff laws hints self (api.get_block_transaction_count_by_number number) w,
  )

  -- Every wrapper that looks an uncle block or a transaction up hands its result on as it is.
  abbrev pub EachPassesOn :
      (blocks : BlockApi P T)
      → blocks.BlockId
      → (api : TransactionApi P T) → api.B256
      → api.BlockNumberOrTag
      → api.TxHash
      → api.Address
      → ℕ
      → World P
      → Type 0
  EachPassesOn blocks tag api block_hash number hash sender index w =
      PassesOn laws hints self (get_uncle rt hints self blocks tag index)
        (blocks.get_uncle tag index) w
      × PassesOn laws hints self
          (get_transaction_by_block_hash_and_index rt hints self api block_hash index)
          (api.get_transaction_by_block_hash_and_index block_hash index) w
      × PassesOn laws hints self
          (get_transaction_by_block_number_and_index rt hints self api number index)
          (api.get_transaction_by_block_number_and_index number index) w
      × PassesOn laws hints self (get_transaction_by_hash rt hints self api hash)
          (api.get_transaction_by_hash hash) w
      × PassesOn laws hints self (get_raw_transaction_by_hash rt hints self api hash)
          (api.get_raw_transaction_by_hash hash) w
      × PassesOn laws hints self (get_transaction_receipt rt hints self api hash)
          (api.get_transaction_receipt hash) w
      × PassesOn laws hints self (get_transaction_by_sender_nonce rt hints self api sender index)
          (api.get_transaction_by_sender_nonce sender index) w
      × PassesOn laws hints self
          (get_raw_transaction_by_block_hash_and_index rt hints self api block_hash index)
          (api.get_raw_transaction_by_block_hash_and_index block_hash index) w
      × PassesOn laws hints self
          (get_raw_transaction_by_block_number_and_index rt hints self api number index)
          (api.get_raw_transaction_by_block_number_and_index number index) w

  -- The wrappers that look an uncle block or a transaction up always come to a result. They hand
  -- `None` on as a value: `BlockNotFound` is reported exactly when the call failed with an error that
  -- names a missing block.
  pub optional_lookups-EachPassesOn :
      (blocks : BlockApi P T) (tag : blocks.BlockId) (api : TransactionApi P T)
      (block_hash : api.B256) (number : api.BlockNumberOrTag) (hash : api.TxHash)
      (sender : api.Address) (index : ℕ) (w : World P)
      → EachPassesOn blocks tag api block_hash number hash sender index w
  unfolding get_uncle get_transaction_by_block_hash_and_index
      get_transaction_by_block_number_and_index get_transaction_by_hash get_raw_transaction_by_hash
      get_transaction_receipt get_transaction_by_sender_nonce
      get_raw_transaction_by_block_hash_and_index get_raw_transaction_by_block_number_and_index
  optional_lookups-EachPassesOn blocks tag api block_hash number hash sender index w = (
    robust_rpc-PassesOn laws hints self (blocks.get_uncle tag index) w,
    robust_rpc-PassesOn laws hints self
        (api.get_transaction_by_block_hash_and_index block_hash index) w,
    robust_rpc-PassesOn laws hints self (api.get_transaction_by_block_number_and_index number index)
        w,
    robust_rpc-PassesOn laws hints self (api.get_transaction_by_hash hash) w,
    robust_rpc-PassesOn laws hints self (api.get_raw_transaction_by_hash hash) w,
    robust_rpc-PassesOn laws hints self (api.get_transaction_receipt hash) w,
    robust_rpc-PassesOn laws hints self (api.get_transaction_by_sender_nonce sender index) w,
    robust_rpc-PassesOn laws hints self
        (api.get_raw_transaction_by_block_hash_and_index block_hash index) w,
    robust_rpc-PassesOn laws hints self
        (api.get_raw_transaction_by_block_number_and_index number index) w,
  )
