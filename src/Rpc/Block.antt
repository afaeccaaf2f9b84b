-- ===== src/Rpc/Block.antt =====
-- The wrappers about blocks in src/robust_provider/provider.rs, one for each `robust_rpc!`.
use robust_provider.Prelude.{ℕ, Option, List}
use robust_provider.Errors.{Error}
use robust_provider.Errors.Classify.{RetryHints}
use robust_provider.Runtime.{Fut, Result, Runtime}
use robust_provider.Provider.{RobustProvider, Operation}
use robust_provider.Rpc.{robust_rpc, robust_rpc_or}

-- alloy's methods of the same names on a provider, and the types that they speak of.
pub record BlockApi (P T : Type 0) : Type 1 where
  pub BlockNumberOrTag : Type 0
  pub BlockResponse : Type 0
  pub BlockId : Type 0
  pub BlockHash : Type 0
  pub ReceiptResponse : Type 0
  pub PollerBuilder : Type 0
  pub get_block_by_number : BlockNumberOrTag → Operation P T (Option BlockResponse)
  pub get_block : BlockId → Operation P T (Option BlockResponse)
  pub get_block_number : Operation P T ℕ
  pub get_block_number_by_id : BlockId → Operation P T (Option ℕ)
  pub get_block_by_hash : BlockHash → Operation P T (Option BlockResponse)
  pub get_block_receipts : BlockId → Operation P T (Option (List ReceiptResponse))
  pub get_block_transaction_count_by_hash : BlockHash → Operation P T (Option ℕ)
  pub get_block_transaction_count_by_number : BlockNumberOrTag → Operation P T (Option ℕ)
  pub get_uncle_count : BlockId → Operation P T ℕ
  pub get_uncle : BlockId → ℕ → Operation P T (Option BlockResponse)
  pub watch_blocks : Operation P T PollerBuilder

module _ {P T : Type 0} (rt : Runtime P) (hints : RetryHints T) (self : RobustProvider P)
    (api : BlockApi P T) where
  unfoldable pub get_block_by_number :
      api.BlockNumberOrTag → Fut P (Result api.BlockResponse (Error T))
  get_block_by_number number =
      robust_rpc_or rt hints self Error.block_not_found (api.get_block_by_number number)

  unfoldable pub get_block : api.BlockId → Fut P (Result api.BlockResponse (Error T))
  get_block id = robust_rpc_or rt hints self Error.block_not_found (api.get_block id)

  unfoldable pub get_block_number : Fut P (Result ℕ (Error T))
  get_block_number = robust_rpc rt hints self api.get_block_number

  unfoldable pub get_block_number_by_id : api.BlockId → Fut P (Result ℕ (Error T))
  get_block_number_by_id block_id =
      robust_rpc_or rt hints self Error.block_not_found (api.get_block_number_by_id block_id)

  unfoldable pub get_block_by_hash : api.BlockHash → Fut P (Result api.BlockResponse (Error T))
  get_block_by_hash hash =
      robust_rpc_or rt hints self Error.block_not_found (api.get_block_by_hash hash)

  unfoldable pub get_block_receipts :
      api.BlockId → Fut P (Result (List api.ReceiptResponse) (Error T))
  get_block_receipts block =
      robust_rpc_or rt hints self Error.block_not_found (api.get_block_receipts block)

  unfoldable pub get_block_transaction_count_by_hash : api.BlockHash → Fut P (Result ℕ (Error T))
  get_block_transaction_count_by_hash hash =
      robust_rpc_or rt hints self Error.block_not_found
        (api.get_block_transaction_count_by_hash hash)

  unfoldable pub get_block_transaction_count_by_number :
      api.BlockNumberOrTag → Fut P (Result ℕ (Error T))
  get_block_transaction_count_by_number block_number =
      robust_rpc_or rt hints self Error.block_not_found
        (api.get_block_transaction_count_by_number block_number)

  unfoldable pub get_uncle_count : api.BlockId → Fut P (Result ℕ (Error T))
  get_uncle_count block = robust_rpc rt hints self (api.get_uncle_count block)

  unfoldable pub get_uncle : api.BlockId → ℕ → Fut P (Result (Option api.BlockResponse) (Error T))
  get_uncle tag idx = robust_rpc rt hints self (api.get_uncle tag idx)

  unfoldable pub watch_blocks : Fut P (Result api.PollerBuilder (Error T))
  watch_blocks = robust_rpc rt hints self api.watch_blocks
