-- ===== src/Rpc/Transaction.antt =====
-- The wrappers about transactions in src/robust_provider/provider.rs, one for each `robust_rpc!`.
use robust_provider.Prelude.{ℕ, Option, List}
use robust_provider.Errors.{Error}
use robust_provider.Errors.Classify.{RetryHints}
use robust_provider.Runtime.{Fut, Result, Runtime}
use robust_provider.Provider.{RobustProvider, Operation}
use robust_provider.Rpc.{robust_rpc}

-- alloy's methods of the same names on a provider, and the types that they speak of.
pub record TransactionApi (P T : Type 0) : Type 1 where
  pub TransactionRequest : Type 0
  pub Bytes : Type 0
  pub FillTransaction : Type 0
  pub B256 : Type 0
  pub TransactionResponse : Type 0
  pub BlockNumberOrTag : Type 0
  pub TxHash : Type 0
  pub ReceiptResponse : Type 0
  pub PendingTransactionBuilder : Type 0
  pub TransactionConditional : Type 0
  pub TxEnvelope : Type 0
  pub Address : Type 0
  pub sign_transaction : TransactionRequest → Operation P T Bytes
  pub fill_transaction : TransactionRequest → Operation P T FillTransaction
  pub get_transaction_by_block_hash_and_index :
      B256 → ℕ → Operation P T (Option TransactionResponse)
  pub get_transaction_by_block_number_and_index :
      BlockNumberOrTag → ℕ → Operation P T (Option TransactionResponse)
  pub get_transaction_by_hash : TxHash → Operation P T (Option TransactionResponse)
  pub get_raw_transaction_by_hash : TxHash → Operation P T (Option Bytes)
  pub get_transaction_receipt : TxHash → Operation P T (Option ReceiptResponse)
  pub send_raw_transaction : List ℕ → Operation P T PendingTransactionBuilder
  pub send_raw_transaction_sync : List ℕ → Operation P T ReceiptResponse
  pub send_raw_transaction_conditional :
      List ℕ → TransactionConditional → Operation P T PendingTransactionBuilder
  pub send_transaction : TransactionRequest → Operation P T PendingTransactionBuilder
  pub send_tx_envelope : TxEnvelope → Operation P T PendingTransactionBuilder
  pub send_transaction_sync : TransactionRequest → Operation P T ReceiptResponse
  pub get_transaction_by_sender_nonce : Address → ℕ → Operation P T (Option TransactionResponse)
  pub get_raw_transaction_by_block_hash_and_index : B256 → ℕ → Operation P T (Option Bytes)
  pub get_raw_transaction_by_block_number_and_index :
      BlockNumberOrTag → ℕ → Operation P T (Option Bytes)

module _ {P T : Type 0} (rt : Runtime P) (hints : RetryHints T) (self : RobustProvider P)
    (api : TransactionApi P T) where
  unfoldable pub sign_transaction : api.TransactionRequest → Fut P (Result api.Bytes (Error T))
  sign_transaction tx = robust_rpc rt hints self (api.sign_transaction tx)

  unfoldable pub fill_transaction :
      api.TransactionRequest → Fut P (Result api.FillTransaction (Error T))
  fill_transaction tx = robust_rpc rt hints self (api.fill_transaction tx)

  unfoldable pub get_transaction_by_block_hash_and_index :
      api.B256 → ℕ → Fut P (Result (Option api.TransactionResponse) (Error T))
  get_transaction_by_block_hash_and_index block_hash index =
      robust_rpc rt hints self (api.get_transaction_by_block_hash_and_index block_hash index)

  unfoldable pub get_transaction_by_block_number_and_index :
      api.BlockNumberOrTag → ℕ → Fut P (Result (Option api.TransactionResponse) (Error T))
  get_transaction_by_block_number_and_index block_number index =
      robust_rpc rt hints self (api.get_transaction_by_block_number_and_index block_number index)

  unfoldable pub get_transaction_by_hash :
      api.TxHash → Fut P (Result (Option api.TransactionResponse) (Error T))
  get_transaction_by_hash hash = robust_rpc rt hints self (api.get_transaction_by_hash hash)

  unfoldable pub get_raw_transaction_by_hash :
      api.TxHash → Fut P (Result (Option api.Bytes) (Error T))
  get_raw_transaction_by_hash hash = robust_rpc rt hints self (api.get_raw_transaction_by_hash hash)

  unfoldable pub get_transaction_receipt :
      api.TxHash → Fut P (Result (Option api.ReceiptResponse) (Error T))
  get_transaction_receipt hash = robust_rpc rt hints self (api.get_transaction_receipt hash)

  unfoldable pub send_raw_transaction :
      List ℕ → Fut P (Result api.PendingTransactionBuilder (Error T))
  send_raw_transaction encoded_tx = robust_rpc rt hints self (api.send_raw_transaction encoded_tx)

  unfoldable pub send_raw_transaction_sync : List ℕ → Fut P (Result api.ReceiptResponse (Error T))
  send_raw_transaction_sync encoded_tx =
      robust_rpc rt hints self (api.send_raw_transaction_sync encoded_tx)

  unfoldable pub send_raw_transaction_conditional :
      List ℕ → api.TransactionConditional → Fut P (Result api.PendingTransactionBuilder (Error T))
  send_raw_transaction_conditional encoded_tx conditional =
      robust_rpc rt hints self (api.send_raw_transaction_conditional encoded_tx conditional)

  unfoldable pub send_transaction :
      api.TransactionRequest → Fut P (Result api.PendingTransactionBuilder (Error T))
  send_transaction tx = robust_rpc rt hints self (api.send_transaction tx)

  unfoldable pub send_tx_envelope :
      api.TxEnvelope → Fut P (Result api.PendingTransactionBuilder (Error T))
  send_tx_envelope tx = robust_rpc rt hints self (api.send_tx_envelope tx)

  unfoldable pub send_transaction_sync :
      api.TransactionRequest → Fut P (Result api.ReceiptResponse (Error T))
  send_transaction_sync tx = robust_rpc rt hints self (api.send_transaction_sync tx)

  unfoldable pub get_transaction_by_sender_nonce :
      api.Address → ℕ → Fut P (Result (Option api.TransactionResponse) (Error T))
  get_transaction_by_sender_nonce sender nonce =
      robust_rpc rt hints self (api.get_transaction_by_sender_nonce sender nonce)

  unfoldable pub get_raw_transaction_by_block_hash_and_index :
      api.B256 → ℕ → Fut P (Result (Option api.Bytes) (Error T))
  get_raw_transaction_by_block_hash_and_index block_hash index =
      robust_rpc rt hints self (api.get_raw_transaction_by_block_hash_and_index block_hash index)

  unfoldable pub get_raw_transaction_by_block_number_and_index :
      api.BlockNumberOrTag → ℕ → Fut P (Result (Option api.Bytes) (Error T))
  get_raw_transaction_by_block_number_and_index block_number index =
      robust_rpc rt hints self
        (api.get_raw_transaction_by_block_number_and_index block_number index)
