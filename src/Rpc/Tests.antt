-- ===== src/Rpc/Tests.antt =====
-- Tests of the RPC wrappers of src/robust_provider/provider.rs, by the theorems at concrete inputs.
use robust_provider.Prelude.{ℕ, ◌≡◌, refl, ◌∷◌, [], Option, some, none}
use robust_provider.Fixtures.{hints, start, provider, alone, ask, number}
use robust_provider.Errors.{Error}
use robust_provider.Runtime.{World, done, Result, ok}
use robust_provider.Runtime.Instance.{simple_runtime, simple_laws, settle, retry_loop, doubling}
use robust_provider.Provider.{
  RobustProvider, Operation, attempt, retried, try_provider_with_timeout,
  try_operation_with_failover,
}
use robust_provider.Rpc.{
  unwrap, unwrap_or, FeeApi, robust_rpc, robust_rpc_or, base_fee, estimate_eip1559_fees_with,
}
use robust_provider.Rpc.Block.{BlockApi}
use robust_provider.Rpc.FeeBranches.{Estimates, estimate_eip1559_fees_with-Estimates}
use robust_provider.Rpc.Lookups.{
  EachReportsMissing, EachPassesOn, block_lookups-EachReportsMissing, optional_lookups-EachPassesOn,
}
use robust_provider.Rpc.Accounted.{Accounted, AccountedOr}
use robust_provider.Rpc.Provenance.{wrappers-Accounted}
use robust_provider.Rpc.Transaction.{TransactionApi}

abbrev blocks : BlockApi ℕ (Unit {0})
blocks = record {
  BlockNumberOrTag = ℕ;
  BlockResponse = ℕ;
  BlockId = ℕ;
  BlockHash = ℕ;
  ReceiptResponse = ℕ;
  PollerBuilder = ℕ;
  get_block_by_number = λ _. ask (some 42);
  get_block = λ _. ask (some 42);
  get_block_number = ask 42;
  get_block_number_by_id = λ _. ask (some 42);
  get_block_by_hash = λ _. ask (some 42);
  get_block_receipts = λ _. ask (some (42 ∷ []));
  get_block_transaction_count_by_hash = λ _. ask (some 42);
  get_block_transaction_count_by_number = λ _. ask (some 42);
  get_uncle_count = λ _. ask 42;
  get_uncle = λ _ _. ask (some 42);
  watch_blocks = ask 42;
}

abbrev transactions : TransactionApi ℕ (Unit {0})
transactions = record {
  TransactionRequest = ℕ;
  Bytes = ℕ;
  FillTransaction = ℕ;
  B256 = ℕ;
  TransactionResponse = ℕ;
  BlockNumberOrTag = ℕ;
  TxHash = ℕ;
  ReceiptResponse = ℕ;
  PendingTransactionBuilder = ℕ;
  TransactionConditional = ℕ;
  TxEnvelope = ℕ;
  Address = ℕ;
  sign_transaction = λ _. ask 42;
  fill_transaction = λ _. ask 42;
  get_transaction_by_block_hash_and_index = λ _ _. ask (some 42);
  get_transaction_by_block_number_and_index = λ _ _. ask (some 42);
  get_transaction_by_hash = λ _. ask (some 42);
  get_raw_transaction_by_hash = λ _. ask (some 42);
  get_transaction_receipt = λ _. ask (some 42);
  send_raw_transaction = λ _. ask 42;
  send_raw_transaction_sync = λ _. ask 42;
  send_raw_transaction_conditional = λ _ _. ask 42;
  send_transaction = λ _. ask 42;
  send_tx_envelope = λ _. ask 42;
  send_transaction_sync = λ _. ask 42;
  get_transaction_by_sender_nonce = λ _ _. ask (some 42);
  get_raw_transaction_by_block_hash_and_index = λ _ _. ask (some 42);
  get_raw_transaction_by_block_number_and_index = λ _ _. ask (some 42);
}

block_lookups-EachReportsMissing_example :
    EachReportsMissing (simple_laws ℕ) hints provider blocks 1 2 3 start
block_lookups-EachReportsMissing_example =
    block_lookups-EachReportsMissing (simple_laws ℕ) hints provider blocks 1 2 3 start

optional_lookups-EachPassesOn_example :
    EachPassesOn (simple_laws ℕ) hints provider blocks 1 transactions 2 3 4 5 6 start
optional_lookups-EachPassesOn_example =
    optional_lookups-EachPassesOn (simple_laws ℕ) hints provider blocks 1 transactions 2 3 4 5 6
      start

-- A history is its base fee, and so is a block; this chain's history gives zero.
abbrev fees : FeeApi ℕ (Unit {0})
fees = record {
  FeeHistory = ℕ;
  Block = ℕ;
  Rewards = ℕ;
  Estimation = ℕ;
  get_fee_history = ask 0;
  get_latest_block = ask (some 9);
  latest_block_base_fee = some;
  reward = λ history. none;
  no_rewards = 0;
  base_fee_per_gas = some;
}

abbrev estimate : ℕ → ℕ → ℕ
estimate fee rewards = fee

-- Node 3 alone, which answers each of the two calls after 7.
abbrev quick : RobustProvider ℕ
quick = record alone { primary_provider = 3 }

abbrev estimated : World ℕ
estimated = record { now = 19; calls = 3 ∷ 3 ∷ [] }

by_latest_block :
    estimate_eip1559_fees_with (simple_runtime ℕ) hints quick fees estimate start
    ≡ done (ok 9) estimated
unfolding estimate_eip1559_fees_with base_fee robust_rpc robust_rpc_or unwrap unwrap_or
    try_operation_with_failover try_provider_with_timeout retried attempt simple_runtime settle
    retry_loop doubling
by_latest_block = refl

estimate_eip1559_fees_with-Estimates_example :
    (r : Result ℕ (Error (Unit {0}))) × (u : World ℕ) × (estimate_eip1559_fees_with
        (simple_runtime ℕ)
        hints
        quick
        fees
        estimate
        start
      ≡ done r u)
    × Estimates (simple_runtime ℕ) hints quick fees estimate start u r
estimate_eip1559_fees_with-Estimates_example =
    estimate_eip1559_fees_with-Estimates (simple_laws ℕ) hints quick fees estimate start

abbrev found : Operation ℕ (Unit {0}) (Option ℕ)
found = ask (some 42)

wrappers-Accounted_example :
    ((r : Result ℕ (Error (Unit {0}))) × (u : World ℕ) × (robust_rpc
          (simple_runtime ℕ)
          hints
          provider
          number
          start
        ≡ done r u)
      × Accounted (simple_runtime ℕ) hints provider number r u)
    × ((r : Result ℕ (Error (Unit {0}))) × (u : World ℕ) × (robust_rpc_or
            (simple_runtime ℕ)
            hints
            provider
            Error.block_not_found
            found
            start
          ≡ done r u)
        × AccountedOr (simple_runtime ℕ) hints provider found r u)
wrappers-Accounted_example = wrappers-Accounted (simple_laws ℕ) hints provider number found start
