-- ===== src/Rpc/Fee.antt =====
-- The wrappers about fees in src/robust_provider/provider.rs, one for each `robust_rpc!`.
use robust_provider.Prelude.{ℕ, List}
use robust_provider.Errors.{Error}
use robust_provider.Errors.Classify.{RetryHints}
use robust_provider.Runtime.{Fut, Result, Runtime}
use robust_provider.Provider.{RobustProvider, Operation}
use robust_provider.Rpc.{robust_rpc}

-- alloy's methods of the same names on a provider, and the types that they speak of.
pub record FeeApi (P T : Type 0) : Type 1 where
  pub Eip1559Estimation : Type 0
  pub BlockNumberOrTag : Type 0
  pub Percentile : Type 0
  pub FeeHistory : Type 0
  pub get_blob_base_fee : Operation P T ℕ
  pub estimate_eip1559_fees : Operation P T Eip1559Estimation
  pub get_fee_history : ℕ → BlockNumberOrTag → List Percentile → Operation P T FeeHistory
  pub get_gas_price : Operation P T ℕ
  pub get_max_priority_fee_per_gas : Operation P T ℕ

module _ {P T : Type 0} (rt : Runtime P) (hints : RetryHints T) (self : RobustProvider P)
    (api : FeeApi P T) where
  unfoldable pub get_blob_base_fee : Fut P (Result ℕ (Error T))
  get_blob_base_fee = robust_rpc rt hints self api.get_blob_base_fee

  unfoldable pub estimate_eip1559_fees : Fut P (Result api.Eip1559Estimation (Error T))
  estimate_eip1559_fees = robust_rpc rt hints self api.estimate_eip1559_fees

  unfoldable pub get_fee_history :
      ℕ → api.BlockNumberOrTag → List api.Percentile → Fut P (Result api.FeeHistory (Error T))
  get_fee_history block_count last_block reward_percentiles =
      robust_rpc rt hints self (api.get_fee_history block_count last_block reward_percentiles)

  unfoldable pub get_gas_price : Fut P (Result ℕ (Error T))
  get_gas_price = robust_rpc rt hints self api.get_gas_price

  unfoldable pub get_max_priority_fee_per_gas : Fut P (Result ℕ (Error T))
  get_max_priority_fee_per_gas = robust_rpc rt hints self api.get_max_priority_fee_per_gas
