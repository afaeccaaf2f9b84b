-- ===== src/Rpc/Call.antt =====
-- The wrappers about calls and simulation in src/robust_provider/provider.rs, one for each `robust_rpc!`.
use robust_provider.Prelude.{ℕ, List}
use robust_provider.Errors.{Error}
use robust_provider.Errors.Classify.{RetryHints}
use robust_provider.Runtime.{Fut, Result, Runtime}
use robust_provider.Provider.{RobustProvider, Operation}
use robust_provider.Rpc.{robust_rpc}

-- alloy's methods of the same names on a provider, and the types that they speak of.
pub record CallApi (P T : Type 0) : Type 1 where
  pub TransactionRequest : Type 0
  pub Bytes : Type 0
  pub Bundle : Type 0
  pub EthCallResponse : Type 0
  pub AccessListResult : Type 0
  pub SimulatePayload : Type 0
  pub SimulatedBlock : Type 0
  pub call : TransactionRequest → Operation P T Bytes
  pub call_many : List Bundle → Operation P T (List (List EthCallResponse))
  pub create_access_list : TransactionRequest → Operation P T AccessListResult
  pub estimate_gas : TransactionRequest → Operation P T ℕ
  pub simulate : SimulatePayload → Operation P T (List SimulatedBlock)

module _ {P T : Type 0} (rt : Runtime P) (hints : RetryHints T) (self : RobustProvider P)
    (api : CallApi P T) where
  unfoldable pub call : api.TransactionRequest → Fut P (Result api.Bytes (Error T))
  call tx = robust_rpc rt hints self (api.call tx)

  unfoldable pub call_many :
      List api.Bundle → Fut P (Result (List (List api.EthCallResponse)) (Error T))
  call_many bundles = robust_rpc rt hints self (api.call_many bundles)

  unfoldable pub create_access_list :
      api.TransactionRequest → Fut P (Result api.AccessListResult (Error T))
  create_access_list request = robust_rpc rt hints self (api.create_access_list request)

  unfoldable pub estimate_gas : api.TransactionRequest → Fut P (Result ℕ (Error T))
  estimate_gas tx = robust_rpc rt hints self (api.estimate_gas tx)

  unfoldable pub simulate : api.SimulatePayload → Fut P (Result (List api.SimulatedBlock) (Error T))
  simulate request = robust_rpc rt hints self (api.simulate request)
