-- ===== src/Rpc/Network.antt =====
-- The wrappers about the network and raw requests in src/robust_provider/provider.rs, one for each `robust_rpc!`.
use robust_provider.Prelude.{ℕ, List, Message}
use robust_provider.Errors.{Error}
use robust_provider.Errors.Classify.{RetryHints}
use robust_provider.Runtime.{Fut, Result, Runtime}
use robust_provider.Provider.{RobustProvider, Operation}
use robust_provider.Rpc.{robust_rpc}

-- alloy's methods of the same names on a provider, and the types that they speak of.
pub record NetworkApi (P T : Type 0) : Type 1 where
  pub B256 : Type 0
  pub SyncStatus : Type 0
  pub RawValue : Type 0
  pub get_chain_id : Operation P T ℕ
  pub get_net_version : Operation P T ℕ
  pub get_sha3 : List ℕ → Operation P T B256
  pub syncing : Operation P T SyncStatus
  pub get_client_version : Operation P T Message
  pub raw_request : (Params Response : Type 0) → Message → Params → Operation P T Response
  pub raw_request_dyn : Message → RawValue → Operation P T RawValue

module _ {P T : Type 0} (rt : Runtime P) (hints : RetryHints T) (self : RobustProvider P)
    (api : NetworkApi P T) where
  unfoldable pub get_chain_id : Fut P (Result ℕ (Error T))
  get_chain_id = robust_rpc rt hints self api.get_chain_id

  unfoldable pub get_net_version : Fut P (Result ℕ (Error T))
  get_net_version = robust_rpc rt hints self api.get_net_version

  unfoldable pub get_sha3 : List ℕ → Fut P (Result api.B256 (Error T))
  get_sha3 input = robust_rpc rt hints self (api.get_sha3 input)

  unfoldable pub syncing : Fut P (Result api.SyncStatus (Error T))
  syncing = robust_rpc rt hints self api.syncing

  unfoldable pub get_client_version : Fut P (Result Message (Error T))
  get_client_version = robust_rpc rt hints self api.get_client_version

  unfoldable pub raw_request :
      (Params Response : Type 0) → Message → Params → Fut P (Result Response (Error T))
  raw_request Params Response method params =
      robust_rpc rt hints self (api.raw_request Params Response method params)

  unfoldable pub raw_request_dyn : Message → api.RawValue → Fut P (Result api.RawValue (Error T))
  raw_request_dyn method params = robust_rpc rt hints self (api.raw_request_dyn method params)
