-- ===== src/Errors.antt =====
-- The error types of src/robust_provider/errors.rs and the conversions between them.
-- `T` is alloy's `TransportErrorKind`; of alloy's `RpcError` the variants that the code names have
-- a constructor each, and `other` stands for the ones that it never names.
pub mod Geth
pub mod Besu
pub mod Anvil
pub mod Classify
pub mod Convert
pub mod Spec
pub mod Laws
pub mod Retry
pub mod Surface
pub mod Display
mod Tests
use robust_provider.Prelude.{ℕ, ℤ, Message}

-- What the code reads of a JSON-RPC error response.
pub record ErrorPayload : Type 0 where
  pub code : ℤ
  pub message : Message

pub data RpcError (T : Type 0) : Type 0 where
  error_resp : ErrorPayload → RpcError T
  null_resp : RpcError T
  unsupported_feature : Message → RpcError T
  transport : T → RpcError T
  other : Message → RpcError T

pub data Error (T : Type 0) : Type 0 where
  timeout : Error T
  rpc_error : RpcError T → Error T
  block_not_found : Error T
  closed : Error T
  lagged : ℕ → Error T

pub data FailoverError (T : Type 0) : Type 0 where
  closed : FailoverError T
  timeout : FailoverError T
  rpc_error : RpcError T → FailoverError T

-- tokio's `broadcast::error::RecvError`.
pub data RecvError : Type 0 where
  closed : RecvError
  lagged : ℕ → RecvError

-- tokio's `time::error::Elapsed`.
pub data Elapsed : Type 0 where
  elapsed : Elapsed
