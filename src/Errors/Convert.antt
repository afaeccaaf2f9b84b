-- ===== src/Errors/Convert.antt =====
-- The `From` implementations of src/robust_provider/errors.rs.
use robust_provider.Prelude.{if◌then◌else◌}
use robust_provider.Errors.Classify.{is_block_not_found}
use robust_provider.Errors.{
  RpcError, error_resp, null_resp, unsupported_feature, transport, other, Error, FailoverError,
  RecvError, Elapsed, elapsed,
}

module _ {T : Type 0} where
  unfoldable pub failover_from_rpc : RpcError T → FailoverError T
  failover_from_rpc e = FailoverError.rpc_error e

  unfoldable pub failover_from_elapsed : Elapsed → FailoverError T
  failover_from_elapsed elapsed = FailoverError.timeout

  unfoldable pub error_from_failover : FailoverError T → Error T
  error_from_failover FailoverError.closed = Error.closed
  error_from_failover FailoverError.timeout = Error.timeout
  error_from_failover (FailoverError.rpc_error (error_resp payload)) =
      if is_block_not_found payload.code payload.message
      then Error.block_not_found
      else Error.rpc_error (error_resp payload)
  error_from_failover (FailoverError.rpc_error null_resp) = Error.rpc_error null_resp
  error_from_failover (FailoverError.rpc_error (unsupported_feature name)) =
      Error.rpc_error (unsupported_feature name)
  error_from_failover (FailoverError.rpc_error (transport kind)) = Error.rpc_error (transport kind)
  error_from_failover (FailoverError.rpc_error (other text)) = Error.rpc_error (other text)

  unfoldable pub error_from_rpc : RpcError T → Error T
  error_from_rpc e = Error.rpc_error e

  unfoldable pub error_from_elapsed : Elapsed → Error T
  error_from_elapsed elapsed = Error.timeout

  unfoldable pub error_from_recv : RecvError → Error T
  error_from_recv RecvError.closed = Error.closed
  error_from_recv (RecvError.lagged count) = Error.lagged count
