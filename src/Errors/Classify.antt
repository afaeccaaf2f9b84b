-- ===== src/Errors/Classify.antt =====
-- Which RPC errors are worth a retry: src/robust_provider/errors.rs, and the predicate that
-- `try_provider_with_timeout` of src/robust_provider/provider.rs hands to `when`.
use robust_provider.Prelude.{ℤ, Message, Bool, true, not, ◌||◌, if◌then◌else◌}
use robust_provider.Errors.Geth
use robust_provider.Errors.Besu
use robust_provider.Errors.Anvil
use robust_provider.Errors.{
  ErrorPayload, RpcError, error_resp, null_resp, unsupported_feature, transport, other,
}

unfoldable pub is_block_not_found : ℤ → Message → Bool
is_block_not_found code message =
    Geth.is_block_not_found code message
    || (Besu.is_block_not_found code message || Anvil.is_block_not_found code message)

unfoldable pub is_invalid_log_filter : ℤ → Message → Bool
is_invalid_log_filter code message = Geth.is_invalid_log_filter code message

unfoldable pub is_retryable_error : ℤ → Message → Bool
is_retryable_error code message =
    let non_retryable = is_block_not_found code message || is_invalid_log_filter code message in
    not non_retryable

-- alloy's `is_retry_err` on an error response and on a transport error, which the code calls.
pub record RetryHints (T : Type 0) : Type 0 where
  pub payload_is_retry_err : ErrorPayload → Bool
  pub transport_is_retry_err : T → Bool

module _ {T : Type 0} (hints : RetryHints T) where
  unfoldable pub should_retry : RpcError T → Bool
  should_retry (error_resp payload) =
      if hints.payload_is_retry_err payload
      then true
      else is_retryable_error payload.code payload.message
  should_retry (transport kind) = hints.transport_is_retry_err kind
  should_retry null_resp = true
  should_retry (unsupported_feature name) = true
  should_retry (other text) = true
