-- ===== src/Errors/Tests.antt =====
-- Tests of the errors of src/robust_provider/errors.rs, by the theorems at concrete inputs.
use robust_provider.Prelude.{◌≡◌, ◌↔◌, refl, true, false, codes, Message, []}
use robust_provider.Fixtures.{hints, header_not_found}
use robust_provider.Errors.Display.{display, decimal, Alike, display-Alike}
use robust_provider.Errors.{RpcError, error_resp, Error, FailoverError}
use robust_provider.Errors.Anvil
use robust_provider.Errors.Classify.{is_block_not_found, should_retry}
use robust_provider.Errors.Convert.{error_from_failover}
use robust_provider.Errors.Laws.{is_block_not_found_iff}
use robust_provider.Errors.Retry.{GivesUp, should_retry_iff}
use robust_provider.Errors.Spec.{BlockNotFound}
use robust_provider.Errors.Surface.{IsMissingBlock, error_from_failover-missing_iff}

is_block_not_found_iff_example :
    (is_block_not_found Anvil.invalid_params_error_code (codes "BlockOutOfRangeError: 7") ≡ true)
    ↔ BlockNotFound Anvil.invalid_params_error_code (codes "BlockOutOfRangeError: 7")
is_block_not_found_iff_example =
    is_block_not_found_iff Anvil.invalid_params_error_code (codes "BlockOutOfRangeError: 7")

should_retry_iff_example :
    (should_retry hints (error_resp header_not_found) ≡ false)
    ↔ GivesUp hints (error_resp header_not_found)
should_retry_iff_example = should_retry_iff hints (error_resp header_not_found)

error_from_failover-missing_iff_example :
    (error_from_failover {T = Unit {0}} (FailoverError.rpc_error (error_resp header_not_found))
      ≡ Error.block_not_found)
    ↔ IsMissingBlock {T = Unit {0}} (FailoverError.rpc_error (error_resp header_not_found))
error_from_failover-missing_iff_example =
    error_from_failover-missing_iff (FailoverError.rpc_error (error_resp header_not_found))

abbrev no_text : RpcError (Unit {0}) → Message
no_text e = []

lagged_text : display no_text (Error.lagged 1203) ≡ codes "Subscription lagged behind by: 1203"
unfolding display decimal
lagged_text = refl

display-Alike_example : Alike no_text (Error.lagged 1203) (Error.lagged 1203)
unfolding display decimal
display-Alike_example = display-Alike no_text (Error.lagged 1203) (Error.lagged 1203) refl
