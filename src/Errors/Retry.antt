-- ===== src/Errors/Retry.antt =====
-- Which errors end the retries: `is_retryable_error` of src/robust_provider/errors.rs and the
-- predicate of `when` in src/robust_provider/provider.rs.
use robust_provider.Prelude.{
  ℤ, Message, ◌≡◌, ◌⊎◌, inl, inr, ◌↔◌, Bool, true, false, ◌&&◌, not, List, [], ◌∷◌, arith, refl,
  Among, Bool-cases, and-eq-true, one_of, starts_with, ends_with, contains, ◌++◌,
}
use robust_provider.Errors.Geth
use robust_provider.Errors.Besu
use robust_provider.Errors.Anvil
use robust_provider.Errors.{
  ErrorPayload, RpcError, error_resp, null_resp, unsupported_feature, transport, other,
}
use robust_provider.Errors.Spec.{BlockNotFound, InvalidLogFilter, default_code, invalid_params}
use robust_provider.Errors.Laws.{is_block_not_found_iff, is_invalid_log_filter_iff}
use robust_provider.Errors.Classify.{
  is_block_not_found, is_invalid_log_filter, is_retryable_error, RetryHints, should_retry,
}

-- An error response is not worth a retry exactly when it says that the block is missing or that the
-- log filter is invalid.
pub is_retryable_error_iff :
    (code : ℤ) (message : Message)
    → (is_retryable_error code message ≡ false)
      ↔ (BlockNotFound code message ⊎ InvalidLogFilter code message)
unfolding is_retryable_error
is_retryable_error_iff code message = (
  λ h. elim (Bool-cases (is_block_not_found code message)) [
    | inl b ↦ inl ((is_block_not_found_iff code message).0 b)
    | inr nb ↦ inr ((is_invalid_log_filter_iff code message).0 (ground arith))
  ],
  λ h. elim h [
    | inl b ↦ ground (arith, (is_block_not_found_iff code message).1 b)
    | inr f ↦ ground (arith, (is_invalid_log_filter_iff code message).1 f)
  ],
)

all_false : (Message → Bool) → List Message → Bool
all_false p [] = true
all_false p (t ∷ ts) = not (p t) && all_false p ts

all_false-Among :
    (p : Message → Bool) (ts : List Message) (text : Message)
    → all_false p ts ≡ true
    → Among text ts
    → p text ≡ false
unfolding all_false
all_false-Among p [] text h m = absurd m
all_false-Among p (t ∷ ts) text h (inl e) =
    let (q, _) = and-eq-true (not (p t)) (all_false p ts) h in ground arith
all_false-Among p (t ∷ ts) text h (inr m) =
    let (_, q) = and-eq-true (not (p t)) (all_false p ts) h in all_false-Among p ts text q m

-- Opens all that `is_block_not_found` computes with.
missing_test : ℤ → Message → Bool
unfolding is_block_not_found Geth.is_block_not_found Besu.is_block_not_found
    Anvil.is_block_not_found one_of starts_with ends_with contains
missing_test code message = is_block_not_found code message

default_table :
    all_false
      (is_block_not_found Geth.default_error_code)
      (Geth.filter_messages ++ Geth.default_filter_messages)
    ≡ true
unfolding all_false missing_test
default_table = refl

params_table :
    all_false (is_block_not_found Geth.invalid_params_error_code) Geth.filter_messages ≡ true
unfolding all_false missing_test
params_table = refl

-- The two classes of errors that are not retried do not overlap: an invalid log filter is never
-- taken for a missing block, though some of its texts begin with "block" or end in "not found".
pub filter-ne-missing :
    (code : ℤ) (message : Message)
    → is_invalid_log_filter code message ≡ true
    → is_block_not_found code message ≡ false
filter-ne-missing code message h = go ((is_invalid_log_filter_iff code message).0 h)
  where
    go : InvalidLogFilter code message → is_block_not_found code message ≡ false
    go (default_code c m) = rw c (all_false-Among _ _ message default_table m)
    go (invalid_params c m) = rw c (all_false-Among _ _ message params_table m)

module _ {T : Type 0} (hints : RetryHints T) where
  -- The errors on which the retries stop.
  pub data GivesUp (e : RpcError T) : Type 0 where
    on_response :
        (payload : ErrorPayload)
        → e ≡ error_resp payload
        → hints.payload_is_retry_err payload ≡ false
        → (BlockNotFound payload.code payload.message
            ⊎ InvalidLogFilter payload.code payload.message)
        → GivesUp e
    on_transport :
        (kind : T) → e ≡ transport kind → hints.transport_is_retry_err kind ≡ false → GivesUp e

  should_retry_sound : (e : RpcError T) → should_retry hints e ≡ false → GivesUp e
  unfolding should_retry
  should_retry_sound (error_resp payload) h =
      elim (Bool-cases (hints.payload_is_retry_err payload)) [
        | inl hinted ↦ ground arith
        | inr plain ↦
            on_response payload refl plain
              ((is_retryable_error_iff payload.code payload.message).0 (rw plain at h))
      ]
  should_retry_sound (transport kind) h = on_transport kind refl h
  should_retry_sound null_resp h = ground arith
  should_retry_sound (unsupported_feature name) h = ground arith
  should_retry_sound (other text) h = ground arith

  should_retry_complete : (e : RpcError T) → GivesUp e → should_retry hints e ≡ false
  unfolding should_retry
  should_retry_complete e (on_response payload same plain final) =
      rw (same, should_retry, plain) ((is_retryable_error_iff payload.code payload.message).1 final)
  should_retry_complete e (on_transport kind same plain) = rw (same, should_retry) plain

  -- The retries stop on an error exactly when it is a response without alloy's retry hint that names
  -- a missing block or an invalid log filter, or a transport error without the hint.
  pub should_retry_iff : (e : RpcError T) → (should_retry hints e ≡ false) ↔ GivesUp e
  should_retry_iff e = (should_retry_sound e, should_retry_complete e)
