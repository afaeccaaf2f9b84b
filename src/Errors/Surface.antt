-- ===== src/Errors/Surface.antt =====
-- What the caller sees of an internal error: `From<FailoverError> for Error` of
-- src/robust_provider/errors.rs.
use robust_provider.Prelude.{◌≡◌, ◌↔◌, inl, inr, arith, refl, Bool-cases}
use robust_provider.Errors.{
  ErrorPayload, error_resp, null_resp, unsupported_feature, transport, other, Error, FailoverError,
}
use robust_provider.Errors.Spec.{BlockNotFound}
use robust_provider.Errors.Laws.{is_block_not_found_iff}
use robust_provider.Errors.Classify.{is_block_not_found}
use robust_provider.Errors.Convert.{error_from_failover}

module _ {T : Type 0} where
  abbrev pub IsMissingBlock : FailoverError T → Type 0
  IsMissingBlock e =
      (payload : ErrorPayload) × (e ≡ FailoverError.rpc_error (error_resp payload))
      × BlockNotFound payload.code payload.message

  missing_sound :
      (e : FailoverError T) → error_from_failover e ≡ Error.block_not_found → IsMissingBlock e
  unfolding error_from_failover
  missing_sound (FailoverError.rpc_error (error_resp payload)) h =
      elim (Bool-cases (is_block_not_found payload.code payload.message)) [
        | inl missing ↦ (payload, refl, (is_block_not_found_iff _ _).0 missing)
        | inr found ↦ ground arith
      ]
  missing_sound FailoverError.closed h = ground arith
  missing_sound FailoverError.timeout h = ground arith
  missing_sound (FailoverError.rpc_error null_resp) h = ground arith
  missing_sound (FailoverError.rpc_error (unsupported_feature name)) h = ground arith
  missing_sound (FailoverError.rpc_error (transport kind)) h = ground arith
  missing_sound (FailoverError.rpc_error (other text)) h = ground arith

  missing_complete :
      (e : FailoverError T) → IsMissingBlock e → error_from_failover e ≡ Error.block_not_found
  unfolding error_from_failover
  missing_complete e (payload, same, missing) =
      rw
        (same, error_from_failover, (is_block_not_found_iff payload.code payload.message).1 missing)
        refl

  -- The conversion of the internal error gives `BlockNotFound` exactly for an error response that
  -- names a missing block.
  pub error_from_failover-missing_iff :
      (e : FailoverError T) → (error_from_failover e ≡ Error.block_not_found) ↔ IsMissingBlock e
  error_from_failover-missing_iff e = (missing_sound e, missing_complete e)

  -- The error of the same name, with the same content.
  abbrev pub same_error : FailoverError T → Error T
  same_error FailoverError.closed = Error.closed
  same_error FailoverError.timeout = Error.timeout
  same_error (FailoverError.rpc_error e) = Error.rpc_error e

  -- Any error but a response that names a missing block reaches the caller with its kind and its
  -- content.
  pub error_from_failover-same_error :
      (e : FailoverError T) → ¬ IsMissingBlock e → error_from_failover e ≡ same_error e
  unfolding error_from_failover
  error_from_failover-same_error FailoverError.closed h = refl
  error_from_failover-same_error FailoverError.timeout h = refl
  error_from_failover-same_error (FailoverError.rpc_error null_resp) h = refl
  error_from_failover-same_error (FailoverError.rpc_error (unsupported_feature name)) h = refl
  error_from_failover-same_error (FailoverError.rpc_error (transport kind)) h = refl
  error_from_failover-same_error (FailoverError.rpc_error (other text)) h = refl
  error_from_failover-same_error (FailoverError.rpc_error (error_resp payload)) h =
      elim (Bool-cases (is_block_not_found payload.code payload.message)) [
        | inl found ↦
            absurd
              (h (payload, refl, (is_block_not_found_iff payload.code payload.message).0 found))
        | inr kept ↦ rw kept refl
      ]

-- Only the channel's own end is reported as `Closed`.
pub error_from_failover-closed :
    {T : Type 0} (e : FailoverError T)
    → error_from_failover e ≡ Error.closed
    → e ≡ FailoverError.closed
unfolding error_from_failover
error_from_failover-closed FailoverError.closed h = refl
error_from_failover-closed FailoverError.timeout h = cc
error_from_failover-closed (FailoverError.rpc_error null_resp) h = cc
error_from_failover-closed (FailoverError.rpc_error (unsupported_feature m)) h = cc
error_from_failover-closed (FailoverError.rpc_error (transport m)) h = cc
error_from_failover-closed (FailoverError.rpc_error (other m)) h = cc
error_from_failover-closed {T} (FailoverError.rpc_error (error_resp p)) h =
    elim (Bool-cases (is_block_not_found p.code p.message)) [
      | inl y ↦ absurd (clash (rw y at h))
      | inr n ↦ absurd (clash' (rw n at h))
    ]
  where
    clash : ¬ (◌≡◌ {A = Error T} Error.block_not_found Error.closed)
    clash x = cc

    clash' : ¬ (◌≡◌ {A = Error T} (Error.rpc_error (error_resp p)) Error.closed)
    clash' x = cc
