-- ===== src/Rpc/Laws.antt =====
-- What a caller of the wrappers of src/macros/rpc.rs gets.
use robust_provider.Prelude.{
  ℕ, ◌+◌, ◌<◌, ◌≡◌, refl, ◌↔◌, inl, Option, none, some, [], ◌∷◌, false, ap,
}
use robust_provider.Errors.{ErrorPayload, error_resp, Error, FailoverError}
use robust_provider.Errors.Classify.{RetryHints}
use robust_provider.Errors.Convert.{error_from_failover, failover_from_rpc}
use robust_provider.Errors.Spec.{BlockNotFound}
use robust_provider.Errors.Retry.{should_retry_iff, on_response}
use robust_provider.Errors.Surface.{IsMissingBlock, error_from_failover-missing_iff}
use robust_provider.Runtime.{
  World, done, answers, Fut, Result, ok, err, Runtime, RuntimeLaws, ◌>>=◌, pure,
}
use robust_provider.Runtime.Calls.{bind-done}
use robust_provider.Provider.CallLog.{try_operation-Completes}
use robust_provider.Provider.Retries.{try_provider-first_answer}
use robust_provider.Provider.{
  RobustProvider, Operation, try_provider_with_timeout, try_each, enumerate,
  try_fallback_providers_from, try_operation_with_failover,
}
use robust_provider.Rpc.{unwrap, unwrap_or, robust_rpc, robust_rpc_or}

module _ {P T A : Type 0} {rt : Runtime P} (laws : RuntimeLaws rt) (hints : RetryHints T)
    (self : RobustProvider P) where
  -- Why a wrapper with `or BlockNotFound` reports that the block is missing.
  abbrev pub MissingFor : Result (Option A) (FailoverError T) → Type 0
  MissingFor (ok (some value)) = ⊥
  MissingFor (ok none) = Unit
  MissingFor (err d) = IsMissingBlock d

  unwrap_or-missing_sound :
      (r : Result (Option A) (FailoverError T))
      → unwrap_or Error.block_not_found r ≡ err Error.block_not_found
      → MissingFor r
  unfolding unwrap_or
  unwrap_or-missing_sound (ok (some value)) h = cc
  unwrap_or-missing_sound (ok none) h = tt
  unwrap_or-missing_sound (err d) h = (error_from_failover-missing_iff d).0 (cc)

  unwrap_or-missing_complete :
      (r : Result (Option A) (FailoverError T))
      → MissingFor r
      → unwrap_or Error.block_not_found r ≡ err Error.block_not_found
  unfolding unwrap_or
  unwrap_or-missing_complete (ok (some value)) h = absurd h
  unwrap_or-missing_complete (ok none) h = refl
  unwrap_or-missing_complete (err d) h = ap err ((error_from_failover-missing_iff d).1 h)

  -- A run of a wrapper with `or BlockNotFound`, and when it reports that.
  abbrev pub ReportsMissing :
      Fut P (Result A (Error T)) → Operation P T (Option A) → World P → Type 0
  ReportsMissing wrapper method w =
      (r : Result (Option A) (FailoverError T)) × (u : World P) × (try_operation_with_failover rt
          hints self method w
        ≡ done r u)
      × (wrapper w ≡ done (unwrap_or Error.block_not_found r) u)
      × ((unwrap_or Error.block_not_found r ≡ err Error.block_not_found) ↔ MissingFor r)

  -- A wrapper with `or BlockNotFound` always comes to a result, and reports `BlockNotFound` exactly
  -- when the call with failover found `None`, or failed with an error that names a missing block.
  pub robust_rpc_or-missing_iff :
      (method : Operation P T (Option A)) (w : World P)
      → ReportsMissing (robust_rpc_or rt hints self Error.block_not_found method) method w
  unfolding robust_rpc_or
  robust_rpc_or-missing_iff method w =
      let c = try_operation-Completes laws hints self method w in
      (
        c.result,
        c.after,
        c.ends,
        bind-done (try_operation_with_failover rt hints self method)
            (λ x. pure (unwrap_or Error.block_not_found x)) w c.ends,
        (unwrap_or-missing_sound c.result, unwrap_or-missing_complete c.result),
      )

  -- Why a wrapper without it does.
  abbrev pub MissingCall : Result A (FailoverError T) → Type 0
  MissingCall (ok value) = ⊥
  MissingCall (err d) = IsMissingBlock d

  -- A run of such a wrapper.
  abbrev pub PassesOn : Fut P (Result A (Error T)) → Operation P T A → World P → Type 0
  PassesOn wrapper method w =
      (r : Result A (FailoverError T)) × (u : World P) × (try_operation_with_failover rt hints self
          method w
        ≡ done r u)
      × (wrapper w ≡ done (unwrap r) u)
      × ((unwrap r ≡ err Error.block_not_found) ↔ MissingCall r)

  unwrap-missing_sound :
      (r : Result A (FailoverError T)) → unwrap r ≡ err Error.block_not_found → MissingCall r
  unfolding unwrap
  unwrap-missing_sound (ok value) h = cc
  unwrap-missing_sound (err d) h = (error_from_failover-missing_iff d).0 (cc)

  unwrap-missing_complete :
      (r : Result A (FailoverError T)) → MissingCall r → unwrap r ≡ err Error.block_not_found
  unfolding unwrap
  unwrap-missing_complete (ok value) h = absurd h
  unwrap-missing_complete (err d) h = ap err ((error_from_failover-missing_iff d).1 h)

  -- A wrapper without `or` always comes to a result; a value is handed on as it is, and
  -- `BlockNotFound` is reported exactly when the call failed with an error that names a missing
  -- block.
  pub robust_rpc-PassesOn :
      (method : Operation P T A) (w : World P) → PassesOn (robust_rpc rt hints self method) method w
  unfolding robust_rpc
  robust_rpc-PassesOn method w =
      let c = try_operation-Completes laws hints self method w in
      (
        c.result,
        c.after,
        c.ends,
        bind-done (try_operation_with_failover rt hints self method) (λ x. pure (unwrap x)) w
            c.ends,
        (unwrap-missing_sound c.result, unwrap-missing_complete c.result),
      )

  -- With no fallback, an answer that names a missing block, without alloy's retry hint, costs one
  -- call and is reported as `BlockNotFound`.
  robust_rpc-missing_once :
      (method : Operation P T A) (w : World P) (payload : ErrorPayload) (d : ℕ)
      → self.fallback_providers ≡ []
      → method self.primary_provider (record w { calls = self.primary_provider ∷ w.calls })
        ≡ answers d (err (error_resp payload))
      → BlockNotFound payload.code payload.message
      → hints.payload_is_retry_err payload ≡ false
      → d < self.call_timeout
      → robust_rpc rt hints self method w
        ≡ done
            (err Error.block_not_found)
            (record { now = w.now + d; calls = self.primary_provider ∷ w.calls })
  unfolding robust_rpc try_operation_with_failover try_fallback_providers_from try_each enumerate
      unwrap failover_from_rpc
  robust_rpc-missing_once method w payload d alone a missing plain t =
      rw (first, ◌>>=◌) (rw (alone, shown) refl)
    where
      first :
          try_provider_with_timeout rt hints self method self.primary_provider w
          ≡ done
              (err (FailoverError.rpc_error (error_resp payload)))
              (record { now = w.now + d; calls = self.primary_provider ∷ w.calls })
      first =
          try_provider-first_answer laws hints self method self.primary_provider w
            (err (error_resp payload)) d a
            ((should_retry_iff hints (error_resp payload)).1
              (on_response payload refl plain (inl missing)))
            t

      shown :
          ◌≡◌ {A = Error T}
            (error_from_failover (FailoverError.rpc_error (error_resp payload)))
            Error.block_not_found
      shown = (error_from_failover-missing_iff _).1 (payload, refl, missing)
