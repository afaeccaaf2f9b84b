-- ===== src/Rpc/Provenance.antt =====
-- Where the results of the RPC methods of src/robust_provider/provider.rs come from.
use robust_provider.Prelude.{sym, ◌∙◌, ◌≡◌, inl, inr, Option, none, some}
use robust_provider.Errors.{Error, FailoverError}
use robust_provider.Errors.Classify.{RetryHints}
use robust_provider.Errors.Convert.{error_from_failover}
use robust_provider.Runtime.{World, Run, done, Result, ok, err, Runtime, RuntimeLaws, pure}
use robust_provider.Runtime.Calls.{bind-done}
use robust_provider.Provider.Outcome.{Outcome, succeeded, failed, try_operation-Outcome}
use robust_provider.Provider.{RobustProvider, Operation, try_operation_with_failover}
use robust_provider.Rpc.Accounted.{
  AccountsFor, Accounted, AccountedOr, error-AccountsFor, first-Answered,
}
use robust_provider.Rpc.{unwrap, unwrap_or, robust_rpc, robust_rpc_or}

module _ {P T A : Type 0} {rt : Runtime P} (laws : RuntimeLaws rt) (hints : RetryHints T)
    (self : RobustProvider P) where
  AccountsFor-AccountedOr :
      (method : Operation P T (Option A)) (e : Error T) (u : World P)
      → AccountsFor rt hints self method e u
      → AccountedOr rt hints self method (err e) u
  AccountsFor-AccountedOr method Error.timeout u told = told
  AccountsFor-AccountedOr method (Error.rpc_error e) u told = told
  AccountsFor-AccountedOr method Error.block_not_found u told = inr told
  AccountsFor-AccountedOr method Error.closed u told = told
  AccountsFor-AccountedOr method (Error.lagged count) u told = told

  pub robust_rpc-Accounted :
      (method : Operation P T A) (w : World P)
      → (r : Result A (Error T)) × (u : World P) × (robust_rpc rt hints self method w ≡ done r u)
        × Accounted rt hints self method r u
  unfolding robust_rpc unwrap
  robust_rpc-Accounted method w =
      go (try_operation-Outcome rt hints self method laws w FailoverError.closed)
    where
      wrapped :
          (r : Result A (FailoverError T)) (u : World P)
          → try_operation_with_failover rt hints self method w ≡ done r u
          → robust_rpc rt hints self method w ≡ done (unwrap r) u
      wrapped r u =
          bind-done (try_operation_with_failover rt hints self method) (λ r. pure (unwrap r)) w

      go :
          Outcome rt hints self method w FailoverError.closed
            (try_operation_with_failover rt hints self method w)
          → (r : Result A (Error T)) × (u : World P) × (robust_rpc rt hints self method w
              ≡ done r u)
            × Accounted rt hints self method r u
      go (succeeded value u first h) = (
        ok value,
        u,
        wrapped (ok value) u h,
        first-Answered laws hints self method w u FailoverError.closed value first,
      )
      go (failed d u all h) = (
        err (error_from_failover d),
        u,
        wrapped (err d) u h,
        error-AccountsFor laws hints self method w u FailoverError.closed d all,
      )

  pub robust_rpc_or-AccountedOr :
      (method : Operation P T (Option A)) (w : World P)
      → (r : Result A (Error T)) × (u : World P) × (robust_rpc_or rt hints self
            Error.block_not_found method w
          ≡ done r u)
        × AccountedOr rt hints self method r u
  unfolding robust_rpc_or unwrap_or
  robust_rpc_or-AccountedOr method w =
      go (try_operation-Outcome rt hints self method laws w FailoverError.closed)
    where
      wrapped :
          (r : Result (Option A) (FailoverError T)) (u : World P)
          → try_operation_with_failover rt hints self method w ≡ done r u
          → robust_rpc_or rt hints self Error.block_not_found method w
            ≡ done (unwrap_or Error.block_not_found r) u
      wrapped r u =
          bind-done (try_operation_with_failover rt hints self method)
            (λ r. pure (unwrap_or Error.block_not_found r)) w

      go :
          Outcome rt hints self method w FailoverError.closed
            (try_operation_with_failover rt hints self method w)
          → (r : Result A (Error T)) × (u : World P) × (robust_rpc_or rt hints self
                Error.block_not_found method w
              ≡ done r u)
            × AccountedOr rt hints self method r u
      go (succeeded (some value) u first h) = (
        ok value,
        u,
        wrapped (ok (some value)) u h,
        first-Answered laws hints self method w u FailoverError.closed (some value) first,
      )
      go (succeeded none u first h) = (
        err Error.block_not_found,
        u,
        wrapped (ok none) u h,
        inl (first-Answered laws hints self method w u FailoverError.closed none first),
      )
      go (failed d u all h) = (
        err (error_from_failover d),
        u,
        wrapped (err d) u h,
        AccountsFor-AccountedOr method (error_from_failover d) u
            (error-AccountsFor laws hints self method w u FailoverError.closed d all),
      )

  pub ended-AccountedOr :
      (method : Operation P T (Option A)) (r : Result A (Error T)) (w u : World P)
      → robust_rpc_or rt hints self Error.block_not_found method w ≡ done r u
      → AccountedOr rt hints self method r u
  ended-AccountedOr method r w u h =
      let (r', u', e, told) = robust_rpc_or-AccountedOr method w in
      let run : ◌≡◌ {A = Run P (Result A (Error T))} (done r' u') (done r u) = sym e ∙ h in
      let same : r' ≡ r = cc in let same_end : u' ≡ u = cc in rw (same, same_end) at told

  -- Every result of a wrapper comes from an answer. A value is what one of the providers answered to
  -- its last call; an RPC error is what the last of them answered, and names no missing block;
  -- `BlockNotFound` means that the last of them answered with an error that names one or, where the
  -- method answers `None` for it, that some provider did; `Timeout` means that the last of them used
  -- up the call timeout; and no wrapper comes to any other error.
  pub wrappers-Accounted :
      (method : Operation P T A) (optional : Operation P T (Option A)) (w : World P)
      → ((r : Result A (Error T)) × (u : World P) × (robust_rpc rt hints self method w ≡ done r u)
          × Accounted rt hints self method r u)
        × ((r : Result A (Error T)) × (u : World P) × (robust_rpc_or rt hints self
                Error.block_not_found optional w
              ≡ done r u)
            × AccountedOr rt hints self optional r u)
  wrappers-Accounted method optional w =
      (robust_rpc-Accounted method w, robust_rpc_or-AccountedOr optional w)
