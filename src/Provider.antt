-- ===== src/Provider.antt =====
-- Calls with retry, timeout and failover: src/robust_provider/provider.rs.
-- `P` is alloy's `RootProvider`, `T` its `TransportErrorKind`. An operation asks a provider at some
-- moment, and the node's answer may depend on all that happened before.
pub mod Accessors
pub mod Attempts
pub mod Failover
pub mod Outcome
pub mod CallLog
pub mod RetryLoop
pub mod Retries
pub mod Spacing
mod Tests
use robust_provider.Prelude.{ℕ, zero, suc, Bool, List, [], ◌∷◌, drop}
use robust_provider.Errors.{RpcError, FailoverError, Elapsed}
use robust_provider.Errors.Classify.{RetryHints, should_retry}
use robust_provider.Errors.Convert.{failover_from_rpc, failover_from_elapsed}
use robust_provider.Runtime.{
  World, Fut, Answer, Result, ok, err, Runtime, pure, await_answer, ◌>>=◌,
}

pub record RobustProvider (P : Type 0) : Type 0 where
  pub primary_provider : P
  pub fallback_providers : List P
  pub call_timeout : ℕ
  pub subscription_timeout : ℕ
  pub max_retries : ℕ
  pub min_delay : ℕ
  pub reconnect_interval : ℕ
  pub subscription_buffer_capacity : ℕ
  pub poll_interval : ℕ
  pub allow_http_subscriptions : Bool

-- `Fn(RootProvider<N>) -> Future<Output = Result<A, RpcError<TransportErrorKind>>>`.
abbrev pub Operation : Type 0 → Type 0 → Type 0 → Type 0
Operation P T A = P → World P → Answer (Result A (RpcError T))

module _ {P T A : Type 0} where
  -- `operation(provider.clone())`, with a note of it in the log.
  unfoldable pub attempt : Operation P T A → P → Fut P (Result A (RpcError T))
  attempt operation provider w =
      let started = record w { calls = provider ∷ w.calls } in
      await_answer (operation provider started) started

-- The two `map_err`s after the timeout.
module _ {T A : Type 0} where
  abbrev pub flatten_timeout : Result (Result A (RpcError T)) Elapsed → Result A (FailoverError T)
  flatten_timeout (err e) = err (failover_from_elapsed e)
  flatten_timeout (ok (err e)) = err (failover_from_rpc e)
  flatten_timeout (ok (ok a)) = ok a

  -- `map(|(value, _)| value)`.
  abbrev pub value_only : Result (A × ℕ) (FailoverError T) → Result A (FailoverError T)
  value_only (ok (value, _)) = ok value
  value_only (err e) = err e

-- `iter().enumerate()`, from an index on.
unfoldable pub enumerate : {P : Type 0} → ℕ → List P → List (ℕ × P)
enumerate i [] = []
enumerate i (p ∷ ps) = (i, p) ∷ enumerate (suc i) ps

module _ {P T : Type 0} (rt : Runtime P) (hints : RetryHints T) (self : RobustProvider P) where
  module _ {A : Type 0} (operation : Operation P T A) where
    unfoldable pub retried : P → Fut P (Result A (RpcError T))
    retried provider =
        rt.retry A (RpcError T) (rt.backoff self.max_retries self.min_delay) (should_retry hints)
          rt.sleep (attempt operation provider)

    unfoldable pub try_provider_with_timeout : P → Fut P (Result A (FailoverError T))
    try_provider_with_timeout provider = do
      outcome ← rt.timeout (Result A (RpcError T)) self.call_timeout (retried provider)
      pure (flatten_timeout outcome)

    -- The `for` loop of `try_fallback_providers_from`, over the providers that are left.
    unfoldable pub try_each :
        FailoverError T → List (ℕ × P) → Fut P (Result (A × ℕ) (FailoverError T))
    try_each last_error [] = pure (err last_error)
    try_each last_error ((fallback_idx, provider) ∷ rest) = do
      outcome ← try_provider_with_timeout provider
      elim outcome [ ok value ↦ pure (ok (value, fallback_idx)) | err e ↦ try_each e rest ]

    unfoldable pub try_fallback_providers_from :
        FailoverError T → ℕ → Fut P (Result (A × ℕ) (FailoverError T))
    try_fallback_providers_from last_error start_index =
        try_each last_error (drop start_index (enumerate zero self.fallback_providers))

    abbrev pub after_primary : Result A (FailoverError T) → Fut P (Result A (FailoverError T))
    after_primary (ok value) = pure (ok value)
    after_primary (err last_error) = do
      found ← try_fallback_providers_from last_error zero
      pure (value_only found)

    unfoldable pub try_operation_with_failover : Fut P (Result A (FailoverError T))
    try_operation_with_failover = try_provider_with_timeout self.primary_provider >>= after_primary
