-- ===== src/Rpc/Open.antt =====
-- That no RPC method of src/robust_provider/provider.rs reports `Closed`, which is for subscriptions.
use robust_provider.Prelude.{◌≡◌, sym, ◌∙◌, ◌≢◌, Option, none, some, List, [], ◌∷◌}
use robust_provider.Errors.{RpcError, Error, FailoverError, Elapsed}
use robust_provider.Errors.Classify.{RetryHints}
use robust_provider.Errors.Convert.{failover_from_rpc, failover_from_elapsed}
use robust_provider.Errors.Surface.{error_from_failover-closed}
use robust_provider.Runtime.{World, Run, done, Result, ok, err, Runtime, RuntimeLaws, pure}
use robust_provider.Runtime.Calls.{bind-ends}
use robust_provider.Provider.Failover.{AllFail}
use robust_provider.Provider.Outcome.{
  Outcome, succeeded, failed, all_providers, try_operation-Outcome,
}
use robust_provider.Provider.{
  RobustProvider, Operation, retried, flatten_timeout, try_provider_with_timeout,
  try_operation_with_failover,
}
use robust_provider.Rpc.{unwrap, unwrap_or, robust_rpc, robust_rpc_or}

module _ {T A : Type 0} where
  flatten_timeout-ne-closed :
      (r : Result (Result A (RpcError T)) Elapsed)
      → ¬ (flatten_timeout r ≡ err FailoverError.closed)
  unfolding failover_from_rpc failover_from_elapsed
  flatten_timeout-ne-closed (ok (ok a)) h = cc
  flatten_timeout-ne-closed (ok (err e)) h = cc
  flatten_timeout-ne-closed (err Elapsed.elapsed) h = cc

module _ {P T A : Type 0} {rt : Runtime P} (laws : RuntimeLaws rt) (hints : RetryHints T)
    (self : RobustProvider P) (operation : Operation P T A) where
  try_provider-ne-closed :
      (p : P) (w u : World P)
      → ¬ (
          try_provider_with_timeout rt hints self operation p w ≡ done (err FailoverError.closed) u)
  unfolding try_provider_with_timeout
  try_provider-ne-closed p w u h =
      let (r, v, _, e) =
        bind-ends
          (rt.timeout (Result A (RpcError T)) self.call_timeout (retried rt hints self operation p))
          (λ outcome. pure (flatten_timeout outcome)) w (err FailoverError.closed) u h in
      flatten_timeout-ne-closed r (inside r v e)
    where
      inside :
          (r : Result (Result A (RpcError T)) Elapsed) (v : World P)
          → ◌≡◌ {A = Run P (Result A (FailoverError T))}
              (done (flatten_timeout r) v)
              (done (err FailoverError.closed) u)
          → flatten_timeout r ≡ err FailoverError.closed
      inside r v e = cc

  AllFail-closed :
      (ps : List P) (w u : World P) (e : FailoverError T)
      → AllFail rt hints self operation ps w e u FailoverError.closed
      → e ≡ FailoverError.closed
  AllFail-closed [] w u e (_, same) = sym same
  AllFail-closed (p ∷ ps) w u e (d, v, h, rest) =
      absurd (try_provider-ne-closed p w v (rw (AllFail-closed ps v u d rest) at h))

  try_operation-ne-closed :
      (w u : World P)
      → ¬ (
          try_operation_with_failover rt hints self operation w ≡ done (err FailoverError.closed) u)
  try_operation-ne-closed w u h =
      go (try_operation-Outcome rt hints self operation laws w FailoverError.timeout)
    where
      go : ¬ (
          Outcome rt hints self operation w FailoverError.timeout
            (try_operation_with_failover rt hints self operation w))
      go (succeeded value v s r) = absurd (clash (sym r ∙ h))
        where
          clash : ¬ (
              ◌≡◌ {A = Run P (Result A (FailoverError T))}
                (done (ok value) v)
                (done (err FailoverError.closed) u))
          clash x = cc
      go (failed d v f r) = absurd (
          differ (
            AllFail-closed (all_providers self) w v FailoverError.timeout
              (rw (same (sym r ∙ h)) at f)))
        where
          same :
              ◌≡◌ {A = Run P (Result A (FailoverError T))}
                (done (err d) v)
                (done (err FailoverError.closed) u)
              → d ≡ FailoverError.closed
          same x = cc

          differ : ¬ (◌≡◌ {A = FailoverError T} FailoverError.timeout FailoverError.closed)
          differ x = cc

module _ {P T A : Type 0} {rt : Runtime P} (laws : RuntimeLaws rt) (hints : RetryHints T)
    (self : RobustProvider P) where
  robust_rpc_or-ne-closed :
      (missing : Error T) (method : Operation P T (Option A)) (w u : World P)
      → missing ≢ Error.closed
      → ¬ (robust_rpc_or rt hints self missing method w ≡ done (err Error.closed) u)
  unfolding robust_rpc_or unwrap_or
  robust_rpc_or-ne-closed missing method w u other h =
      let (r, v, e, k) =
        bind-ends (try_operation_with_failover rt hints self method)
          (λ result. pure (unwrap_or missing result)) w (err Error.closed) u h in
      go r v e k
    where
      go :
          (r : Result (Option A) (FailoverError T)) (v : World P)
          → try_operation_with_failover rt hints self method w ≡ done r v
          → ¬ (
              ◌≡◌ {A = Run P (Result A (Error T))}
                (done (unwrap_or missing r) v)
                (done (err Error.closed) u))
      go (ok (some value)) v e k = cc
      go (ok none) v e k = other cc
      go (err d) v e k =
          try_operation-ne-closed laws hints self method w v
            (rw (error_from_failover-closed d cc) at e)

  robust_rpc-ne-closed :
      (method : Operation P T A) (w u : World P)
      → ¬ (robust_rpc rt hints self method w ≡ done (err Error.closed) u)
  unfolding robust_rpc unwrap
  robust_rpc-ne-closed method w u h =
      let (r, v, e, k) =
        bind-ends (try_operation_with_failover rt hints self method)
          (λ result. pure (unwrap result)) w (err Error.closed) u h in
      go r v e k
    where
      go :
          (r : Result A (FailoverError T)) (v : World P)
          → try_operation_with_failover rt hints self method w ≡ done r v
          → ¬ (◌≡◌ {A = Run P (Result A (Error T))} (done (unwrap r) v) (done (err Error.closed) u))
      go (ok value) v e k = cc
      go (err d) v e k =
          try_operation-ne-closed laws hints self method w v
            (rw (error_from_failover-closed d cc) at e)

  -- Neither kind of wrapper ever reports `Closed`, whatever the nodes do: that error is left to
  -- subscriptions.
  pub wrappers-ne-closed :
      (method : Operation P T A) (optional : Operation P T (Option A)) (w u : World P)
      → (¬ (robust_rpc rt hints self method w ≡ done (err Error.closed) u))
        × (¬ (
            robust_rpc_or rt hints self Error.block_not_found optional w
            ≡ done (err Error.closed) u))
  wrappers-ne-closed method optional w u = (
    robust_rpc-ne-closed method w u,
    robust_rpc_or-ne-closed Error.block_not_found optional w u (λ x. cc),
  )
