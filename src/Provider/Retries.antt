-- ===== src/Provider/Retries.antt =====
-- When one provider is called again, and what its result says: `try_provider_with_timeout` of
-- src/robust_provider/provider.rs.
use robust_provider.Prelude.{
  ℕ, suc, ◌+◌, ◌≤◌, ◌<◌, ◌≡◌, refl, ◌∷◌, ◌++◌, replicate, arith, true, ap,
}
use robust_provider.Errors.{RpcError, FailoverError}
use robust_provider.Errors.Classify.{RetryHints, should_retry}
use robust_provider.Errors.Convert.{failover_from_rpc, failover_from_elapsed}
use robust_provider.Runtime.{
  World, Run, done, hangs, Answer, answers, silent, Result, ok, err, Runtime, RuntimeLaws, Timely,
  in_time, expired, ◌>>=◌, await_answer,
}
use robust_provider.Runtime.Laws.{timeout-in_time, timeout-hangs}
use robust_provider.Provider.RetryLoop.{
  Settles, retry-Settles, retry-hangs, retry-ends, LastAnswer, Exhausted,
}
use robust_provider.Provider.{
  RobustProvider, Operation, attempt, retried, try_provider_with_timeout, flatten_timeout,
}

module _ {P T A : Type 0} {rt : Runtime P} (laws : RuntimeLaws rt) (hints : RetryHints T)
    (self : RobustProvider P) (operation : Operation P T A) (provider : P) (w : World P) where
  -- The moment of the first call.
  abbrev pub started : World P
  started = record w { calls = provider ∷ w.calls }

  attempt-answers :
      (r : Result A (RpcError T)) (d : ℕ)
      → operation provider started ≡ answers d r
      → attempt operation provider w
        ≡ done r (record { now = w.now + d; calls = provider ∷ w.calls })
  unfolding attempt
  attempt-answers r d a = ap (λ (x : Answer (Result A (RpcError T))). await_answer x started) a

  attempt-silent :
      operation provider started ≡ silent → attempt operation provider w ≡ hangs started
  unfolding attempt
  attempt-silent a = ap (λ (x : Answer (Result A (RpcError T))). await_answer x started) a

  -- A value, or an error that is not to be retried, is the result at once if it comes in time: the
  -- provider is called exactly once, and the result is there when the node has answered.
  pub try_provider-first_answer :
      (r : Result A (RpcError T)) (d : ℕ)
      → operation provider started ≡ answers d r
      → Settles (should_retry hints) r
      → d < self.call_timeout
      → try_provider_with_timeout rt hints self operation provider w
        ≡ done (flatten_timeout (ok r)) (record { now = w.now + d; calls = provider ∷ w.calls })
  unfolding try_provider_with_timeout retried
  try_provider-first_answer r d a s t = rw (timed, ◌>>=◌) refl
    where
      after : World P
      after = record { now = w.now + d; calls = provider ∷ w.calls }

      timed :
          rt.timeout
            (Result A (RpcError T))
            self.call_timeout
            (retried rt hints self operation provider)
            w
          ≡ done (ok r) after
      timed =
          timeout-in_time laws (Result A (RpcError T)) self.call_timeout
            (retried rt hints self operation provider) w r after
            (retry-Settles laws (should_retry hints) operation provider
              (rt.backoff self.max_retries self.min_delay) r w after (attempt-answers r d a) s)
            (omega arith)

  -- A node that stays silent costs the call timeout and at most the lateness of a timer more, and the
  -- result is `Timeout`.
  pub try_provider-silent :
      operation provider started ≡ silent
      → (u : World P) × (try_provider_with_timeout rt hints self operation provider w
          ≡ done (err FailoverError.timeout) u)
        × (w.now + self.call_timeout ≤ u.now)
        × (u.now ≤ w.now + self.call_timeout + rt.granularity)
  unfolding try_provider_with_timeout retried failover_from_elapsed
  try_provider-silent a =
      let (u, e, lo, hi) =
        timeout-hangs laws (Result A (RpcError T)) self.call_timeout
          (retried rt hints self operation provider) w started
          (retry-hangs laws (should_retry hints) operation provider
            (rt.backoff self.max_retries self.min_delay) w started (attempt-silent a)) in
      (u, rw (e, ◌>>=◌) refl, lo, hi)

  -- What each result of a provider says of its calls.
  abbrev pub Meaning : Result A (FailoverError T) → World P → Type 0
  Meaning (ok a) u = LastAnswer operation provider (ok a) u
  Meaning (err FailoverError.closed) u = ⊥
  Meaning (err FailoverError.timeout) u = w.now + self.call_timeout ≤ u.now
  Meaning (err (FailoverError.rpc_error e)) u =
      LastAnswer operation provider (err e) u
      × (should_retry hints e ≡ true
          → u.calls ≡ replicate (suc self.max_retries) provider ++ w.calls)

  in_time-Meaning :
      (r : Result A (RpcError T)) (u : World P)
      → LastAnswer operation provider r u
      → Exhausted (should_retry hints) provider (suc self.max_retries) r w u
      → Meaning (flatten_timeout (ok r)) u
  unfolding failover_from_rpc
  in_time-Meaning (ok a) u l x = l
  in_time-Meaning (err e) u l x = (l, x)

  -- A value or an RPC error is what the provider answered to its last call; an RPC error that would
  -- be retried comes out only after all of the `max_retries` + 1 calls; `Timeout` comes out only
  -- when the call timeout has passed; and `Closed` never does.
  pub try_provider-Meaning :
      (r : Result A (FailoverError T)) (u : World P)
      → try_provider_with_timeout rt hints self operation provider w ≡ done r u
      → Meaning r u
  unfolding try_provider_with_timeout retried failover_from_elapsed
  try_provider-Meaning r u h = go (
      laws.timeout_law (Result A (RpcError T)) self.call_timeout
        (retried rt hints self operation provider) w)
    where
      go :
          Timely rt.granularity
            (w.now + self.call_timeout)
            w
            (retried rt hints self operation provider w)
            (rt.timeout
              (Result A (RpcError T))
              self.call_timeout
              (retried rt hints self operation provider)
              w)
          → Meaning r u
      go (in_time b v e t hi) =
          let same : ◌≡◌ {A = Run P (Result A (FailoverError T))} (done (flatten_timeout (ok b)) v)
              (done r u) =
            rw (t, ◌>>=◌) at h in
          let value : r ≡ flatten_timeout (ok b) = cc in
          let world : u ≡ v = cc in
          let (l, x) =
            retry-ends laws (should_retry hints) operation provider
              (rt.backoff self.max_retries self.min_delay) b w v e in
          rw (value, world)
            (in_time-Meaning b v l (rw (laws.backoff_law self.max_retries self.min_delay) at x))
      go (expired v late t lo hi between) =
          let same : ◌≡◌ {A = Run P (Result A (FailoverError T))}
              (done (err FailoverError.timeout) v) (done r u) =
            rw (t, ◌>>=◌) at h in
          let value : r ≡ err FailoverError.timeout = cc in
          let world : u ≡ v = cc in rw (value, world) lo
