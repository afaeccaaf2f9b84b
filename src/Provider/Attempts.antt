-- ===== src/Provider/Attempts.antt =====
-- One provider: its calls, and that it always comes to a result.
use robust_provider.Prelude.{
  ℕ, suc, ◌+◌, ◌≤◌, ◌≡◌, refl, List, [], ◌∷◌, length, arith, Bool, Bool-cases, inl, inr, ◌∙◌,
}
use robust_provider.Errors.{RpcError, FailoverError, Elapsed}
use robust_provider.Errors.Classify.{RetryHints, should_retry}
use robust_provider.Runtime.{
  World, Run, done, hangs, Fut, Answer, answers, silent, Result, ok, err, Runtime, RuntimeLaws,
  Timely, in_time, expired, end_world, next_try, ◌>>=◌, await_answer,
}
use robust_provider.Runtime.Calls.{
  Repeats, Repeats-Extends, Repeats-mono, Repeats-step, Repeats-between,
}
use robust_provider.Provider.{
  RobustProvider, Operation, attempt, retried, try_provider_with_timeout, flatten_timeout,
}

module _ {P T A : Type 0} (operation : Operation P T A) (provider : P) where
  pub attempt-calls :
      (w : World P) → (end_world (attempt operation provider w)).calls ≡ provider ∷ w.calls
  unfolding attempt
  attempt-calls w = go (operation provider (record w { calls = provider ∷ w.calls }))
    where
      go :
          (answer : Answer (Result A (RpcError T)))
          → (end_world (await_answer answer (record w { calls = provider ∷ w.calls }))).calls
            ≡ provider ∷ w.calls
      go (answers d r) = refl
      go silent = refl

-- One round of backon's loop after a call of the provider.
round-Repeats :
    {P A E : Type 0} {rt : Runtime P} (laws : RuntimeLaws rt) (when : E → Bool) (provider : P)
    (k d : ℕ) (again : Fut P (Result A E)) (w : World P) (run : Run P (Result A E))
    → ((u : World P) → Repeats k provider u (end_world (again u)))
    → (end_world run).calls ≡ provider ∷ w.calls
    → Repeats (suc k) provider w (end_world (((λ _. run) >>= next_try when rt.sleep d again) w))
round-Repeats laws when provider k d again w (done (ok a) u) ih e = (1, omega arith, e)
round-Repeats laws when provider k d again w (hangs u) ih e = (1, omega arith, e)
round-Repeats {rt} laws when provider k d again w (done (err e) u) ih c =
    elim (Bool-cases (when e)) [
      | inr final ↦ rw final (1, omega arith, c)
      | inl retry ↦
          let (v, slept, _, same) = laws.sleep_law d u in
          rw (retry, slept, ◌>>=◌)
            (Repeats-step k provider w v (end_world (again v)) (same ∙ c) (ih v))
    ]

module _ {P T A : Type 0} {rt : Runtime P} (laws : RuntimeLaws rt) (when : RpcError T → Bool)
    (operation : Operation P T A) (provider : P) where
  -- However many delays there are, one call more than delays is made at most.
  pub retry-Repeats :
      (ds : List ℕ) (w : World P)
      → Repeats
          (suc (length ds))
          provider
          w
          (end_world (rt.retry A (RpcError T) ds when rt.sleep (attempt operation provider) w))
  retry-Repeats [] w =
      rw (laws.retry_last A (RpcError T) when (attempt operation provider) w)
        (1, omega arith, attempt-calls operation provider w)
  retry-Repeats (d ∷ ds) w =
      rw (laws.retry_more A (RpcError T) d ds when (attempt operation provider) w) (
        round-Repeats laws when provider (suc (length ds)) d _ w (attempt operation provider w)
          (retry-Repeats ds) (attempt-calls operation provider w))

module _ {P T A : Type 0} {rt : Runtime P} (laws : RuntimeLaws rt) (hints : RetryHints T)
    (self : RobustProvider P) (operation : Operation P T A) where
  retried-Repeats :
      (provider : P) (w : World P)
      → Repeats
          (suc self.max_retries)
          provider
          w
          (end_world (retried rt hints self operation provider w))
  unfolding retried
  retried-Repeats provider w =
      Repeats-mono _ _ provider w (end_world (retried rt hints self operation provider w))
        (omega (arith, laws.backoff_law self.max_retries self.min_delay))
        (retry-Repeats laws (should_retry hints) operation provider
          (rt.backoff self.max_retries self.min_delay) w)

  -- What a call of one provider comes to.
  pub record Concluded (provider : P) (w : World P) : Type 0 where
    pub result : Result A (FailoverError T)
    pub after : World P
    pub ends : try_provider_with_timeout rt hints self operation provider w ≡ done result after
    pub soon : after.now ≤ w.now + self.call_timeout + rt.granularity
    pub few : Repeats (suc self.max_retries) provider w after

  -- A provider always comes to a result: within the call timeout, but for the lateness of a timer,
  -- and after `max_retries` + 1 calls at most, whatever the node answers or fails to answer.
  pub try_provider-Concluded : (provider : P) (w : World P) → Concluded provider w
  unfolding try_provider_with_timeout
  try_provider-Concluded provider w = go (
      laws.timeout_law (Result A (RpcError T)) self.call_timeout
        (retried rt hints self operation provider) w)
    where
      go :
          Timely rt.granularity
            (w.now + self.call_timeout)
            w
            (retried rt hints self operation provider w)
            (rt.timeout
              (Result A (RpcError T))
              self.call_timeout
              (retried rt hints self operation provider)
              w)
          → Concluded provider w
      go (in_time a u e t hi) = record {
        result = flatten_timeout (ok a);
        after = u;
        ends = rw (t, try_provider_with_timeout, ◌>>=◌) refl;
        soon = hi;
        few = rw e at (retried-Repeats provider w);
      }
      go (expired u late t lo hi between) =
          let rep = retried-Repeats provider w in
          let (before, rest) = between (
            Repeats-Extends (suc self.max_retries) provider w
              (end_world (retried rt hints self operation provider w)) rep) in
          record {
            result = flatten_timeout (err Elapsed.elapsed);
            after = u;
            ends = rw (t, try_provider_with_timeout, ◌>>=◌) refl;
            soon = hi;
            few =
                Repeats-between (suc self.max_retries) provider w u
                  (end_world (retried rt hints self operation provider w)) rep before rest;
          }
