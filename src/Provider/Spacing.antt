-- ===== src/Provider/Spacing.antt =====
-- How the calls of one provider are spaced by `min_delay`: the retries of
-- `try_provider_with_timeout` of src/robust_provider/provider.rs.
use robust_provider.Prelude.{
  ℕ, suc, ◌+◌, ◌*◌, ◌≤◌, ◌≡◌, ◌≢◌, refl, ap, ◌∙◌, List, [], ◌∷◌, ◌++◌, length, replicate, Bool,
  Bool-cases, inl, inr, arith,
}
use robust_provider.Errors.{RpcError, FailoverError, Elapsed, elapsed}
use robust_provider.Errors.Classify.{RetryHints, should_retry}
use robust_provider.Errors.Convert.{failover_from_elapsed}
use robust_provider.Runtime.{
  World, Run, done, hangs, Answer, answers, silent, Result, ok, err, Runtime, RuntimeLaws,
  EachAtLeast, next_try, ◌>>=◌, await_answer, pure,
}
use robust_provider.Runtime.Calls.{replicate-snoc, bind-ends}
use robust_provider.Runtime.Laws.{timeout-ok}
use robust_provider.Provider.RetryLoop.{attempt-done}
use robust_provider.Provider.{
  RobustProvider, Operation, attempt, retried, flatten_timeout, try_provider_with_timeout,
}

module _ {P T A : Type 0} (operation : Operation P T A) (provider : P) where
  -- A row of calls of the provider, that many after the first, up to its last answer. Each but the
  -- first begins `least` at least after the answer to the one before, with no other call between.
  pub data Row (least : ℕ) : ℕ → World P → Result A (RpcError T) → World P → Type 0 where
    last_call :
        {w u : World P} {r : Result A (RpcError T)}
        → attempt operation provider w ≡ done r u
        → Row least 0 w r u
    calls_again :
        {again : ℕ} {w u : World P} {r : Result A (RpcError T)} (s : Result A (RpcError T))
        (v v' : World P)
        → attempt operation provider w ≡ done s v
        → v.now + least ≤ v'.now
        → v'.calls ≡ v.calls
        → Row least again v' r u
        → Row least (suc again) w r u

  -- From `w` to `u` the provider is called once and at most `most` times more, in such a row, which
  -- takes all of the delays together at least.
  abbrev pub Spaced : ℕ → ℕ → World P → World P → Type 0
  Spaced least most w u =
      (again : ℕ) × (again ≤ most)
      × ((r : Result A (RpcError T)) × Row least again w r u)
      × (u.calls ≡ replicate (suc again) provider ++ w.calls)
      × (w.now + again * least ≤ u.now)

  attempt-later :
      (w u : World P) (r : Result A (RpcError T))
      → attempt operation provider w ≡ done r u
      → w.now ≤ u.now
  unfolding attempt
  attempt-later w u r h = go (operation provider (record w { calls = provider ∷ w.calls })) h
    where
      go :
          (answer : Answer (Result A (RpcError T)))
          → await_answer answer (record w { calls = provider ∷ w.calls }) ≡ done r u
          → w.now ≤ u.now
      go (answers d s) h =
          let after : u ≡ record w { calls = provider ∷ w.calls; now = w.now + d } = cc in
          omega (arith, ap (λ (x : World P). x.now) after)
      go silent h = cc

  module _ {rt : Runtime P} (laws : RuntimeLaws rt) (when : RpcError T → Bool) (least : ℕ) where
    -- The last call of a row.
    once-Spaced :
        (most : ℕ) (w v u : World P) (s r : Result A (RpcError T))
        → attempt operation provider w ≡ done s v
        → ◌≡◌ {A = Run P (Result A (RpcError T))} (done s v) (done r u)
        → Spaced least most w u
    once-Spaced most w v u s r a h =
        let same : v ≡ u = cc in
        let calls = attempt-done operation provider w v s a in
        let late = attempt-later w v s a in
        let row : Spaced least most w v =
          (0, omega arith, (s, last_call a), calls, omega (arith, late)) in
        rw same at row

    retry-Spaced :
        (ds : List ℕ) (r : Result A (RpcError T)) (w u : World P)
        → EachAtLeast least ds
        → rt.retry A (RpcError T) ds when rt.sleep (attempt operation provider) w ≡ done r u
        → Spaced least (length ds) w u
    retry-Spaced [] r w u all h =
        once-Spaced 0 w u u r r
          (rw (laws.retry_last A (RpcError T) when (attempt operation provider) w) at h) refl
    retry-Spaced (d ∷ ds) r w u (long, all) h =
        go (attempt operation provider w) refl
          (rw (laws.retry_more A (RpcError T) d ds when (attempt operation provider) w) at h)
          (λ v k. retry-Spaced ds r v u all k)
      where
        go :
            (run : Run P (Result A (RpcError T)))
            → attempt operation provider w ≡ run
            → ((λ (_ : World P). run)
                  >>= next_try when rt.sleep d
                      (rt.retry A (RpcError T) ds when rt.sleep (attempt operation provider)))
                w
              ≡ done r u
            → ((v : World P)
                → rt.retry A (RpcError T) ds when rt.sleep (attempt operation provider) v ≡ done r u
                → Spaced least (length ds) v u)
            → Spaced least (suc (length ds)) w u
        go (hangs v) a h later = cc
        go (done (ok b) v) a h later = once-Spaced (suc (length ds)) w v u (ok b) r a h
        go (done (err e) v) a h later = elim (Bool-cases (when e)) [
          | inr final ↦ once-Spaced (suc (length ds)) w v u (err e) r a (rw (final, ◌>>=◌) at h)
          | inl retry ↦
              let (v', slept, pause, same) = laws.sleep_law d v in
              let (again, few, (t, row), calls, late) = later v' (rw (retry, slept, ◌>>=◌) at h) in
              (
                suc again,
                omega (arith, few),
                (t, calls_again (err e) v v' a (omega (arith, pause, long)) (same) row),
                calls
                    ∙ (ap (◌++◌ (replicate (suc again) provider))
                          (same ∙ attempt-done operation provider w v (err e) a)
                        ∙ replicate-snoc (suc again) provider w.calls),
                grind (arith, late, pause, long, attempt-later w v (err e) a),
              )
        ]

module _ {P T A : Type 0} {rt : Runtime P} (laws : RuntimeLaws rt) (hints : RetryHints T)
    (self : RobustProvider P) (operation : Operation P T A) where
  -- A provider that has come to a result by itself, before the call timeout, was called once and
  -- then `max_retries` times more at most; and after the answer to each call but the last at least
  -- `min_delay` passed before the next call, when that is no more than the delays may grow to.
  pub try_provider-Spaced :
      (provider : P) (w u : World P) (r : Result A (FailoverError T))
      → self.min_delay ≤ rt.max_delay
      → try_provider_with_timeout rt hints self operation provider w ≡ done r u
      → r ≢ err FailoverError.timeout
      → Spaced operation provider self.min_delay self.max_retries w u
  unfolding try_provider_with_timeout retried failover_from_elapsed
  try_provider-Spaced provider w u r small h no_timeout =
      let (outcome, v, e, k) =
        bind-ends
          (rt.timeout (Result A (RpcError T)) self.call_timeout
            (retried rt hints self operation provider))
          (λ outcome. pure (flatten_timeout outcome)) w r u h in
      go outcome v e k
    where
      late :
          {v : World P}
          → ◌≡◌ {A = Run P (Result A (FailoverError T))}
              (done (err FailoverError.timeout) v)
              (done r u)
          → r ≡ err FailoverError.timeout
      late k = cc

      go :
          (outcome : Result (Result A (RpcError T)) Elapsed) (v : World P)
          → rt.timeout
              (Result A (RpcError T))
              self.call_timeout
              (retried rt hints self operation provider)
              w
            ≡ done outcome v
          → ◌≡◌ {A = Run P (Result A (FailoverError T))}
              (done (flatten_timeout outcome) v)
              (done r u)
          → Spaced operation provider self.min_delay self.max_retries w u
      go (err elapsed) v e k = absurd (no_timeout (late k))
      go (ok answer) v e k =
          let same : v ≡ u = cc in
          rw (laws.backoff_law self.max_retries self.min_delay) at (
            rw same at (
              retry-Spaced operation provider laws (should_retry hints) self.min_delay
                (rt.backoff self.max_retries self.min_delay) answer w v
                (laws.backoff_least self.max_retries self.min_delay small)
                (timeout-ok laws (Result A (RpcError T)) self.call_timeout
                  (retried rt hints self operation provider) w v answer e)))
