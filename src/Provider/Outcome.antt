-- ===== src/Provider/Outcome.antt =====
-- What `try_operation_with_failover` of src/robust_provider/provider.rs comes to.
use robust_provider.Prelude.{zero, ◌≡◌, refl, ap, List, [], ◌∷◌}
use robust_provider.Errors.{FailoverError}
use robust_provider.Errors.Classify.{RetryHints}
use robust_provider.Runtime.{World, Run, done, Result, ok, err, Runtime, RuntimeLaws, ◌>>=◌, pure}
use robust_provider.Runtime.Calls.{bind-done}
use robust_provider.Provider.Attempts.{try_provider-Concluded}
use robust_provider.Provider.Failover.{
  AllFail, FirstSuccess, Verdict, found, exhausted, try_fallback-Verdict,
}
use robust_provider.Provider.{
  RobustProvider, Operation, try_provider_with_timeout, try_fallback_providers_from,
  try_operation_with_failover, value_only,
}

abbrev pub all_providers : {P : Type 0} → RobustProvider P → List P
all_providers self = self.primary_provider ∷ self.fallback_providers

module _ {P T A : Type 0} (rt : Runtime P) (hints : RetryHints T) (self : RobustProvider P)
    (operation : Operation P T A) where
  -- What a call with failover comes to: the value of the first provider that succeeds, the primary
  -- one first and then the fallbacks in their order, or the error of the last of them.
  pub data Outcome (w : World P) (e : FailoverError T) (run : Run P (Result A (FailoverError T)))
      : Type 0 where
    succeeded :
        (value : A) (w' : World P)
        → FirstSuccess rt hints self operation (all_providers self) w e value w'
        → run ≡ done (ok value) w'
        → Outcome w e run
    failed :
        (d : FailoverError T) (w' : World P)
        → AllFail rt hints self operation (all_providers self) w e w' d
        → run ≡ done (err d) w'
        → Outcome w e run

  Verdict-Outcome :
      (w u : World P) (e d : FailoverError T)
      → try_provider_with_timeout rt hints self operation self.primary_provider w ≡ done (err d) u
      → Verdict rt hints self operation self.fallback_providers zero u d
          (try_fallback_providers_from rt hints self operation d zero u)
      → Outcome w e (try_operation_with_failover rt hints self operation w)
  unfolding try_operation_with_failover
  Verdict-Outcome w u e d h (found v w' s r) =
      succeeded v w'
        (record {
          front = self.primary_provider ∷ s.front;
          provider = s.provider;
          back = s.back;
          listed = ap (◌∷◌ self.primary_provider) s.listed;
          last = s.last;
          reached = s.reached;
          failed = (d, u, h, s.failed);
          succeeds = s.succeeds;
        })
        (rw (h, ◌>>=◌)
          (bind-done (try_fallback_providers_from rt hints self operation d zero)
            (λ x. pure (value_only x)) u r))
  Verdict-Outcome w u e d h (exhausted d' w' f r) =
      failed d' w' (d, u, h, f)
        (rw (h, ◌>>=◌)
          (bind-done (try_fallback_providers_from rt hints self operation d zero)
            (λ x. pure (value_only x)) u r))

  -- A call with failover always comes to a result. It is the value of the first provider that
  -- succeeds, asked in the order primary, fallbacks as they were added, each after all before it
  -- have failed; or, when every one fails, it is the last one's error.
  pub try_operation-Outcome :
      RuntimeLaws rt
      → (w : World P) (e : FailoverError T)
      → Outcome w e (try_operation_with_failover rt hints self operation w)
  unfolding try_operation_with_failover
  try_operation-Outcome laws w e =
      let c = try_provider-Concluded laws hints self operation self.primary_provider w in
      go c.result c.after c.ends
    where
      go :
          (r : Result A (FailoverError T)) (u : World P)
          → try_provider_with_timeout rt hints self operation self.primary_provider w ≡ done r u
          → Outcome w e (try_operation_with_failover rt hints self operation w)
      go (ok value) u h =
          succeeded value u
            (record {
              front = [];
              provider = self.primary_provider;
              back = self.fallback_providers;
              listed = refl;
              last = e;
              reached = w;
              failed = (refl, refl);
              succeeds = h;
            })
            (rw (h, ◌>>=◌) refl)
      go (err d) u h =
          Verdict-Outcome w u e d h (try_fallback-Verdict rt hints self operation laws d zero u)
