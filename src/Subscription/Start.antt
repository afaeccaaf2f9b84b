-- ===== src/Subscription/Start.antt =====
-- How a subscription starts: `subscribe_blocks` of src/robust_provider/provider.rs.
use robust_provider.Prelude.{◌≡◌, refl, false, none}
use robust_provider.Errors.{Error, FailoverError}
use robust_provider.Errors.Classify.{RetryHints}
use robust_provider.Errors.Convert.{error_from_failover}
use robust_provider.Runtime.{World, Run, done, Result, ok, err, Runtime, RuntimeLaws, pure}
use robust_provider.Runtime.Calls.{bind-done}
use robust_provider.Provider.Failover.{AllFail, FirstSuccess}
use robust_provider.Provider.Outcome.{
  all_providers, Outcome, succeeded, failed, try_operation-Outcome,
}
use robust_provider.Provider.{RobustProvider, try_operation_with_failover}
use robust_provider.Subscription.Connect.{
  Backend, Subscription, connect, subscribed, subscribe_blocks,
}
use robust_provider.Subscription.Valid.{IsValid, init-IsValid}
use robust_provider.Subscription.{Feed, init, is_on_fallback}

module _ {P T : Type 0} (feed : Feed P T) {rt : Runtime P} (laws : RuntimeLaws rt)
    (hints : RetryHints T) (self : RobustProvider P) where
  -- What comes of the wish to subscribe.
  pub data Started (w : World P) (run : Run P (Result (Subscription feed) (Error T))) : Type 0 where
    -- It is served by the first provider that accepts, a fallback perhaps, but it counts as one that
    -- the primary provider serves.
    subscribes :
        (backend : Backend feed) (s : Subscription feed) (u : World P)
        → FirstSuccess rt hints self
            (connect feed self)
            (all_providers self)
            w
            FailoverError.closed
            backend
            u
        → s.backend ≡ backend
        → IsValid feed self s
        → is_on_fallback s ≡ false
        → s.last_reconnect_attempt ≡ none
        → run ≡ done (ok s) u
        → Started w run
    refuses :
        (d : FailoverError T) (u : World P)
        → AllFail rt hints self (connect feed self) (all_providers self) w FailoverError.closed u d
        → run ≡ done (err (error_from_failover d)) u
        → Started w run

  -- `subscribe_blocks` always comes to an end: with a valid subscription to the first provider that
  -- accepts, or, if all refuse, with the last one's error. Even if a fallback serves it, the new
  -- subscription is not on a fallback, and its timer for the primary provider does not run.
  pub subscribe_blocks-Started : (w : World P) → Started w (subscribe_blocks feed rt hints self w)
  unfolding subscribe_blocks init
  subscribe_blocks-Started w =
      go (try_operation-Outcome rt hints self (connect feed self) laws w FailoverError.closed)
    where
      go :
          Outcome rt hints self
            (connect feed self)
            w
            FailoverError.closed
            (try_operation_with_failover rt hints self (connect feed self) w)
          → Started w (subscribe_blocks feed rt hints self w)
      go (succeeded backend u first r) =
          subscribes backend (init backend self) u first refl (init-IsValid feed self backend) refl
            refl
            (bind-done (try_operation_with_failover rt hints self (connect feed self))
              (λ x. pure (subscribed feed rt hints self x)) w r)
      go (failed d u all r) = refuses d u all (
          bind-done (try_operation_with_failover rt hints self (connect feed self))
            (λ x. pure (subscribed feed rt hints self x)) w r)
