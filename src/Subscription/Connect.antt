-- ===== src/Subscription/Connect.antt =====
-- Connecting a backend, reconnecting to the primary provider and switching to a fallback:
-- `subscribe_blocks` of src/robust_provider/provider.rs, `try_reconnect_to_primary` and
-- `switch_to_fallback` of src/robust_provider/subscription.rs.
use robust_provider.Prelude.{
  ℕ, zero, ◌+◌, ◌-◌, Bool, true, false, ◌&&◌, ◌||◌, Option, none, some, List, [], ◌∷◌, drop, leb,
  if◌then◌else◌,
}
use robust_provider.Errors.{Error, FailoverError}
use robust_provider.Errors.Classify.{RetryHints}
use robust_provider.Errors.Convert.{error_from_failover}
use robust_provider.Runtime.{
  Fut, Answer, answers, silent, Result, ok, err, Runtime, pure, done, ◌>>=◌,
}
use robust_provider.Provider.{
  RobustProvider, Operation, try_provider_with_timeout, try_operation_with_failover, enumerate,
}
use robust_provider.Subscription.{
  Feed, SubscriptionBackend, web_socket, http_polling, RobustSubscription, init, is_on_fallback,
}

-- `future.await.map(f)` on the result of an RPC call.
abbrev pub map_ok : {A B E : Type 0} → (A → B) → Answer (Result A E) → Answer (Result B E)
map_ok f (answers d (ok a)) = answers d (ok (f a))
map_ok f (answers d (err e)) = answers d (err e)
map_ok f silent = silent

module _ {P T : Type 0} (feed : Feed P T) where
  abbrev pub Backend : Type 0
  Backend = SubscriptionBackend feed.Sub feed.Receiver

  abbrev pub Subscription : Type 0
  Subscription = RobustSubscription P feed.Sub feed.Receiver

  -- The closure that `subscribe_blocks`, `try_reconnect_to_primary` and `switch_to_fallback` share.
  unfoldable pub connect : RobustProvider P → Operation P T Backend
  connect self provider w =
      if feed.not_pubsub provider && self.allow_http_subscriptions
      then map_ok
          (λ builder. http_polling (
            feed.into_receiver (
              feed.with_channel_size self.subscription_buffer_capacity
                (feed.with_poll_interval self.poll_interval builder))))
          (feed.watch_blocks provider w)
      else map_ok web_socket (feed.subscribe_blocks self.subscription_buffer_capacity provider w)

  module _ (rt : Runtime P) (hints : RetryHints T) where
    -- `subscribe_blocks`.
    abbrev pub subscribed :
        RobustProvider P → Result Backend (FailoverError T) → Result Subscription (Error T)
    subscribed self (ok subscription) = ok (init subscription self)
    subscribed self (err e) = err (error_from_failover e)

    unfoldable pub subscribe_blocks : RobustProvider P → Fut P (Result Subscription (Error T))
    subscribe_blocks self = do
      subscription ← try_operation_with_failover rt hints self (connect self)
      pure (subscribed self subscription)

    -- Whether the time for the next attempt has come, `Instant::elapsed` being `now - last`.
    abbrev pub is_due : Option ℕ → ℕ → ℕ → Bool
    is_due none interval now = false
    is_due (some last_attempt) interval now = leb interval (now - last_attempt)

    -- What an attempt to reconnect leaves.
    abbrev pub reconnected :
        Subscription → Result Backend (FailoverError T) → Fut P (Bool × Subscription)
    reconnected s (ok backend) w =
        done
          (
            true,
            record s {
              backend = backend;
              current_fallback_index = none;
              last_reconnect_attempt = none;
            },
          )
          w
    reconnected s (err _) w = done (false, record s { last_reconnect_attempt = some w.now }) w

    abbrev pub attempt_reconnect : Subscription → Fut P (Bool × Subscription)
    attempt_reconnect s = do
      subscription ←
          try_provider_with_timeout rt hints s.robust_provider (connect s.robust_provider)
            s.robust_provider.primary_provider
      reconnected s subscription

    unfoldable pub try_reconnect_to_primary : Bool → Subscription → Fut P (Bool × Subscription)
    try_reconnect_to_primary force s w =
        if force || is_due s.last_reconnect_attempt s.robust_provider.reconnect_interval w.now
        then attempt_reconnect s w
        else done (false, s) w

    -- The `for` loop of `switch_to_fallback` over the fallback providers that are left.
    unfoldable pub switch_each :
        FailoverError T
        → Subscription
        → List (ℕ × P)
        → Fut P (Result (Unit {0}) (Error T) × Subscription)
    switch_each last_error s [] = pure (err (error_from_failover last_error), s)
    switch_each last_error s ((idx, provider) ∷ rest) = do
      outcome ←
          try_provider_with_timeout rt hints s.robust_provider (connect s.robust_provider) provider
      elim outcome [
        | ok backend ↦
            pure (ok tt, record s { backend = backend; current_fallback_index = some idx })
        | err e ↦ switch_each last_error s rest
      ]

    -- `current_fallback_index.map_or(0, |idx| idx + 1)`.
    abbrev pub next_index : Option ℕ → ℕ
    next_index none = 0
    next_index (some idx) = idx + 1

    -- `if last_reconnect_attempt.is_none() { … = Some(Instant::now()) }`.
    abbrev pub or_now : Option ℕ → ℕ → Option ℕ
    or_now none now = some now
    or_now (some last_attempt) now = some last_attempt

    unfoldable pub next_fallback :
        FailoverError T → Subscription → Fut P (Result (Unit {0}) (Error T) × Subscription)
    next_fallback last_error s w =
        switch_each last_error
          (record s { last_reconnect_attempt = or_now s.last_reconnect_attempt w.now })
          (drop (next_index s.current_fallback_index)
            (enumerate zero s.robust_provider.fallback_providers))
          w

    -- The early return of `switch_to_fallback` when the primary provider took the subscription back.
    abbrev pub unless_reconnected :
        FailoverError T → Bool × Subscription → Fut P (Result (Unit {0}) (Error T) × Subscription)
    unless_reconnected last_error (true, s) = pure (ok tt, s)
    unless_reconnected last_error (false, s) = next_fallback last_error s

    unfoldable pub switch_to_fallback :
        FailoverError T → Subscription → Fut P (Result (Unit {0}) (Error T) × Subscription)
    switch_to_fallback last_error s =
        if is_on_fallback s
        then try_reconnect_to_primary true s >>= unless_reconnected last_error
        else next_fallback last_error s
