-- ===== src/Subscription/Recv.antt =====
-- `recv` of src/robust_provider/subscription.rs: one round of its loop, and the loop.
use robust_provider.Prelude.{ℕ, zero, suc, Bool, false, Option, none, some, if◌then◌else◌}
use robust_provider.Errors.{RecvError, Error, FailoverError, Elapsed}
use robust_provider.Errors.Classify.{RetryHints}
use robust_provider.Errors.Convert.{error_from_recv, error_from_elapsed, failover_from_rpc}
use robust_provider.Runtime.{Fut, Result, ok, err, Runtime, pure, await_answer, ◌>>=◌}
use robust_provider.Rpc.{robust_rpc_or}
use robust_provider.Subscription.Connect.{
  Subscription, try_reconnect_to_primary, switch_to_fallback,
}
use robust_provider.Subscription.{
  Feed, SubscriptionBackend, web_socket, http_polling, is_on_fallback,
}

-- A round of the loop returns a result of `recv`, or goes on.
pub data Round (Header S E : Type 0) : Type 0 where
  returns : Result Header E → S → Round Header S E
  continues : S → Round Header S E

module _ {P T : Type 0} (feed : Feed P T) (rt : Runtime P) (hints : RetryHints T) where
  -- The outcome of the wait on one channel or the other, and the subscription with the channel as
  -- it is then. A wait that times out leaves the channel alone.
  abbrev pub Received : Type 0
  Received = Result feed.Header (Error T) × Subscription feed

  abbrev pub from_web_socket :
      Subscription feed → Result (Result feed.Header RecvError × feed.Sub) Elapsed → Received
  from_web_socket s (ok (ok header, sub)) = (ok header, record s { backend = web_socket sub })
  from_web_socket s (ok (err recv_error, sub)) =
      (err (error_from_recv recv_error), record s { backend = web_socket sub })
  from_web_socket s (err e) = (err (error_from_elapsed e), s)

  -- `block.header().clone()`, or why the block did not come.
  abbrev pub block_header :
      Result (Result feed.Block (Error T)) Elapsed → Result feed.Header (Error T)
  block_header (ok (ok block)) = ok (feed.header block)
  block_header (ok (err e)) = err e
  block_header (err e) = err (error_from_elapsed e)

  abbrev pub from_http_polling :
      Subscription feed → Result (Option feed.BlockHash × feed.Receiver) Elapsed → Fut P Received
  from_http_polling s (ok (some hash, receiver)) = do
    block ← rt.timeout (Result feed.Block (Error T)) s.robust_provider.subscription_timeout (
        robust_rpc_or rt hints s.robust_provider Error.block_not_found
          (feed.get_block_by_hash hash))
    pure (block_header block, record s { backend = http_polling receiver })
  from_http_polling s (ok (none, receiver)) =
      pure (err Error.closed, record s { backend = http_polling receiver })
  from_http_polling s (err e) = pure (err (error_from_elapsed e), s)

  abbrev pub receive_from :
      SubscriptionBackend feed.Sub feed.Receiver → Subscription feed → Fut P Received
  receive_from (web_socket sub) s = do
    message ←
        rt.timeout (Result feed.Header RecvError × feed.Sub) s.robust_provider.subscription_timeout
          (λ w. await_answer (feed.recv_header sub w) w)
    pure (from_web_socket s message)
  receive_from (http_polling receiver) s = do
    message ←
        rt.timeout (Option feed.BlockHash × feed.Receiver) s.robust_provider.subscription_timeout
          (λ w. await_answer (feed.recv_hash receiver w) w)
    from_http_polling s message

  -- `match &mut self.backend { … }`.
  unfoldable pub receive : Subscription feed → Fut P Received
  receive s = receive_from s.backend s

  abbrev pub Turn : Type 0
  Turn = Round feed.Header (Subscription feed) (Error T)

  -- `self.switch_to_fallback(…).await?`.
  abbrev pub after_switch : Result (Unit {0}) (Error T) × Subscription feed → Turn
  after_switch (ok _, s) = continues s
  after_switch (err e, s) = returns (err e) s

  abbrev pub switch : FailoverError T → Subscription feed → Fut P Turn
  switch last_error s = do
    switched ← switch_to_fallback feed rt hints last_error s
    pure (after_switch switched)

  abbrev pub back_to_primary : Subscription feed → Fut P (Bool × Subscription feed)
  back_to_primary s =
      if is_on_fallback s then try_reconnect_to_primary feed rt hints false s else pure (false, s)

  unfoldable pub react : Received → Fut P Turn
  react (ok header, s) = do attempt ← back_to_primary s; pure (returns (ok header) attempt.1)
  react (err Error.timeout, s) = switch FailoverError.timeout s
  react (err (Error.lagged count), s) = pure (returns (err (Error.lagged count)) s)
  react (err Error.block_not_found, s) = pure (returns (err Error.block_not_found) s)
  react (err Error.closed, s) = switch FailoverError.closed s
  react (err (Error.rpc_error e), s) = switch (failover_from_rpc e) s

  -- One round of the loop.
  unfoldable pub recv_round : Subscription feed → Fut P Turn
  recv_round s = receive s >>= react

  -- The loop on fuel; `none` means that the fuel ran out. A failing provider may come back and fail
  -- again for ever, so no amount of fuel is enough for every world.
  unfoldable pub recv :
      ℕ → Subscription feed → Fut P (Option (Result feed.Header (Error T)) × Subscription feed)
  recv zero s = pure (none, s)
  recv (suc rounds) s = do
    turn ← recv_round s
    elim turn [ returns result s' ↦ pure (some result, s') | continues s' ↦ recv rounds s' ]
