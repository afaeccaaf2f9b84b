-- ===== src/Subscription/Stream.antt =====
-- The stream of src/robust_provider/subscription.rs: `RobustSubscriptionStream`, `make_future` and
-- `poll_next`. A future does nothing before it is polled, so the one that the stream holds is the
-- subscription it will call `recv` on.
use robust_provider.Prelude.{ℕ, Bool, Option, none, some}
use robust_provider.Errors.{Error}
use robust_provider.Errors.Classify.{RetryHints}
use robust_provider.Runtime.{Fut, Result, ok, err, Runtime, pure, ◌>>=◌}
use robust_provider.Subscription.Connect.{Backend, Subscription}
use robust_provider.Subscription.Recv.{recv}
use robust_provider.Subscription.{Feed, web_socket, http_polling}

pub record RobustSubscriptionStream (S : Type 0) : Type 0 where
  -- The argument of the `make_future` that is boxed.
  pub inner : S

pub data Poll (A : Type 0) : Type 0 where
  ready : A → Poll A
  pending : Poll A

module _ {P T : Type 0} (feed : Feed P T) where
  abbrev pub is_empty_backend : Backend feed → Bool
  is_empty_backend (web_socket sub) = feed.sub_is_empty sub
  is_empty_backend (http_polling sub) = feed.receiver_is_empty sub

  unfoldable pub is_empty : Subscription feed → Bool
  is_empty s = is_empty_backend s.backend

  unfoldable pub into_stream : Subscription feed → RobustSubscriptionStream (Subscription feed)
  into_stream s = record { inner = s }

  module _ (rt : Runtime P) (hints : RetryHints T) where
    abbrev pub Item : Type 0
    Item = Result feed.Header (Error T)

    -- The `match` of `poll_next`.
    abbrev pub to_item : Item → Option Item
    to_item (ok item) = some (ok item)
    to_item (err Error.closed) = none
    to_item (err Error.timeout) = some (err Error.timeout)
    to_item (err (Error.rpc_error e)) = some (err (Error.rpc_error e))
    to_item (err Error.block_not_found) = some (err Error.block_not_found)
    to_item (err (Error.lagged count)) = some (err (Error.lagged count))

    abbrev pub to_poll : Option Item → Poll (Option Item)
    to_poll none = pending
    to_poll (some result) = ready (to_item result)

    -- `poll_next`, polled until `recv` returns or its rounds run out; the next future is boxed
    -- whatever the item.
    unfoldable pub poll_next :
        ℕ
        → RobustSubscriptionStream (Subscription feed)
        → Fut P (Poll (Option Item) × RobustSubscriptionStream (Subscription feed))
    poll_next rounds stream = do
      (result, rx) ← recv feed rt hints rounds stream.inner
      pure (to_poll result, into_stream rx)
