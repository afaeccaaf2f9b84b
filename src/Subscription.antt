-- ===== src/Subscription.antt =====
-- Block subscriptions with failover and reconnection: src/robust_provider/subscription.rs, with the
-- feature `http-subscription` on (off is the same as never allowing HTTP subscriptions).
-- A method takes the subscription and returns the one that it leaves; `&mut self` of a channel is
-- the channel that comes back with the message.
pub mod Connect
pub mod Start
pub mod Recv
pub mod Advance
pub mod Arrival
pub mod Stream
pub mod Closed
pub mod StreamEnd
pub mod StreamItems
pub mod Poller
pub mod Valid
pub mod Reconnect
pub mod Search
pub mod Switch
pub mod Round
pub mod Loop
pub mod Stay
pub mod Progress
pub mod SwitchTime
pub mod Timing
pub mod TakeBack
pub mod Deadline
pub mod Cancel
pub mod Calls
pub mod Messages
pub mod Lifetime
pub mod Place
pub mod Noted
pub mod Homeward
pub mod Endless
mod Tests
use robust_provider.Prelude.{ℕ, Bool, true, false, Option, none, some}
use robust_provider.Errors.{RecvError}
use robust_provider.Runtime.{World, Answer, Result}
use robust_provider.Provider.{RobustProvider, Operation}

-- What the code uses of alloy's providers, subscriptions and pollers and of tokio's channels.
pub record Feed (P T : Type 0) : Type 1 where
  -- `Subscription<N::HeaderResponse>` and `mpsc::Receiver<BlockHash>`.
  pub Sub : Type 0
  pub Receiver : Type 0
  pub Header : Type 0
  pub BlockHash : Type 0
  pub Block : Type 0
  -- `PollerBuilder<(U256,), Vec<BlockHash>>`.
  pub PollerBuilder : Type 0
  -- `provider.client().pubsub_frontend().is_none()`.
  pub not_pubsub : P → Bool
  -- `provider.subscribe_blocks().channel_size(n)`.
  pub subscribe_blocks : ℕ → Operation P T Sub
  pub watch_blocks : Operation P T PollerBuilder
  pub with_poll_interval : ℕ → PollerBuilder → PollerBuilder
  pub with_channel_size : ℕ → PollerBuilder → PollerBuilder
  -- The channel and the task of `From<PollerBuilder>`: see `Subscription.Poller`.
  pub into_receiver : PollerBuilder → Receiver
  -- `sub.recv()` on either kind of channel.
  pub recv_header : Sub → World P → Answer (Result Header RecvError × Sub)
  pub recv_hash : Receiver → World P → Answer (Option BlockHash × Receiver)
  -- `provider.get_block_by_hash(hash)` and `block.header()`.
  pub get_block_by_hash : BlockHash → Operation P T (Option Block)
  pub header : Block → Header
  pub sub_is_empty : Sub → Bool
  pub receiver_is_empty : Receiver → Bool

pub data SubscriptionBackend (Sub Receiver : Type 0) : Type 0 where
  web_socket : Sub → SubscriptionBackend Sub Receiver
  http_polling : Receiver → SubscriptionBackend Sub Receiver

pub record RobustSubscription (P Sub Receiver : Type 0) : Type 0 where
  pub backend : SubscriptionBackend Sub Receiver
  pub robust_provider : RobustProvider P
  pub last_reconnect_attempt : Option ℕ
  pub current_fallback_index : Option ℕ

abbrev pub is_some : Option ℕ → Bool
is_some none = false
is_some (some i) = true

module _ {P Sub Receiver : Type 0} where
  -- `RobustSubscription::new`.
  unfoldable pub init :
      SubscriptionBackend Sub Receiver → RobustProvider P → RobustSubscription P Sub Receiver
  init subscription robust_provider = record {
    backend = subscription;
    robust_provider = robust_provider;
    last_reconnect_attempt = none;
    current_fallback_index = none;
  }

  abbrev pub is_on_fallback : RobustSubscription P Sub Receiver → Bool
  is_on_fallback s = is_some s.current_fallback_index
