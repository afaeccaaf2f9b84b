-- ===== src/Subscription/Messages/Subscribed.antt =====
-- A WebSocket subscription of src/robust_provider/subscription.rs from the connection of its provider
-- on.
use robust_provider.Prelude.{ℕ, ◌≡◌}
use robust_provider.Runtime.{World, answers, ok, Runtime}
use robust_provider.Provider.{RobustProvider}
use robust_provider.Subscription.Calls.{Calls}
use robust_provider.Subscription.Connect.{Subscription}
use robust_provider.Subscription.{Feed}

module _ {P T : Type 0} (feed : Feed P T) (self : RobustProvider P) where
  -- The channel that a `subscribe_blocks` of the provider gave.
  abbrev pub GivenBy : P → feed.Sub → Type 0
  GivenBy provider ws =
      (started : World P) × (delay : ℕ) × (feed.subscribe_blocks self.subscription_buffer_capacity
          provider started
        ≡ answers delay (ok ws))
