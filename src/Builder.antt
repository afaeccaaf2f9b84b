-- ===== src/Builder.antt =====
-- How a robust provider is set up and connected: src/robust_provider/builder.rs, with the feature
-- `http-subscription` on. A `Duration` is a number of milliseconds. Connecting is a future that
-- nothing limits: see `Builder.Build` for one that never completes.
pub mod Conversion
pub mod Build
pub mod Defaults
pub mod Settings
pub mod ReadBack
mod Tests
use robust_provider.Prelude.{ℕ, Bool, false, List, [], ◌∷◌, ◌++◌}
use robust_provider.Errors.{Error}
use robust_provider.Runtime.{Fut, Result, ok, err, pure, ◌>>=◌}
use robust_provider.Provider.{RobustProvider}

abbrev pub default_call_timeout : ℕ
default_call_timeout = 60000

abbrev pub default_subscription_timeout : ℕ
default_subscription_timeout = 120000

abbrev pub default_max_retries : ℕ
default_max_retries = 3

abbrev pub default_min_delay : ℕ
default_min_delay = 1000

abbrev pub default_subscription_buffer_capacity : ℕ
default_subscription_buffer_capacity = 128

abbrev pub default_poll_interval : ℕ
default_poll_interval = 12000

-- It stands in src/robust_provider/subscription.rs.
abbrev pub default_reconnect_interval : ℕ
default_reconnect_interval = 30000

-- `BoxedProviderFuture`, and the result of `into_root_provider`.
abbrev pub ProviderFuture : Type 0 → Type 0 → Type 0
ProviderFuture P T = Fut P (Result P (Error T))

-- The trait `IntoRootProvider` for the type `F`.
pub record IntoRootProvider (P T F : Type 0) : Type 0 where
  pub into_root_provider : F → ProviderFuture P T

pub record RobustProviderBuilder (P T F : Type 0) : Type 0 where
  pub primary_provider : F
  pub fallback_providers : List (ProviderFuture P T)
  pub call_timeout : ℕ
  pub subscription_timeout : ℕ
  pub max_retries : ℕ
  pub min_delay : ℕ
  pub reconnect_interval : ℕ
  pub subscription_buffer_capacity : ℕ
  pub poll_interval : ℕ
  pub allow_http_subscriptions : Bool

module _ {P T F : Type 0} where
  unfoldable pub new : F → RobustProviderBuilder P T F
  new provider = record {
    primary_provider = provider;
    fallback_providers = [];
    call_timeout = default_call_timeout;
    subscription_timeout = default_subscription_timeout;
    max_retries = default_max_retries;
    min_delay = default_min_delay;
    reconnect_interval = default_reconnect_interval;
    subscription_buffer_capacity = default_subscription_buffer_capacity;
    poll_interval = default_poll_interval;
    allow_http_subscriptions = false;
  }

  unfoldable pub fallback :
      {G : Type 0}
      → IntoRootProvider P T G
      → G
      → RobustProviderBuilder P T F
      → RobustProviderBuilder P T F
  fallback conversion provider self = record self {
    fallback_providers = self.fallback_providers ++ conversion.into_root_provider provider ∷ [];
  }

  unfoldable pub call_timeout : ℕ → RobustProviderBuilder P T F → RobustProviderBuilder P T F
  call_timeout timeout self = record self { call_timeout = timeout }

  unfoldable pub subscription_timeout :
      ℕ → RobustProviderBuilder P T F → RobustProviderBuilder P T F
  subscription_timeout timeout self = record self { subscription_timeout = timeout }

  unfoldable pub subscription_buffer_capacity :
      ℕ → RobustProviderBuilder P T F → RobustProviderBuilder P T F
  subscription_buffer_capacity buffer_capacity self = record self {
    subscription_buffer_capacity = buffer_capacity;
  }

  unfoldable pub max_retries : ℕ → RobustProviderBuilder P T F → RobustProviderBuilder P T F
  max_retries most self = record self { max_retries = most }

  unfoldable pub min_delay : ℕ → RobustProviderBuilder P T F → RobustProviderBuilder P T F
  min_delay delay self = record self { min_delay = delay }

  unfoldable pub reconnect_interval : ℕ → RobustProviderBuilder P T F → RobustProviderBuilder P T F
  reconnect_interval interval self = record self { reconnect_interval = interval }

  unfoldable pub poll_interval : ℕ → RobustProviderBuilder P T F → RobustProviderBuilder P T F
  poll_interval interval self = record self { poll_interval = interval }

  unfoldable pub allow_http_subscriptions :
      Bool → RobustProviderBuilder P T F → RobustProviderBuilder P T F
  allow_http_subscriptions allow self = record self { allow_http_subscriptions = allow }

  unfoldable pub fragile : F → RobustProviderBuilder P T F
  fragile provider = min_delay 0 (max_retries 0 (new provider))

module _ {P T : Type 0} where
  -- The `for` loop of `build`: each future is awaited in turn, and `?` leaves at the first error.
  unfoldable pub connect_each :
      List P → List (ProviderFuture P T) → Fut P (Result (List P) (Error T))
  connect_each fallback_providers [] = pure (ok fallback_providers)
  connect_each fallback_providers (next ∷ rest) = do
    connected ← next
    elim connected [
      | ok provider ↦ connect_each (fallback_providers ++ provider ∷ []) rest
      | err e ↦ pure (err e)
    ]

module _ {P T F : Type 0} where
  -- The `RobustProvider { … }` at the end of `build`.
  abbrev pub assemble : RobustProviderBuilder P T F → P → List P → RobustProvider P
  assemble self primary_provider fallback_providers = record {
    primary_provider = primary_provider;
    fallback_providers = fallback_providers;
    call_timeout = self.call_timeout;
    subscription_timeout = self.subscription_timeout;
    max_retries = self.max_retries;
    min_delay = self.min_delay;
    reconnect_interval = self.reconnect_interval;
    subscription_buffer_capacity = self.subscription_buffer_capacity;
    poll_interval = self.poll_interval;
    allow_http_subscriptions = self.allow_http_subscriptions;
  }

  abbrev pub finish :
      RobustProviderBuilder P T F
      → P
      → Result (List P) (Error T)
      → Result (RobustProvider P) (Error T)
  finish self primary_provider (err e) = err e
  finish self primary_provider (ok fallback_providers) =
      ok (assemble self primary_provider fallback_providers)

  unfoldable pub build :
      IntoRootProvider P T F
      → RobustProviderBuilder P T F
      → Fut P (Result (RobustProvider P) (Error T))
  build conversion self = do
    primary ← conversion.into_root_provider self.primary_provider
    elim primary [
      | err e ↦ pure (err e)
      | ok primary_provider ↦ do
        connected ← connect_each [] self.fallback_providers
        pure (finish self primary_provider connected)
    ]
