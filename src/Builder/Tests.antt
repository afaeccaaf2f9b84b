-- ===== src/Builder/Tests.antt =====
-- Tests of src/robust_provider/builder.rs and provider_conversion.rs, by the theorems at concrete
-- inputs: connecting takes a moment, and nothing answers at the empty address.
use robust_provider.Prelude.{false, ℕ, ◌≡◌, refl, [], ◌∷◌, List, length, Message, codes}
use robust_provider.Fixtures.{hints, start, number}
use robust_provider.Errors.{RpcError, transport}
use robust_provider.Runtime.{Fut, Result, ok, err, await_answer, answers}
use robust_provider.Runtime.Instance.{simple_runtime, simple_laws}
use robust_provider.Provider.{RobustProvider, try_operation_with_failover}
use robust_provider.Provider.Accessors
use robust_provider.Builder.{
  RobustProviderBuilder, new, fragile, fallback, call_timeout, max_retries, min_delay, connect_each,
  build,
}
use robust_provider.Builder.Build.{AllConnect, Connecting, futures, Assembled, build-Connecting}
use robust_provider.Builder.ReadBack.{ReadsBack, build-ReadsBack}
use robust_provider.Builder.Settings.{
  Setting, add_fallback, set_call_timeout, set_max_retries, apply, apply_all, added,
}
use robust_provider.Builder.Conversion.{Alloy, connect_to, str, root_provider, with_defaults}
use robust_provider.Builder.Defaults.{
  around_default, into_robust_provider-default, CallBounds, build-bounds,
}

abbrev dial : Message → Fut ℕ (Result ℕ (RpcError (Unit {0})))
dial [] w = await_answer (answers 1 (err (transport tt))) w
dial (c ∷ address) w = await_answer (answers 3 (ok (length address))) w

abbrev alloy : Alloy ℕ (Unit {0})
alloy = record {
  Url = Message;
  FillProvider = ℕ;
  CacheProvider = ℕ;
  DynProvider = ℕ;
  CallBatchProvider = ℕ;
  connect = dial;
  as_str = λ url. url;
  fill_root = λ p. p;
  cache_root = λ p. p;
  dyn_root = λ p. p;
  call_batch_root = λ p. p;
}

-- "ab" is node 1, and the fallback is node 2.
abbrev builder : RobustProviderBuilder ℕ (Unit {0}) Message
builder = fallback (root_provider alloy) 2 (fragile (codes "ab"))

build-Connecting_example :
    Connecting
      (futures (str alloy) builder)
      start
      (Assembled (str alloy) builder)
      (build (str alloy) builder start)
build-Connecting_example = build-Connecting (str alloy) builder start

abbrev built : RobustProvider ℕ
built = record {
  primary_provider = 1;
  fallback_providers = 2 ∷ [];
  call_timeout = 60000;
  subscription_timeout = 120000;
  max_retries = 0;
  min_delay = 0;
  reconnect_interval = 30000;
  subscription_buffer_capacity = 128;
  poll_interval = 12000;
  allow_http_subscriptions = false;
}

-- The call timeout is set twice, around a fallback.
abbrev calls : List (Setting ℕ (Unit {0}))
calls =
    set_call_timeout 10
    ∷ add_fallback (root_provider alloy) 2
    ∷ set_call_timeout 20
    ∷ set_max_retries 1
    ∷ []

abbrev configured : RobustProvider ℕ
configured = record built { call_timeout = 20; max_retries = 1; min_delay = 1000 }

build-ReadsBack_example :
    ReadsBack calls configured
    × AllConnect
        ((str alloy).into_root_provider (codes "ab") ∷ added calls)
        start
        (Accessors.primary configured ∷ Accessors.fallback_providers configured)
        (record { now = 8; calls = [] })
unfolding build fallback new call_timeout max_retries connect_each connect_to apply apply_all
build-ReadsBack_example =
    build-ReadsBack (str alloy) (codes "ab") calls configured start (record { now = 8; calls = [] })
      refl

build-bounds_example :
    (providers : List ℕ) × AllConnect
      (futures (str alloy) builder)
      start
      providers
      (record { now = 8; calls = [] })
    × CallBounds
        (str alloy)
        (simple_runtime ℕ)
        builder
        providers
        start
        (try_operation_with_failover (simple_runtime ℕ) hints built number start)
unfolding build fallback fragile new max_retries min_delay connect_each connect_to simple_runtime
build-bounds_example =
    build-bounds (str alloy) (simple_laws ℕ) hints builder built start
      (record { now = 8; calls = [] }) refl number start

into_robust_provider-default_example :
    (with_defaults (str alloy)).into_robust_provider (codes "ab") start
    ≡ around_default (str alloy) ((str alloy).into_root_provider (codes "ab") start)
into_robust_provider-default_example = into_robust_provider-default (str alloy) (codes "ab") start
