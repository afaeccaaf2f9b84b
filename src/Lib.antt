-- ===== src/Lib.antt =====
-- Robust-Provider: a verification library for the wrapper around alloy providers that retries, times
-- out and fails over.
--
-- The program. A `RobustProvider` has a primary provider and fallbacks. `try_provider_with_timeout`
-- asks one of them, again and again while its error is worth a retry, until a timeout;
-- `try_operation_with_failover` goes through the providers. The macro `robust_rpc!` wraps each RPC
-- method so. `subscribe_blocks` starts a `RobustSubscription` in the same way; its `recv` waits for a
-- header, and switches to another provider when the channel fails. A builder connects the providers.
--
-- Which file models which part:
--   Errors, Errors/Geth, Besu, Anvil, Classify, Convert, Display: src/robust_provider/errors.rs. `From`
--     implementations are functions such as `error_from_failover`; `should_retry` is the predicate
--     that src/robust_provider/provider.rs hands to `when`.
--   Runtime: futures over a clock, and the third-party functions that drive them.
--   Provider: the functions of src/robust_provider/provider.rs that drive a call, under their names.
--   Rpc, Rpc/Account, Block, Call, Fee, Log, Network, Transaction: src/macros/rpc.rs and each of its
--     uses in src/robust_provider/provider.rs; `estimate_eip1559_fees_with` is in Rpc.
--   Provider/Accessors: the accessors of src/robust_provider/provider.rs.
--   Subscription, Subscription/Connect, Recv, Stream: src/robust_provider/subscription.rs, and
--     `subscribe_blocks` of src/robust_provider/provider.rs.
--   Subscription/Poller, Poller/Task: the task that `From<PollerBuilder>` spawns, as two whole loops
--     and from await to await. In the second the task and the subscription are interleaved in any
--     order, over one channel (Poller/Channel); Poller/Joined, Session and Connected put `recv` at
--     its receiving end.
--   Subscription/Cancel: the awaits at which a call of `recv` can be dropped, and what it leaves.
--   Subscription/Calls, Messages: calls of `recv` one after the other, and the messages of a WebSocket
--     channel that they return.
--   Builder, Builder/Conversion: src/robust_provider/builder.rs and provider_conversion.rs.
--   Subscription/Place: the abstract machine of the providers that a subscription goes through.
-- The other modules of each part hold what is proved of it; Tests, Poller/Interleaved and Fixtures
-- hold examples.
--
-- How state and effects are written. A future is a function from a world to a value and the world that
-- follows, or to no end at all. The world holds the time and, as a ghost, the log of the providers
-- that were called. An RPC operation is any function of the provider and of the world, so a node may
-- answer each call differently, late, or not at all. A method with `&mut self` returns the
-- subscription that it leaves. Durations are natural numbers, of milliseconds in the defaults.
--
-- What is a parameter. tokio's `timeout` and `sleep` and backon's `Retryable` and `ExponentialBuilder`
-- are the fields of `Runtime`, with their documented behaviour in `RuntimeLaws`: a timeout may fire
-- late by a fixed amount, and the delays are as many as the retries and, up to the longest that the
-- builder allows, none shorter than `min_delay`. alloy's methods, channels and hints on which errors
-- to retry are records (`Feed`, `FeeApi`, `RetryHints`, `BlockApi` and the like), as are tokio's
-- channel (`Poller` and `ChannelLaws` for the sender alone, `Channel` and `MpscLaws` for both ends,
-- `Joins` for a wait at the receiving end, `Spawns` for what a poller leaves behind it) and the
-- connections (`Alloy`). A channel without room for a message, at which tokio panics, is left aside.
-- alloy's text of an RPC error is a function. Runtime/Instance and the Tests show that the laws can
-- hold.
--
-- Bounds and fuel. Only the loop of `recv` runs on fuel, one unit a round, since a provider that comes
-- back and fails again can keep it going for ever. While the primary provider refuses the
-- subscription, one round more than there are fallbacks after the present one is enough; otherwise
-- Subscription/TakeBack counts the rounds by how often the primary provider took it back. The two
-- loops of the polling task take the number of polls; its interleavings take no fuel.
--
-- Not modelled: the tracing macros, which only log; wakers and pinning; the documentation that the
-- macros generate; the time that passes between two awaits of the polling task.
pub mod Prelude
pub mod Fixtures
pub mod Errors
pub mod Runtime
pub mod Provider
pub mod Rpc
pub mod Subscription
pub mod Builder
