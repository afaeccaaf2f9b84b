-- ===== src/Subscription/Poller/Connected.antt =====
-- An HTTP subscription of src/robust_provider/subscription.rs from the connection of its provider on.
use robust_provider.Prelude.{
  ℕ, ◌≡◌, refl, ap, ◌∙◌, ◌&&◌, Bool-cases, Option, List, ◌∷◌, ◌++◌, inl, inr,
}
use robust_provider.Errors.{RpcError}
use robust_provider.Errors.Classify.{RetryHints}
use robust_provider.Runtime.{
  World, done, Answer, answers, silent, Result, ok, err, Runtime, RuntimeLaws, await_answer,
}
use robust_provider.Provider.{RobustProvider, attempt, try_provider_with_timeout}
use robust_provider.Provider.Retries.{try_provider-Meaning}
use robust_provider.Subscription.Connect.{Backend, Subscription, connect, map_ok}
use robust_provider.Subscription.Poller.Channel.{Channel, MpscLaws}
use robust_provider.Subscription.Poller.Joined.{Joins, Spawns, Holds}
use robust_provider.Subscription.Poller.Polls.{Polls}
use robust_provider.Subscription.Calls.{Outcome, Calls}
use robust_provider.Subscription.Poller.Outcomes.{Accounts}
use robust_provider.Subscription.Poller.Session.{Calls-Accounts}
use robust_provider.Subscription.Poller.Task.{spawned}
use robust_provider.Subscription.{Feed, web_socket, http_polling}

module _ {P T : Type 0} (feed : Feed P T) (self : RobustProvider P) where
  -- The poller that `watch_blocks` gave, with the settings of the provider.
  abbrev pub poller_of : feed.PollerBuilder → feed.PollerBuilder
  poller_of builder =
      feed.with_channel_size self.subscription_buffer_capacity
        (feed.with_poll_interval self.poll_interval builder)

  abbrev pub Polled : P → feed.Receiver → Type 0
  Polled provider rx =
      (builder : feed.PollerBuilder) × (started : World P) × (delay : ℕ) × (feed.watch_blocks
          provider started
        ≡ answers delay (ok builder))
      × (rx ≡ feed.into_receiver (poller_of builder))

  watched-Polled :
      (provider : P) (rx : feed.Receiver) (started u : World P)
      (answer : Answer (Result feed.PollerBuilder (RpcError T)))
      → feed.watch_blocks provider started ≡ answer
      → await_answer
          (map_ok {B = Backend feed}
            (λ builder. http_polling (feed.into_receiver (poller_of builder)))
            answer)
          started
        ≡ done (ok (http_polling rx)) u
      → Polled provider rx
  watched-Polled provider rx started u (answers d (ok builder)) watched h =
      (builder, started, d, watched, cc)
  watched-Polled provider rx started u (answers d (err e)) watched h = cc
  watched-Polled provider rx started u silent watched h = cc

  subscribed-ne-http :
      (rx : feed.Receiver) (started u : World P) (answer : Answer (Result feed.Sub (RpcError T)))
      → ¬ (
          await_answer (map_ok {B = Backend feed} web_socket answer) started
          ≡ done (ok (http_polling rx)) u)
  subscribed-ne-http rx started u (answers d (ok sub)) h = cc
  subscribed-ne-http rx started u (answers d (err e)) h = cc
  subscribed-ne-http rx started u silent h = cc

  -- An HTTP backend comes from `watch_blocks`.
  attempt-Polled :
      (provider : P) (w u : World P) (rx : feed.Receiver)
      → attempt (connect feed self) provider w ≡ done (ok (http_polling rx)) u
      → Polled provider rx
  unfolding attempt connect
  attempt-Polled provider w u rx h =
      let started : World P = record w { calls = provider ∷ w.calls } in
      elim (Bool-cases (feed.not_pubsub provider && self.allow_http_subscriptions)) [
        | inl http ↦
            watched-Polled provider rx started u (feed.watch_blocks provider started) refl
              (rw http at h)
        | inr ws ↦ absurd (
            subscribed-ne-http rx started u
              (feed.subscribe_blocks self.subscription_buffer_capacity provider started)
              (rw ws at h))
      ]

module _ {P T : Type 0} {feed : Feed P T} {rt : Runtime P} (laws : RuntimeLaws rt)
    (hints : RetryHints T) {Stream : Type 0} {next : Stream → Option (List feed.BlockHash) × Stream}
    {mpsc : Channel feed.BlockHash} (self : RobustProvider P)
    (mpsc_laws : MpscLaws mpsc self.subscription_buffer_capacity) {joins : Joins feed next mpsc}
    (spawns : Spawns feed next mpsc joins) where
  -- A fresh HTTP backend holds the channel of the task that was spawned for it.
  fresh-Holds :
      (sub : Subscription feed) (builder : feed.PollerBuilder)
      → sub.backend ≡ http_polling (feed.into_receiver (poller_of feed self builder))
      → Holds feed rt hints next mpsc
          (spawns.into_stream (poller_of feed self builder))
          joins
          (spawned next mpsc self.subscription_buffer_capacity
            (spawns.into_stream (poller_of feed self builder)))
          sub
  unfolding spawned
  fresh-Holds sub builder on = (
    feed.into_receiver (poller_of feed self builder),
    on,
    rw
        (spawns.sized self.subscription_buffer_capacity
          (feed.with_poll_interval self.poll_interval builder))
        at (spawns.spawns (poller_of feed self builder)),
    mpsc_laws.fresh_receiver,
  )

  -- A provider that was connected to over HTTP is polled by a poller that it gave. As long as every
  -- call of `recv` then returns without a switch to another provider, or is dropped before it comes
  -- to one, the subscription goes through the hashes that the polls give in order and skips none: each
  -- header is that of the block of the next hash; a call that returns an RPC error or `BlockNotFound`
  -- takes the next hash, one that returns `Closed` none; one that returns `Timeout` or is dropped takes
  -- the next hash, or none; and `Lagged` is never returned.
  pub connected-Accounts :
      {sub sub' : Subscription feed} {results : List (Option (Outcome feed rt hints))}
      (provider : P) (rx : feed.Receiver) (w u : World P)
      → try_provider_with_timeout rt hints self (connect feed self) provider w
        ≡ done (ok sub.backend) u
      → sub.backend ≡ http_polling rx
      → sub.robust_provider ≡ self
      → Calls feed rt hints sub results sub'
      → (builder : feed.PollerBuilder) × (started : World P) × (delay : ℕ) × (feed.watch_blocks
            provider started
          ≡ answers delay (ok builder))
        × (polls : ℕ) × (now : Stream) × (hashes missing : List feed.BlockHash) × Polls next
            (spawns.into_stream (poller_of feed self builder))
            polls
            (hashes ++ missing)
            now
        × Accounts feed rt hints self results hashes
  connected-Accounts {sub} provider rx w u h on same called =
      let (reached, attempted) =
        try_provider-Meaning laws hints self (connect feed self) provider w (ok sub.backend) u h in
      let (builder, started, delay, watched, from) =
        attempt-Polled feed self provider reached u rx (rw on at attempted) in
      let (polls, now, hashes, missing, given, counted) =
        Calls-Accounts laws hints mpsc_laws joins (spawns.into_stream (poller_of feed self builder))
          self (fresh-Holds sub builder (on ∙ ap http_polling from)) same called in
      (builder, started, delay, watched, polls, now, hashes, missing, given, counted)
