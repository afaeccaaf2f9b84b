-- ===== src/Subscription/Tests.antt =====
-- Tests of src/robust_provider/subscription.rs, by the theorems at concrete inputs: node 1 is silent,
-- node 2 takes a subscription, node 3 is an HTTP node and is polled, and every channel is closed.
mod Runs
mod Endless
mod Relayed
use robust_provider.Prelude.{
  arith, ◌+◌, ◌*◌, ◌≤◌, ℕ, ◌==◌, ◌≡◌, refl, sym, ◌∙◌, [], true, false, some, none, if◌then◌else◌,
}
use robust_provider.Fixtures.{hints, start, provider, alone, ask}
use robust_provider.Errors.{RecvError, Error, FailoverError}
use robust_provider.Errors.Convert.{error_from_failover, error_from_recv}
use robust_provider.Runtime.{◌>>=◌, World, Run, done, answers, silent, Result, ok, err}
use robust_provider.Runtime.Instance.{simple_runtime, simple_laws, settle}
use robust_provider.Provider.{RobustProvider, Operation, enumerate, try_fallback_providers_from}
use robust_provider.Provider.Retries.{try_provider-silent}
use robust_provider.Subscription.{Feed, web_socket, init}
use robust_provider.Subscription.Connect.{
  Backend, Subscription, connect, try_reconnect_to_primary, switch_each, next_fallback,
  switch_to_fallback, subscribe_blocks,
}
use robust_provider.Subscription.Search.{settle_on, next_fallback-try_fallback_providers_from}
use robust_provider.Subscription.Progress.{PrimaryRefuses}
use robust_provider.Subscription.Deadline.{round_limit, recv-in_time}
use robust_provider.Subscription.Reconnect.{Ends, EndsIn, Attempted, try_reconnect-Attempted}
use robust_provider.Subscription.Recv.{receive, react, recv_round, recv}
use robust_provider.Subscription.Round.{OnlyBackend, Reacted, EndsTurnIn, recv_round-ends}
use robust_provider.Subscription.Start.{Started, subscribe_blocks-Started}
use robust_provider.Subscription.Stream.{RobustSubscriptionStream, into_stream, poll_next}
use robust_provider.Subscription.Arrival.{receive-told, receive-timeout}
use robust_provider.Subscription.Closed.{Abandoned}
use robust_provider.Subscription.StreamEnd.{poll_next-Abandoned}
use robust_provider.Subscription.Switch.{Switched, switch_to_fallback-Switched}
use robust_provider.Subscription.Valid.{IsValid, init-IsValid, recv-IsValid}

abbrev join : ℕ → Operation ℕ (Unit {0}) ℕ
join capacity node w =
    if node == 1 then silent else if node == 2 then answers 2 (ok 20) else answers 3 (ok 30)

abbrev feed : Feed ℕ (Unit {0})
feed = record {
  Sub = ℕ;
  Receiver = ℕ;
  Header = ℕ;
  BlockHash = ℕ;
  Block = ℕ;
  PollerBuilder = ℕ;
  not_pubsub = λ node. node == 3;
  subscribe_blocks = join;
  watch_blocks = join 0;
  with_poll_interval = λ interval builder. builder;
  with_channel_size = λ size builder. builder;
  into_receiver = λ builder. builder;
  recv_header = λ sub w. answers 10 (err RecvError.closed, sub);
  recv_hash = λ receiver w. answers 10 (some 77, receiver);
  get_block_by_hash = λ hash. ask (some 100);
  header = λ block. block;
  sub_is_empty = λ sub. true;
  receiver_is_empty = λ receiver. true;
}

abbrev subscription : RobustProvider ℕ → Subscription feed
subscription self = record {
  backend = web_socket 10;
  robust_provider = self;
  last_reconnect_attempt = none;
  current_fallback_index = none;
}

-- On the first fallback, since the moment 0.
abbrev fallen_back : Subscription feed
fallen_back = record {
  backend = web_socket 20;
  robust_provider = provider;
  last_reconnect_attempt = some 0;
  current_fallback_index = some 0;
}

subscription-IsValid : (self : RobustProvider ℕ) → IsValid feed self (subscription self)
unfolding init
subscription-IsValid self = init-IsValid feed self (web_socket 10)

next_fallback-try_fallback_providers_from_example :
    next_fallback feed (simple_runtime ℕ) hints FailoverError.closed fallen_back start
    ≡ (try_fallback_providers_from
            (simple_runtime ℕ)
            hints
            provider
            (connect feed provider)
            FailoverError.closed
            1
          >>= settle_on feed FailoverError.closed fallen_back)
        start
next_fallback-try_fallback_providers_from_example =
    next_fallback-try_fallback_providers_from feed (simple_laws ℕ) hints FailoverError.closed
      fallen_back start

switch_to_fallback-Switched_example :
    EndsIn feed
      (Switched feed (simple_laws ℕ) hints FailoverError.closed fallen_back start)
      (switch_to_fallback feed (simple_runtime ℕ) hints FailoverError.closed fallen_back start)
switch_to_fallback-Switched_example =
    switch_to_fallback-Switched feed (simple_laws ℕ) hints FailoverError.closed fallen_back start

try_reconnect-Attempted_example :
    EndsIn feed
      (Attempted feed (simple_laws ℕ) hints false start fallen_back)
      (try_reconnect_to_primary feed (simple_runtime ℕ) hints false fallen_back start)
try_reconnect-Attempted_example =
    try_reconnect-Attempted feed (simple_laws ℕ) hints false fallen_back start

recv_round-ends_example :
    (res : Result ℕ (Error (Unit {0}))) × (s₁ : Subscription feed) × (v : World ℕ) × (receive feed
        (simple_runtime ℕ)
        hints
        fallen_back
        start
      ≡ done (res, s₁) v)
    × OnlyBackend feed (simple_laws ℕ) hints fallen_back s₁
    × EndsTurnIn feed
        (simple_laws ℕ)
        hints
        (Reacted feed (simple_laws ℕ) hints v res s₁)
        (recv_round feed (simple_runtime ℕ) hints fallen_back start)
recv_round-ends_example = recv_round-ends feed (simple_laws ℕ) hints fallen_back start

receive-told_example :
    receive feed (simple_runtime ℕ) hints fallen_back start
    ≡ done (err Error.closed, fallen_back) (record start { now = 15 })
receive-told_example =
    receive-told feed (simple_laws ℕ) hints fallen_back 20 20 (err RecvError.closed) 10 start refl
      refl (omega arith)

abbrev quiet_feed : Feed ℕ (Unit {0})
quiet_feed = record feed { recv_header = λ sub w. silent }

receive-timeout_example :
    (u : World ℕ) × (receive quiet_feed (simple_runtime ℕ) hints fallen_back start
      ≡ done (err Error.timeout, fallen_back) u)
    × (2005 ≤ u.now)
    × (u.now ≤ 2005)
unfolding simple_runtime
receive-timeout_example = receive-timeout quiet_feed (simple_laws ℕ) hints fallen_back start refl

recv-IsValid_example :
    Ends feed
      (λ _ s'. IsValid feed provider s')
      (recv feed (simple_runtime ℕ) hints 3 (subscription provider) start)
recv-IsValid_example =
    recv-IsValid feed provider (simple_laws ℕ) hints 3 (subscription provider) start
      (subscription-IsValid provider)

node_1-refuses : PrimaryRefuses feed (simple_laws ℕ) hints provider
unfolding connect
node_1-refuses w u backend h =
    let (v, e, _, _) =
      try_provider-silent (simple_laws ℕ) hints provider (connect feed provider) 1 w refl in
    clash v (sym e ∙ h)
  where
    clash :
        (v : World ℕ)
        → ¬ (
            ◌≡◌ {A = Run ℕ (Result (Backend feed) (FailoverError (Unit {0})))}
              (done (err FailoverError.timeout) v)
              (done (ok backend) u))
    clash v x = cc

recv-in_time_example :
    (result : Result ℕ (Error (Unit {0}))) × (s' : Subscription feed) × (u : World ℕ) × (recv feed
        (simple_runtime ℕ)
        hints
        3
        (subscription provider)
        start
      ≡ done (some result, s') u)
    × (u.now ≤ 5 + 3 * round_limit feed (simple_laws ℕ) hints provider)
recv-in_time_example =
    recv-in_time feed (simple_laws ℕ) hints provider (subscription provider) start node_1-refuses
      (subscription-IsValid provider)

subscribe_blocks-Started_example :
    Started feed
      (simple_laws ℕ)
      hints
      provider
      start
      (subscribe_blocks feed (simple_runtime ℕ) hints provider start)
subscribe_blocks-Started_example =
    subscribe_blocks-Started feed (simple_laws ℕ) hints provider start

abbrev stream : RobustProvider ℕ → RobustSubscriptionStream (Subscription feed)
stream self = record { inner = subscription self }

abbrev ended : RobustSubscriptionStream (Subscription feed)
ended = record { inner = record (subscription alone) { last_reconnect_attempt = some 15 } }

poll_next-Abandoned_example :
    Abandoned feed
      (simple_laws ℕ)
      hints
      (subscription alone)
      start
      ended.inner
      (record { now = 15; calls = [] })
unfolding poll_next recv recv_round receive react switch_to_fallback next_fallback switch_each
    enumerate into_stream simple_runtime settle error_from_failover error_from_recv
poll_next-Abandoned_example =
    poll_next-Abandoned feed (simple_laws ℕ) hints 1 (stream alone) ended start
      (record { now = 15; calls = [] }) refl
