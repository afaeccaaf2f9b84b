-- ===== src/Subscription/Tests/Runs.antt =====
-- Tests of the runs of `recv` of src/robust_provider/subscription.rs, by the theorems at concrete
-- inputs.
use robust_provider.Prelude.{arith, ◌+◌, leb, ℕ, ◌≡◌, refl, ◌∷◌, [], some, if◌then◌else◌}
use robust_provider.Fixtures.{hints, start, provider}
use robust_provider.Errors.{RecvError, Error, FailoverError}
use robust_provider.Errors.Convert.{error_from_recv}
use robust_provider.Runtime.{World, done, answers, Result, ok, err}
use robust_provider.Runtime.Instance.{simple_runtime, simple_laws, settle, retry_loop, doubling}
use robust_provider.Provider.{
  attempt, retried, try_provider_with_timeout, enumerate, try_fallback_providers_from, try_each,
  try_operation_with_failover,
}
use robust_provider.Provider.Retries.{try_provider-first_answer}
use robust_provider.Subscription.{Feed, web_socket, init}
use robust_provider.Subscription.Cancel.{at_once, at_fallback, in_first_round}
use robust_provider.Subscription.Connect.{
  Subscription, connect, try_reconnect_to_primary, switch_each, next_fallback, switch_to_fallback,
  subscribe_blocks,
}
use robust_provider.Subscription.Reconnect.{Ends}
use robust_provider.Subscription.Recv.{receive, react, recv_round, recv}
use robust_provider.Subscription.TakeBack.{take_backs, recv-takes_back}
use robust_provider.Subscription.Lifetime.{Lives, starts, gives_up, Lives-IsValid}
use robust_provider.Subscription.Place.{primary, Route, place, recv-Route}
use robust_provider.Subscription.Homeward.{NearHome, recv-NearHome}
use robust_provider.Subscription.Noted.{PrimaryAccepts}
use robust_provider.Subscription.Valid.{IsValid, init-IsValid}
use robust_provider.Subscription.Tests.{feed, subscription, subscription-IsValid}

-- Every node takes the subscription, and closes it before the moment 25.
abbrev restless_feed : Feed ℕ (Unit {0})
restless_feed = record feed {
  subscribe_blocks = λ capacity node w. answers 3 (ok node);
  recv_header =
      λ sub w. answers 10 (if leb 25 w.now then (ok 100, sub) else (err RecvError.closed, sub));
}

one_take_back :
    take_backs restless_feed (simple_runtime ℕ) hints 6 (subscription provider) start ≡ 1
unfolding take_backs recv_round receive react switch_to_fallback next_fallback switch_each enumerate
    try_reconnect_to_primary connect simple_runtime settle try_provider_with_timeout retried
    retry_loop doubling attempt error_from_recv
one_take_back = refl

recv-takes_back_example :
    (result : Result ℕ (Error (Unit {0}))) × (s' : Subscription feed) × (u : World ℕ) × (recv
        restless_feed
        (simple_runtime ℕ)
        hints
        6
        (subscription provider)
        start
      ≡ done (some result, s') u)
unfolding init
recv-takes_back_example =
    recv-takes_back restless_feed (simple_laws ℕ) hints provider 6 (subscription provider) start
      (init-IsValid restless_feed provider (web_socket 10)) (rw one_take_back (omega arith))

-- What a call of `recv` leaves of a subscription that node 2 took, when the channel was closed and
-- the call is dropped while a fallback is asked.
abbrev interrupted : Subscription feed
interrupted = record (init (web_socket 20) provider) { last_reconnect_attempt = some 15 }

interrupted-Lives : Lives feed (simple_runtime ℕ) hints provider interrupted
unfolding subscribe_blocks init connect recv recv_round receive react switch_to_fallback
    next_fallback switch_each enumerate simple_runtime settle try_provider_with_timeout retried
    retry_loop doubling attempt error_from_recv try_operation_with_failover
    try_fallback_providers_from try_each
interrupted-Lives =
    gives_up start
      (starts (init (web_socket 20) provider) start (record { now = 1007; calls = 2 ∷ 1 ∷ [] })
        refl)
      (in_first_round (
        at_fallback (record { now = 15; calls = [] }) Error.closed FailoverError.closed refl refl
          (at_once refl)))

Lives-IsValid_example : IsValid feed provider interrupted
Lives-IsValid_example =
    Lives-IsValid feed (simple_laws ℕ) hints provider interrupted interrupted-Lives

recv-Route_example :
    Ends feed
      (λ _ s'. Route 2 primary 3 (place feed s'))
      (recv feed (simple_runtime ℕ) hints 3 (subscription provider) start)
recv-Route_example =
    recv-Route feed (simple_laws ℕ) hints provider 3 (subscription provider) start
      (subscription-IsValid provider)

node_1-accepts : PrimaryAccepts restless_feed (simple_laws ℕ) hints provider
unfolding connect
node_1-accepts w = (
  web_socket 1,
  record { now = w.now + 3; calls = 1 ∷ w.calls },
  try_provider-first_answer (simple_laws ℕ) hints provider (connect restless_feed provider) 1 w
      (ok (web_socket 1)) 3 refl tt (omega arith),
)

-- The primary provider's channel is closed at the moment 22, and the first fallback gives a header.
abbrev before_fall : World ℕ
before_fall = record { now = 12; calls = [] }

abbrev fallen_at_22 : Subscription restless_feed
fallen_at_22 = record {
  backend = web_socket 2;
  robust_provider = provider;
  last_reconnect_attempt = some 22;
  current_fallback_index = some 0;
}

recv-NearHome_example :
    NearHome restless_feed
      (simple_laws ℕ)
      hints
      provider
      100
      (subscription provider)
      before_fall
      fallen_at_22
unfolding connect recv recv_round receive react switch_to_fallback next_fallback switch_each
    enumerate try_reconnect_to_primary simple_runtime settle try_provider_with_timeout retried
    retry_loop doubling attempt init error_from_recv
recv-NearHome_example =
    recv-NearHome restless_feed (simple_laws ℕ) hints provider 2 (subscription provider)
      fallen_at_22 100 before_fall (record { now = 35; calls = 2 ∷ [] }) node_1-accepts
      (init-IsValid restless_feed provider (web_socket 10)) refl
