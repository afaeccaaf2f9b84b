-- ===== src/Subscription/Tests/Endless.antt =====
-- Test of the endless loop of `recv` of src/robust_provider/subscription.rs: every node takes the
-- subscription and closes its channel.
use robust_provider.Prelude.{ℕ, ◌+◌, ◌≡◌, refl, arith, Option, none, some, [], ◌∷◌, false, ◌⊎◌, inl}
use robust_provider.Fixtures.{hints, start, provider}
use robust_provider.Errors.{RecvError, Error, FailoverError}
use robust_provider.Errors.Convert.{error_from_recv}
use robust_provider.Runtime.{World, done, answers, Result, ok, err, ◌>>=◌, await_answer}
use robust_provider.Runtime.Instance.{simple_runtime, simple_laws}
use robust_provider.Runtime.Laws.{timeout-in_time}
use robust_provider.Provider.Retries.{try_provider-first_answer}
use robust_provider.Subscription.Connect.{Subscription, Backend, connect}
use robust_provider.Subscription.Endless.{Accepts, NeverHears, recv-endless}
use robust_provider.Subscription.Reconnect.{Ends}
use robust_provider.Subscription.Recv.{receive, receive_from, recv}
use robust_provider.Subscription.Tests.{feed, subscription}
use robust_provider.Subscription.{Feed, web_socket, http_polling}

abbrev closing_feed : Feed ℕ (Unit {0})
closing_feed = record feed {
  not_pubsub = λ node. false;
  subscribe_blocks = λ capacity node w. answers 3 (ok node);
  recv_hash = λ rx w. answers 10 (none, rx);
}

node-Accepts : (node : ℕ) → Accepts closing_feed (simple_runtime ℕ) hints provider node
unfolding connect
node-Accepts node w = (
  web_socket node,
  record { now = w.now + 3; calls = node ∷ w.calls },
  try_provider-first_answer (simple_laws ℕ) hints provider (connect closing_feed provider) node w
      (ok (web_socket node)) 3 refl tt (omega arith),
)

-- Any channel is closed.
abbrev Closes : Backend closing_feed → Type 0
Closes backend =
    (s : Subscription closing_feed) (w : World ℕ)
    → s.robust_provider ≡ provider
    → (s' : Subscription closing_feed) × (v : World ℕ) × (receive_from closing_feed
          (simple_runtime ℕ) hints backend s w
        ≡ done (err Error.closed, s') v)

each-Closes : (backend : Backend closing_feed) → Closes backend
unfolding error_from_recv
each-Closes (web_socket sub) s w same =
    let in_time =
      timeout-in_time (simple_laws ℕ) (Result ℕ RecvError × ℕ)
        s.robust_provider.subscription_timeout
        (λ w. await_answer (closing_feed.recv_header sub w) w) w (err RecvError.closed, sub)
        (record w { now = w.now + 10 }) refl (rw same (omega arith)) in
    (record s { backend = web_socket sub }, record w { now = w.now + 10 }, rw (in_time, ◌>>=◌) refl)
each-Closes (http_polling rx) s w same =
    let in_time =
      timeout-in_time (simple_laws ℕ) (Option ℕ × ℕ) s.robust_provider.subscription_timeout
        (λ w. await_answer (closing_feed.recv_hash rx w) w) w (none, rx)
        (record w { now = w.now + 10 }) refl (rw same (omega arith)) in
    (
      record s { backend = http_polling rx },
      record w { now = w.now + 10 },
      rw (in_time, ◌>>=◌) refl,
    )

closing_feed-NeverHears : NeverHears closing_feed (simple_runtime ℕ) hints provider
unfolding receive
closing_feed-NeverHears s w same =
    let (s', v, h) = each-Closes s.backend s w same in
    (Error.closed, FailoverError.closed, s', v, h, refl)

recv-endless_example :
    Ends closing_feed
      (λ result s'.
        (result ≡ none)
        × ((s'.current_fallback_index ≡ none) ⊎ (s'.current_fallback_index ≡ some 0)))
      (recv closing_feed (simple_runtime ℕ) hints 100 (subscription provider) start)
recv-endless_example =
    recv-endless closing_feed (simple_laws ℕ) hints provider 2 (3 ∷ []) refl (node-Accepts 1)
      (node-Accepts 2) closing_feed-NeverHears 100 (subscription provider) start refl (inl refl)
