-- ===== src/Subscription/Tests/Relayed.antt =====
-- Tests of a WebSocket subscription of src/robust_provider/subscription.rs that stays on its provider,
-- and of its stream: the channel has a header, then skips three, then is silent.
use robust_provider.Prelude.{ℕ, ◌==◌, ◌≡◌, none, Option, some, List, ◌↔◌, [], ◌∷◌, if◌then◌else◌}
use robust_provider.Fixtures.{hints, alone}
use robust_provider.Errors.{RecvError, Error}
use robust_provider.Runtime.{World, done, answers, silent, ok, err}
use robust_provider.Runtime.Instance.{simple_runtime}
use robust_provider.Subscription.Calls.{Outcome, Calls}
use robust_provider.Subscription.Connect.{Subscription}
use robust_provider.Subscription.Stream.{Item, ready, into_stream, poll_next}
use robust_provider.Subscription.StreamItems.{Yields, Receives, into_stream-Receives}
use robust_provider.Subscription.Recv.{recv}
use robust_provider.Subscription.Tests.{feed}
use robust_provider.Subscription.{Feed, web_socket}

abbrev lagging_feed : Feed ℕ (Unit {0})
lagging_feed = record feed {
  subscribe_blocks = λ capacity node w. answers 3 (ok 0);
  recv_header = λ sub w.
      if sub == 0
      then answers 10 (ok 100, 1)
      else if sub == 1
      then answers 10 (err (RecvError.lagged 3), 2)
      else silent;
}

abbrev left_with : ℕ → Subscription lagging_feed
left_with sub = record {
  backend = web_socket sub;
  robust_provider = alone;
  last_reconnect_attempt = none;
  current_fallback_index = none;
}

abbrev four_outcomes : List (Option (Outcome lagging_feed (simple_runtime ℕ) hints))
four_outcomes = some (ok 100) ∷ none ∷ some (err (Error.lagged 3)) ∷ some (err Error.timeout) ∷ []

abbrev timed_out_from : Subscription lagging_feed → Subscription lagging_feed
timed_out_from s = record s { last_reconnect_attempt = some 2005 }

abbrev two_items : List (Item lagging_feed (simple_runtime ℕ) hints)
two_items = ok 100 ∷ err (Error.lagged 3) ∷ []

into_stream-Receives_example :
    (Yields lagging_feed
        (simple_runtime ℕ)
        hints
        (into_stream lagging_feed (left_with 0))
        two_items
        (into_stream lagging_feed (left_with 2))
      ↔ Receives lagging_feed (simple_runtime ℕ) hints (left_with 0) two_items (left_with 2))
    × ((rounds : ℕ) (s'' : Subscription lagging_feed) (w u : World ℕ)
        → (poll_next lagging_feed
              (simple_runtime ℕ)
              hints
              rounds
              (into_stream lagging_feed (left_with 2))
              w
            ≡ done (ready none, into_stream lagging_feed s'') u)
          ↔ (recv lagging_feed (simple_runtime ℕ) hints rounds (left_with 2) w
              ≡ done (some (err Error.closed), s'') u))
into_stream-Receives_example =
    into_stream-Receives lagging_feed (simple_runtime ℕ) hints (left_with 0) (left_with 2) two_items
