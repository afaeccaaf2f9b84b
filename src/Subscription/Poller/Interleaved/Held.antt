-- ===== src/Subscription/Poller/Interleaved/Held.antt =====
-- Tests of an HTTP subscription of src/robust_provider/subscription.rs joined to its polling task.
use robust_provider.Prelude.{
  one_of, ℕ, ◌≡◌, refl, true, none, Option, none, some, List, [], ◌∷◌, ◌++◌,
}
use robust_provider.Fixtures.{hints, start, provider}
use robust_provider.Runtime.{World, answers, ok}
use robust_provider.Runtime.Instance.{simple_runtime, simple_laws, settle, retry_loop, doubling}
use robust_provider.Subscription.Cancel.{at_message}
use robust_provider.Subscription.Connect.{Subscription, connect}
use robust_provider.Subscription.Poller.Interleaved.Feed.{
  Rx, wait_for, hash_feed, hash_joins, hash_spawns,
}
use robust_provider.Subscription.Poller.Joined.{Holds, Tells}
use robust_provider.Subscription.Calls.{Outcome, Calls, uncalled, calls, drops}
use robust_provider.Subscription.Poller.Outcomes.{Accounts}
use robust_provider.Subscription.Poller.Connected.{poller_of, connected-Accounts}
use robust_provider.Subscription.Poller.Polls.{Polls}
use robust_provider.Subscription.Poller.Received.{receive-Tells}
use robust_provider.Errors.Geth
use robust_provider.Errors.Classify.{should_retry, is_retryable_error, is_block_not_found}
use robust_provider.Rpc.{unwrap_or, robust_rpc_or}
use robust_provider.Provider.{
  RobustProvider, attempt, retried, try_provider_with_timeout, enumerate, try_each,
  try_fallback_providers_from, try_operation_with_failover,
}
use robust_provider.Subscription.Recv.{receive, recv, recv_round, react}
use robust_provider.Subscription.{http_polling}
use robust_provider.Subscription.Poller.Task.{
  sending, polling, System, spawned, poll, advance, runs, moves, Reach, here, later,
}
use robust_provider.Subscription.Poller.Interleaved.{next_hashes, mpsc, mpsc_laws, one_batch}

abbrev polled_by : Rx → Subscription hash_feed
polled_by rx = record {
  backend = http_polling rx;
  robust_provider = provider;
  last_reconnect_attempt = none;
  current_fallback_index = none;
}

-- The task has sent the only hash, and has still to find the stream at its end.
abbrev hash_queued : System next_hashes mpsc
hash_queued = record { task = sending [] []; chan = (5 ∷ [], true, true); received = [] }

to_hash_queued : Reach next_hashes mpsc (spawned next_hashes mpsc 1 one_batch) 2 hash_queued
unfolding spawned advance poll
to_hash_queued = later (later here (moves (runs refl))) (moves (runs refl))

receive-Tells_example :
    (steps : ℕ) × (t : System next_hashes mpsc) × Reach next_hashes mpsc
      (spawned next_hashes mpsc 1 one_batch)
      steps
      t
    × Holds hash_feed
        (simple_runtime ℕ)
        hints
        next_hashes
        mpsc
        one_batch
        hash_joins
        t
        (polled_by (sending [] [], ([], true, true)))
    × Tells hash_feed
        (simple_runtime ℕ)
        hints
        next_hashes
        mpsc
        one_batch
        provider
        (ok 100)
        hash_queued
        t
unfolding wait_for receive simple_runtime settle robust_rpc_or unwrap_or try_operation_with_failover
    try_provider_with_timeout retried retry_loop doubling attempt try_fallback_providers_from
    try_each enumerate should_retry is_retryable_error is_block_not_found Geth.is_block_not_found
    one_of
receive-Tells_example =
    receive-Tells (simple_laws ℕ) hints mpsc_laws hash_joins one_batch hash_queued to_hash_queued
      (polled_by (sending [] [], (5 ∷ [], true, true)))
      (polled_by (sending [] [], ([], true, true))) (ok 100) start
      (record { now = 1026; calls = 3 ∷ 2 ∷ 1 ∷ [] }) (_, refl, (refl, refl), refl) refl

-- A provider whose channel has room for one message, and that is connected to over HTTP.
abbrev one_by_one : RobustProvider ℕ
one_by_one = record provider { subscription_buffer_capacity = 1 }

abbrev connected_to : Rx → Subscription hash_feed
connected_to rx = record {
  backend = http_polling rx;
  robust_provider = one_by_one;
  last_reconnect_attempt = none;
  current_fallback_index = none;
}

-- A call is dropped while it waits, and the next one returns a header.
abbrev one_header : List (Option (Outcome hash_feed (simple_runtime ℕ) hints))
one_header = none ∷ some (ok 100) ∷ []

two_calls :
    Calls hash_feed
      (simple_runtime ℕ)
      hints
      (connected_to (polling one_batch, ([], true, true)))
      one_header
      (connected_to (sending [] [], ([], true, true)))
unfolding wait_for receive simple_runtime settle robust_rpc_or unwrap_or try_operation_with_failover
    try_provider_with_timeout retried retry_loop doubling attempt try_fallback_providers_from
    try_each enumerate should_retry is_retryable_error is_block_not_found Geth.is_block_not_found
    one_of recv recv_round advance poll react
two_calls =
    drops start at_message
      (calls start (record { now = 1026; calls = 3 ∷ 2 ∷ 1 ∷ [] }) refl refl uncalled)

connected-Accounts_example :
    (builder : ℕ × List (List ℕ)) × (started : World ℕ) × (delay : ℕ) × (hash_feed.watch_blocks 1
        started
      ≡ answers delay (ok builder))
    × (polls : ℕ) × (now : List (List ℕ)) × (hashes missing : List ℕ) × Polls next_hashes
        (hash_spawns.into_stream (poller_of hash_feed one_by_one builder))
        polls
        (hashes ++ missing)
        now
    × Accounts hash_feed (simple_runtime ℕ) hints one_by_one one_header hashes
unfolding simple_runtime settle try_provider_with_timeout retried retry_loop doubling attempt
    connect
connected-Accounts_example =
    connected-Accounts (simple_laws ℕ) hints one_by_one mpsc_laws hash_spawns 1
      (polling one_batch, ([], true, true)) start (record { now = 7; calls = 1 ∷ [] }) refl refl
      refl two_calls
