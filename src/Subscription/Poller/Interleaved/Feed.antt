-- ===== src/Subscription/Poller/Interleaved/Feed.antt =====
-- Test data: the feed of an HTTP subscription of src/robust_provider/subscription.rs whose receivers
-- have their polling task behind them.
use robust_provider.Prelude.{
  ℕ, zero, suc, ◌≡◌, refl, sym, true, false, Option, none, some, List, [], ◌∷◌,
}
use robust_provider.Fixtures.{ask}
use robust_provider.Runtime.{World, Answer, answers, silent, ok}
use robust_provider.Subscription.Poller.Channel.{message, ended, empty}
use robust_provider.Subscription.Poller.Interleaved.{next_hashes, Slot, recv_one, mpsc, one_batch}
use robust_provider.Subscription.Poller.Joined.{
  TaskRuns, stays, goes_on, Behind, WaitLaw, Joins, Spawns,
}
use robust_provider.Subscription.Poller.Task.{
  Task, polling, sending, stopped, System, spawned, poll, advance,
}
use robust_provider.Subscription.{Feed}

-- A receiver with the task behind it. While the subscription waits for a message the task runs,
-- for so many steps at most.
abbrev pub Rx : Type 0
Rx = Task (List (List ℕ)) ℕ × Slot

unfoldable pub wait_for : ℕ → Rx → Answer (Option ℕ × Rx)
wait_for zero rx = silent
wait_for (suc steps) (task, chan) = elim (recv_one chan) [
  | message hash chan' ↦ answers 10 (some hash, (task, chan'))
  | ended ↦ answers 10 (none, (task, chan))
  | empty ↦ elim (advance next_hashes mpsc task chan) [
    | none ↦ silent
    | some (task', chan') ↦ wait_for steps (task', chan')
  ]
]

advance-has_receiver :
    (task : Task (List (List ℕ)) ℕ) (chan : Slot) (task' : Task (List (List ℕ)) ℕ) (chan' : Slot)
    → advance next_hashes mpsc task chan ≡ some (task', chan')
    → mpsc.has_receiver chan ≡ true
    → mpsc.has_receiver chan' ≡ true
unfolding advance poll
advance-has_receiver (polling []) (queue, sender, receiver) task' chan' h held = cc
advance-has_receiver (polling (hashes ∷ more)) (queue, sender, receiver) task' chan' h held = cc
advance-has_receiver (sending [] stream) (queue, sender, receiver) task' chan' h held = cc
advance-has_receiver (sending (hash ∷ hashes) stream) (queue, sender, false) task' chan' h held = cc
advance-has_receiver (sending (hash ∷ hashes) stream) ([], sender, true) task' chan' h held = cc
advance-has_receiver (sending (hash ∷ hashes) stream) (hash' ∷ queue, sender, true) task' chan' h
      held =
    cc
advance-has_receiver stopped (queue, sender, receiver) task' chan' h held = cc

pub wait_for-WaitLaw :
    (steps : ℕ) (s t : System next_hashes mpsc)
    → TaskRuns next_hashes mpsc s t
    → mpsc.has_receiver t.chan ≡ true
    → WaitLaw next_hashes mpsc
        (λ (rx : Rx). rx.0)
        (λ (rx : Rx). rx.1)
        s
        (wait_for steps (t.task, t.chan))
unfolding wait_for
wait_for-WaitLaw zero s t ran held = tt
wait_for-WaitLaw (suc steps) s t ran held =
    go t.chan refl (advance next_hashes mpsc t.task t.chan) refl (wait_for-WaitLaw steps s)
  where
    go :
        (chan : Slot)
        → t.chan ≡ chan
        → (ahead : Option (Task (List (List ℕ)) ℕ × Slot))
        → advance next_hashes mpsc t.task t.chan ≡ ahead
        → ((t' : System next_hashes mpsc)
            → TaskRuns next_hashes mpsc s t'
            → mpsc.has_receiver t'.chan ≡ true
            → WaitLaw next_hashes mpsc
                (λ (rx : Rx). rx.0)
                (λ (rx : Rx). rx.1)
                s
                (wait_for steps (t'.task, t'.chan)))
        → WaitLaw next_hashes mpsc
            (λ (rx : Rx). rx.0)
            (λ (rx : Rx). rx.1)
            s
            (wait_for (suc steps) (t.task, t.chan))
    go (hash ∷ queue, sender, receiver) at ahead runs_on later =
        rw at (t, ran, held, rw at refl, refl)
    go ([], false, receiver) at ahead runs_on later =
        rw at (t, ran, held, rw at refl, (refl, sym at))
    go ([], true, receiver) at none runs_on later = rw (at, wait_for, runs_on) tt
    go ([], true, receiver) at (some (task', chan')) runs_on later =
        rw (at, wait_for, runs_on)
          (later (record { task = task'; chan = chan'; received = t.received })
            (goes_on ran runs_on) (advance-has_receiver t.task t.chan task' chan' runs_on held))

abbrev pub hash_feed : Feed ℕ (Unit {0})
hash_feed = record {
  Sub = ℕ;
  Receiver = Rx;
  Header = ℕ;
  BlockHash = ℕ;
  Block = ℕ;
  PollerBuilder = ℕ × List (List ℕ);
  not_pubsub = λ node. true;
  subscribe_blocks = λ capacity node w. silent;
  watch_blocks = λ node w. answers 2 (ok (0, one_batch));
  with_poll_interval = λ interval builder. builder;
  with_channel_size = λ size builder. (size, builder.1);
  into_receiver = λ builder. (polling builder.1, mpsc.channel builder.0);
  recv_header = λ sub w. silent;
  recv_hash = λ rx w. wait_for 9 rx;
  get_block_by_hash = λ hash. ask (some 100);
  header = λ block. block;
  sub_is_empty = λ sub. true;
  receiver_is_empty = λ rx. true;
}

abbrev pub hash_joins : Joins hash_feed next_hashes mpsc
hash_joins = record { task_of = λ rx. rx.0; channel_of = λ rx. rx.1; waits = waits }
  where
    waits :
        (s : System next_hashes mpsc) (rx : Rx) (w : World ℕ)
        → Behind next_hashes mpsc (λ (rx : Rx). rx.0) (λ (rx : Rx). rx.1) rx s
        → mpsc.has_receiver s.chan ≡ true
        → WaitLaw next_hashes mpsc (λ (rx : Rx). rx.0) (λ (rx : Rx). rx.1) s (wait_for 9 rx)
    waits s (task, chan) w (same_task, same_chan) held =
        rw (same_task, same_chan) (wait_for-WaitLaw 9 s s stays held)

pub hash_spawns : Spawns hash_feed next_hashes mpsc hash_joins
unfolding spawned
hash_spawns = record {
  channel_size = λ builder. builder.0;
  into_stream = λ builder. builder.1;
  sized = λ size builder. refl;
  spawns = λ builder. (refl, refl);
}
