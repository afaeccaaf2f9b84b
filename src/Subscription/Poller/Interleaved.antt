-- ===== src/Subscription/Poller/Interleaved.antt =====
-- Tests of the interleavings of the polling task of src/robust_provider/subscription.rs with the
-- subscription, by the theorems at a channel that has room for one message.
mod Feed
mod Held
use robust_provider.Prelude.{
  ℕ, ◌+◌, ◌*◌, ◌≤◌, ◌≡◌, refl, arith, ◌⊎◌, Bool, true, false, Option, none, some, List, [], ◌∷◌,
  ◌++◌,
}
use robust_provider.Subscription.Poller.{forward}
use robust_provider.Subscription.Poller.Whole.{boundless, Reach-forward}
use robust_provider.Subscription.Poller.Channel.{
  Channel, MpscLaws, SendLaw, RecvLaw, Sent, sent, full, closed, Taken, message, empty, ended,
}
use robust_provider.Subscription.Poller.Invariant.{Reach-Kept}
use robust_provider.Subscription.Poller.Kept.{Kept, Standing}
use robust_provider.Subscription.Poller.Joined.{TaskRuns}
use robust_provider.Subscription.Poller.Leaving.{moved_to, left-goes_on}
use robust_provider.Subscription.Poller.Liveness.{CanMove, Reach-delivers}
use robust_provider.Subscription.Poller.Polls.{unpolled, polled, over, gives}
use robust_provider.Subscription.Poller.Task.{
  polling, sending, stopped, System, spawned, poll, advance, runs, takes, moves, Reach, here, later,
}

abbrev next_hashes : List (List ℕ) → Option (List ℕ) × List (List ℕ)
next_hashes [] = (none, [])
next_hashes (hashes ∷ more) = (some hashes, more)

-- The queue, and whether there is a sender and a receiver.
abbrev Slot : Type 0
Slot = List ℕ × Bool × Bool

abbrev send_one : ℕ → Slot → Sent Slot
send_one hash (queue, sender, false) = closed
send_one hash ([], sender, true) = sent (hash ∷ [], sender, true)
send_one hash (hash' ∷ queue, sender, true) = full

abbrev recv_one : Slot → Taken ℕ Slot
recv_one (hash ∷ queue, sender, receiver) = message hash (queue, sender, receiver)
recv_one ([], true, receiver) = empty
recv_one ([], false, receiver) = ended

abbrev mpsc : Channel ℕ
mpsc = record {
  Chan = Slot;
  channel = λ buffer. ([], true, true);
  send = send_one;
  recv = recv_one;
  drop_sender = λ chan. (chan.0, false, chan.2);
  drop_receiver = λ chan. (chan.0, chan.1, false);
  queued = λ chan. chan.0;
  has_sender = λ chan. chan.1;
  has_receiver = λ chan. chan.2;
}

mpsc_laws : MpscLaws mpsc 1
mpsc_laws = record {
  fresh_queue = refl;
  fresh_sender = refl;
  fresh_receiver = refl;
  sends = sends;
  receives = receives;
  sender_dropped = λ chan. (refl, refl, refl);
  receiver_dropped = λ chan. (refl, refl);
}
  where
    sends : (hash : ℕ) (chan : Slot) → SendLaw mpsc 1 hash chan (send_one hash chan)
    sends hash (queue, sender, false) = refl
    sends hash ([], sender, true) =
        (refl, omega arith, record { queue = refl; sender = refl; receiver = refl })
    sends hash (hash' ∷ queue, sender, true) = (refl, omega arith)

    receives : (chan : Slot) → RecvLaw mpsc chan (recv_one chan)
    receives (hash ∷ queue, sender, receiver) =
        (queue, refl, record { queue = refl; sender = refl; receiver = refl })
    receives ([], true, receiver) = (refl, refl)
    receives ([], false, receiver) = (refl, refl)

abbrev two_batches : List (List ℕ)
two_batches = (1 ∷ 2 ∷ []) ∷ (3 ∷ []) ∷ []

abbrev one_batch : List (List ℕ)
one_batch = (5 ∷ []) ∷ []

-- The task has sent one hash of the first batch, and waits with the other.
abbrev waiting_task : System next_hashes mpsc
waiting_task = record {
  task = sending (2 ∷ []) ((3 ∷ []) ∷ []);
  chan = (1 ∷ [], true, true);
  received = [];
}

to_waiting_task : Reach next_hashes mpsc (spawned next_hashes mpsc 1 two_batches) 2 waiting_task
unfolding spawned advance poll
to_waiting_task = later (later here (moves (runs refl))) (moves (runs refl))

-- The task is over, and the subscription has received all.
abbrev all_received : System next_hashes mpsc
all_received = record { task = stopped; chan = ([], false, true); received = 5 ∷ [] }

to_all_received : Reach next_hashes mpsc (spawned next_hashes mpsc 1 one_batch) 5 all_received
unfolding spawned advance poll
to_all_received =
    later
      (later
        (later (later (later here (moves (runs refl))) (moves (runs refl)))
          (moves (takes refl refl)))
        (moves (runs refl)))
      (moves (runs refl))

Reach-Kept_example : Kept next_hashes mpsc 1 two_batches 2 waiting_task
Reach-Kept_example = Reach-Kept mpsc_laws to_waiting_task

Reach-delivers_example :
    (2 ≤ 2 * 2 + 2 * 3 + 2)
    × (CanMove next_hashes mpsc waiting_task
        ⊎ (mpsc.has_receiver waiting_task.chan ≡ false)
        ⊎ ((waiting_task.received ≡ 1 ∷ 2 ∷ 3 ∷ []) × (mpsc.recv waiting_task.chan ≡ ended)))
Reach-delivers_example =
    Reach-delivers mpsc_laws (omega arith) two_batches (gives refl (gives refl (over refl)))
      to_waiting_task

Reach-forward_example :
    (polls : ℕ) × (now : List (List ℕ)) × (pending missing : List ℕ) × (forward
        (boundless next_hashes)
        polls
        two_batches
        []
      ≡ (now, [] ++ missing))
    × Standing next_hashes mpsc now waiting_task.task pending
    × (mpsc.has_receiver waiting_task.chan ≡ true
        → missing ≡ mpsc.queued waiting_task.chan ++ pending)
Reach-forward_example = Reach-forward mpsc_laws two_batches to_waiting_task

-- The subscription has left before the first poll.
abbrev deserted : System next_hashes mpsc
deserted = record { task = polling two_batches; chan = ([], true, false); received = [] }

left-goes_on_example : TaskRuns next_hashes mpsc deserted (moved_to mpsc_laws deserted (polling []))
left-goes_on_example =
    left-goes_on mpsc_laws deserted refl refl (polled (polled unpolled refl) refl)
