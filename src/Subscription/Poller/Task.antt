-- ===== src/Subscription/Poller/Task.antt =====
-- The task that `From<PollerBuilder>` of src/robust_provider/subscription.rs spawns, one await at a
-- time, beside the subscription that holds the channel's receiver.
use robust_provider.Prelude.{ℕ, suc, ◌≡◌, true, Option, none, some, List, [], ◌∷◌, ◌++◌}
use robust_provider.Subscription.Poller.Channel.{Channel, sent, full, closed, message}

-- Where the task stands, with the poller's stream that it owns.
pub data Task (Stream BlockHash : Type 0) : Type 0 where
  -- Before `stream.next()`.
  polling : Stream → Task Stream BlockHash
  -- In `for hash in hashes`, with the hashes that are still to be sent.
  sending : List BlockHash → Stream → Task Stream BlockHash
  -- After the `while`: the stream and the sender are dropped.
  stopped : Task Stream BlockHash

module _ {BlockHash Stream : Type 0} (next : Stream → Option (List BlockHash) × Stream)
    (mpsc : Channel BlockHash) where
  open mpsc use {Chan, channel, send, recv, drop_sender, drop_receiver, has_receiver}

  -- `while let Some(hashes) = stream.next().await`.
  unfoldable pub poll : Stream → Chan → Task Stream BlockHash × Chan
  poll stream chan = elim (next stream).0 [
    | some hashes ↦ (sending hashes (next stream).1, chan)
    | none ↦ (stopped, drop_sender chan)
  ]

  -- The task up to its next await. It is `none` when it waits for room in the channel, and when it
  -- is over. The `break` at a send that fails leaves the `for`, not the `while`.
  unfoldable pub advance : Task Stream BlockHash → Chan → Option (Task Stream BlockHash × Chan)
  advance (polling stream) chan = some (poll stream chan)
  advance (sending [] stream) chan = some (polling stream, chan)
  advance (sending (hash ∷ hashes) stream) chan = elim (send hash chan) [
    | sent chan' ↦ some (sending hashes stream, chan')
    | full ↦ none
    | closed ↦ some (polling stream, chan)
  ]
  advance stopped chan = none

  -- The task, the channel, and the hashes that the subscription has received.
  pub record System : Type 0 where
    pub task : Task Stream BlockHash
    pub chan : Chan
    pub received : List BlockHash

  -- `mpsc::channel(value.channel_size())`, `value.into_stream()` and `tokio::spawn`.
  unfoldable pub spawned : ℕ → Stream → System
  spawned channel_size stream = record {
    task = polling stream;
    chan = channel channel_size;
    received = [];
  }

  -- What either side does of itself: the task up to its next await, or a `recv` of the subscription
  -- that finds a message.
  pub data Move (s : System) : System → Type 0 where
    runs :
        {task : Task Stream BlockHash} {chan : Chan}
        → advance s.task s.chan ≡ some (task, chan)
        → Move s (record { task = task; chan = chan; received = s.received })
    takes :
        {hash : BlockHash} {chan : Chan}
        → has_receiver s.chan ≡ true
        → recv s.chan ≡ message hash chan
        → Move s (record { task = s.task; chan = chan; received = s.received ++ hash ∷ [] })

  -- The runtime runs either side, in any order, until the subscription changes its backend and so
  -- drops the receiver.
  pub data Step (s : System) : System → Type 0 where
    moves : {t : System} → Move s t → Step s t
    drops :
        has_receiver s.chan ≡ true
        → Step s (record { task = s.task; chan = drop_receiver s.chan; received = s.received })

  -- What can come about, in so many steps.
  pub data Reach (start : System) : ℕ → System → Type 0 where
    here : Reach start 0 start
    later : {n : ℕ} {s t : System} → Reach start n s → Step s t → Reach start (suc n) t
