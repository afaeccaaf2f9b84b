-- ===== src/Subscription/Poller/Kept.antt =====
-- What the task of src/robust_provider/subscription.rs, its channel and the subscription keep to,
-- and that it is so when the task is spawned.
use robust_provider.Prelude.{
  ℕ, ◌+◌, ◌*◌, ◌≤◌, ◌≡◌, refl, arith, Bool, true, false, Option, none, List, [], ◌++◌, length,
}
use robust_provider.Subscription.Poller.Channel.{Channel, MpscLaws}
use robust_provider.Subscription.Poller.Polls.{Polls, unpolled}
use robust_provider.Subscription.Poller.Task.{Task, polling, sending, stopped, System, spawned}

module _ {BlockHash Stream : Type 0} where
  -- The sender lives as long as the task does.
  abbrev pub is_running : Task Stream BlockHash → Bool
  is_running (polling stream) = true
  is_running (sending hashes stream) = true
  is_running stopped = false

  -- The moves that are certain to come: for a hash in hand its send and its receipt, and one for
  -- the end of the batch.
  abbrev pub in_hand : Task Stream BlockHash → ℕ
  in_hand (polling stream) = 0
  in_hand (sending hashes stream) = 1 + 2 * length hashes
  in_hand stopped = 0

  abbrev pub is_over : Task Stream BlockHash → ℕ
  is_over (polling stream) = 0
  is_over (sending hashes stream) = 0
  is_over stopped = 1

-- What is queued counts as long as there is a receiver; that it was dropped counts once.
abbrev pub waiting : Bool → ℕ → ℕ
waiting true n = n
waiting false n = 0

abbrev pub is_gone : Bool → ℕ
is_gone true = 0
is_gone false = 1

module _ {BlockHash Stream : Type 0} (next : Stream → Option (List BlockHash) × Stream)
    (mpsc : Channel BlockHash) where
  open mpsc use {Chan, queued, has_sender, has_receiver}

  -- Where the task stands in the stream, and what it has still to send.
  pub data Standing (now : Stream) : Task Stream BlockHash → List BlockHash → Type 0 where
    at_poll : Standing now (polling now) []
    at_send : {hashes : List BlockHash} → Standing now (sending hashes now) hashes
    at_end : (next now).0 ≡ none → Standing now stopped []

  -- After so many steps from the spawn.
  pub record Kept (buffer : ℕ) (stream : Stream) (steps : ℕ) (s : System next mpsc) : Type 0 where
    pub polls : ℕ
    pub hashes : List BlockHash
    pub now : Stream
    pub pending : List BlockHash
    pub given : Polls next stream polls hashes now
    pub standing : Standing now s.task pending
    pub in_order : has_receiver s.chan ≡ true → hashes ≡ s.received ++ (queued s.chan ++ pending)
    pub in_bounds : has_receiver s.chan ≡ true → length (queued s.chan) ≤ buffer
    pub received_first : (missing : List BlockHash) × (hashes ≡ s.received ++ missing)
    pub sender : has_sender s.chan ≡ is_running s.task
    pub count :
        steps + in_hand s.task + waiting (has_receiver s.chan) (length (queued s.chan))
        ≤ 2 * polls + 2 * length hashes + is_over s.task + is_gone (has_receiver s.chan)

  pub spawned-Kept :
      (buffer : ℕ) (stream : Stream)
      → MpscLaws mpsc buffer
      → Kept buffer stream 0 (spawned next mpsc buffer stream)
  unfolding spawned
  spawned-Kept buffer stream laws = record {
    polls = 0;
    hashes = [];
    now = stream;
    pending = [];
    given = unpolled;
    standing = at_poll;
    in_order = λ _. rw laws.fresh_queue refl;
    in_bounds = λ _. rw laws.fresh_queue (omega arith);
    received_first = ([], refl);
    sender = laws.fresh_sender;
    count = rw (laws.fresh_receiver, laws.fresh_queue) (omega arith);
  }
