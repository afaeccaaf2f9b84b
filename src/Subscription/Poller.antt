-- ===== src/Subscription/Poller.antt =====
-- The task that forwards the block hashes of a poller to a channel: `From<PollerBuilder>` of
-- src/robust_provider/subscription.rs. alloy's poller stream and tokio's `mpsc` channel are
-- parameters. A sender's state is as of the send: the receiver may be dropped in between.
mod Channel
mod Connected
mod Delivery
mod Interleaved
mod Invariant
mod Leaving
mod Liveness
mod Moves
mod Polls
mod Received
mod Outcomes
mod Session
mod Joined
mod Kept
mod Task
mod Tests
mod Whole
use robust_provider.Prelude.{
  ℕ, zero, suc, ◌≡◌, refl, sym, ap, ◌∙◌, Bool, true, false, Bool-cases, ◌⊎◌, inl, inr, Option, none,
  some, Option-cases, List, [], ◌∷◌, ◌++◌, append_assoc, append-nil, if◌then◌else◌,
}

pub record Poller (BlockHash : Type 0) : Type 1 where
  -- `value.into_stream()` and `stream.next().await`.
  pub Stream : Type 0
  pub next : Stream → Option (List BlockHash) × Stream
  -- The sender's end of `mpsc::channel`: `sender.send(hash).await.is_err()`, and what the channel
  -- has accepted so far.
  pub Sender : Type 0
  pub send_is_err : BlockHash → Sender → Bool × Sender
  pub accepted : Sender → List BlockHash
  pub is_closed : Sender → Bool

-- The documented behaviour of `Sender::send`: it fails if and only if the receiver was dropped, and
-- then the channel never takes anything again.
pub record ChannelLaws {BlockHash : Type 0} (poller : Poller BlockHash) : Type 0 where
  pub send_ok :
      (h : BlockHash) (s : poller.Sender)
      → (poller.send_is_err h s).0 ≡ false
      → poller.accepted (poller.send_is_err h s).1 ≡ poller.accepted s ++ h ∷ []
  pub send_err :
      (h : BlockHash) (s : poller.Sender)
      → (poller.send_is_err h s).0 ≡ true
      → (poller.accepted (poller.send_is_err h s).1 ≡ poller.accepted s)
        × (poller.is_closed (poller.send_is_err h s).1 ≡ true)
  pub send_closed :
      (h : BlockHash) (s : poller.Sender)
      → poller.is_closed s ≡ true
      → (poller.send_is_err h s).0 ≡ true

module _ {BlockHash : Type 0} (poller : Poller BlockHash) where
  open poller use {Stream, next, Sender, send_is_err, accepted, is_closed}

  -- `for hash in hashes`, which `break` leaves.
  unfoldable pub forward_batch : List BlockHash → Sender → Sender
  forward_batch [] sender = sender
  forward_batch (hash ∷ hashes) sender =
      let sent = send_is_err hash sender in
      let rest = forward_batch hashes sent.1 in if sent.0 then sent.1 else rest

  -- `while let Some(hashes) = stream.next().await`, for so many polls at most.
  unfoldable pub forward : ℕ → Stream → Sender → Stream × Sender
  forward zero stream sender = (stream, sender)
  forward (suc polls) stream sender =
      let (found, stream') = next stream in
      elim found [
        | none ↦ (stream', sender)
        | some hashes ↦ forward polls stream' (forward_batch hashes sender)
      ]

  -- The stream after so many polls, and the hashes that they gave.
  unfoldable pub drained : ℕ → Stream → Stream × List BlockHash
  drained zero stream = (stream, [])
  drained (suc polls) stream =
      let (found, stream') = next stream in
      elim found [
        | none ↦ (stream', [])
        | some hashes ↦ ((drained polls stream').0, hashes ++ (drained polls stream').1)
      ]

  -- After any number of polls the task has moved the stream on as far as the polls alone would,
  -- whatever becomes of the receiver.
  pub forward-polls :
      (polls : ℕ) (stream : Stream) (sender : Sender)
      → (forward polls stream sender).0 ≡ (drained polls stream).0
  unfolding forward drained
  forward-polls zero stream sender = refl
  forward-polls (suc polls) stream sender =
      go (Option-cases (next stream).0) (forward-polls polls (next stream).1)
    where
      go :
          ((next stream).0 ≡ none) ⊎ ((hashes : List BlockHash) × ((next stream).0 ≡ some hashes))
          → ((sender : Sender)
              → (forward polls (next stream).1 sender).0 ≡ (drained polls (next stream).1).0)
          → (forward (suc polls) stream sender).0 ≡ (drained (suc polls) stream).0
      go (inl e) later = rw (e, forward, drained) refl
      go (inr (hashes, e)) later = rw (e, forward, drained) (later (forward_batch hashes sender))
