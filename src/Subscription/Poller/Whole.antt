-- ===== src/Subscription/Poller/Whole.antt =====
-- The two loops of the polling task of src/robust_provider/subscription.rs, run whole, against the
-- task run from await to await beside the subscription.
use robust_provider.Prelude.{
  ℕ, suc, ◌+◌, ◌≡◌, refl, sym, ap, ◌∙◌, arith, true, false, Option, some, List, [], ◌∷◌, ◌++◌,
  append_assoc, append-nil,
}
use mathlib.Core.List.{append_cancel_left}
use robust_provider.Subscription.Poller.{Poller, forward_batch, forward}
use robust_provider.Subscription.Poller.Channel.{Channel, MpscLaws}
use robust_provider.Subscription.Poller.Invariant.{Reach-Kept}
use robust_provider.Subscription.Poller.Kept.{Standing}
use robust_provider.Subscription.Poller.Polls.{Polls, unpolled, polled}
use robust_provider.Subscription.Poller.Task.{System, spawned, Reach}

module _ {BlockHash Stream : Type 0} (next : Stream → Option (List BlockHash) × Stream) where
  -- A channel that takes every hash at once.
  abbrev pub boundless : Poller BlockHash
  boundless = record {
    Stream = Stream;
    next = next;
    Sender = List BlockHash;
    send_is_err = λ hash sender. (false, sender ++ hash ∷ []);
    accepted = λ sender. sender;
    is_closed = λ sender. false;
  }

  forward_batch-boundless :
      (hashes sender : List BlockHash) → forward_batch boundless hashes sender ≡ sender ++ hashes
  unfolding forward_batch
  forward_batch-boundless [] sender = sym (append-nil sender)
  forward_batch-boundless (hash ∷ hashes) sender =
      forward_batch-boundless hashes (sender ++ hash ∷ []) ∙ append_assoc sender (hash ∷ []) hashes

  forward-next :
      {now : Stream} {given : List BlockHash} (more : ℕ) (sender : List BlockHash)
      → (next now).0 ≡ some given
      → forward boundless (suc more) now sender
        ≡ forward boundless more (next now).1 (sender ++ given)
  unfolding forward
  forward-next {now} {given} more sender e =
      rw (e, forward, forward_batch-boundless given sender) refl

  -- After polls that all gave hashes the loops go on.
  forward-polled :
      {stream now : Stream} {polls : ℕ} {hashes : List BlockHash} (more : ℕ)
      (sender : List BlockHash)
      → Polls next stream polls hashes now
      → forward boundless (polls + more) stream sender
        ≡ forward boundless more now (sender ++ hashes)
  forward-polled {stream} more sender unpolled =
      rw (append-nil sender) (ap (λ (k : ℕ). forward boundless k stream sender) (omega arith))
  forward-polled {stream} more sender
        (polled {n = polls} {hashes = hashes} {more = given} {now = now} before e) =
      let count : suc polls + more ≡ polls + suc more = omega arith in
      ap (λ (k : ℕ). forward boundless k stream sender) count
      ∙ (forward-polled (suc more) sender before
          ∙ (forward-next more (sender ++ hashes) e
              ∙ ap (forward boundless more (next now).1) (append_assoc sender hashes given)))

module _ {BlockHash Stream : Type 0} {next : Stream → Option (List BlockHash) × Stream}
    {mpsc : Channel BlockHash} {buffer : ℕ} (laws : MpscLaws mpsc buffer) (stream : Stream) where
  -- However the task and the subscription are interleaved, the two loops, run whole for as many
  -- polls as the task has made, move the stream to where the task has it, and put the hashes that the
  -- subscription has received first on a channel that takes all. As long as the subscription holds
  -- the receiver, the others are those that are queued and those that the task has still to send.
  pub Reach-forward :
      {s : System next mpsc} {steps : ℕ}
      → Reach next mpsc (spawned next mpsc buffer stream) steps s
      → (polls : ℕ) × (now : Stream) × (pending missing : List BlockHash) × (forward
            (boundless next)
            polls
            stream
            []
          ≡ (now, s.received ++ missing))
        × Standing next mpsc now s.task pending
        × (mpsc.has_receiver s.chan ≡ true → missing ≡ mpsc.queued s.chan ++ pending)
  unfolding forward
  Reach-forward {s} reached =
      let kept = Reach-Kept laws reached in
      let (missing, first) = kept.received_first in
      (
        kept.polls,
        kept.now,
        kept.pending,
        missing,
        ap (λ (k : ℕ). forward (boundless next) k stream []) (omega arith)
            ∙ (forward-polled next 0 [] kept.given
                ∙ ap (λ (xs : List BlockHash). (kept.now, xs)) first),
        kept.standing,
        λ alive.
            append_cancel_left s.received missing (mpsc.queued s.chan ++ kept.pending)
              (sym first ∙ kept.in_order alive),
      )
