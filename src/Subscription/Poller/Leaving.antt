-- ===== src/Subscription/Poller/Leaving.antt =====
-- The polling task of src/robust_provider/subscription.rs after the subscription has left it, by a
-- switch to another provider or by its end.
use robust_provider.Prelude.{ℕ, ◌≡◌, refl, subst, Bool, true, false, Option, some, List, [], ◌∷◌}
use robust_provider.Subscription.Poller.Channel.{
  Channel, MpscLaws, SendLaw, Sent, sent, full, closed,
}
use robust_provider.Subscription.Poller.Joined.{TaskRuns, stays, goes_on}
use robust_provider.Subscription.Poller.Polls.{Polls, unpolled, polled}
use robust_provider.Subscription.Poller.Task.{Task, polling, sending, System, poll, advance}

alive-ne-gone : (alive : Bool) → alive ≡ true → ¬ (alive ≡ false)
alive-ne-gone alive h gone = cc

-- What a send comes to when the receiver is gone.
refused-closed :
    {BlockHash : Type 0} (mpsc : Channel BlockHash) (buffer : ℕ) (hash : BlockHash)
    (chan : mpsc.Chan) (attempt : Sent mpsc.Chan)
    → SendLaw mpsc buffer hash chan attempt
    → mpsc.has_receiver chan ≡ false
    → attempt ≡ closed
refused-closed mpsc buffer hash chan (sent chan') (alive, _, _) gone =
    absurd (alive-ne-gone _ alive gone)
refused-closed mpsc buffer hash chan full (alive, _) gone = absurd (alive-ne-gone _ alive gone)
refused-closed mpsc buffer hash chan closed law gone = refl

module _ {BlockHash Stream : Type 0} {next : Stream → Option (List BlockHash) × Stream}
    {mpsc : Channel BlockHash} {buffer : ℕ} (laws : MpscLaws mpsc buffer) where
  open mpsc use {Chan, send, has_receiver}

  -- The system with its task somewhere else.
  abbrev pub moved_to : System next mpsc → Task Stream BlockHash → System next mpsc
  moved_to s task = record { task = task; chan = s.chan; received = s.received }

  -- A batch is left at its first hash.
  left-batch :
      (s : System next mpsc) (now : Stream) (hashes : List BlockHash)
      → has_receiver s.chan ≡ false
      → advance next mpsc (sending hashes now) s.chan ≡ some (polling now, s.chan)
  unfolding advance
  left-batch s now [] gone = refl
  left-batch s now (hash ∷ hashes) gone =
      rw
        (
          refused-closed mpsc buffer hash s.chan (send hash s.chan) (laws.sends hash s.chan) gone,
          advance,
        )
        refl

  -- The task of a subscription that has left goes on polling as long as the stream gives hashes,
  -- and nothing stops it: any number of polls that the stream answers are made, and what they give
  -- goes nowhere.
  pub left-goes_on :
      (s : System next mpsc) {stream now : Stream} {polls : ℕ} {hashes : List BlockHash}
      → s.task ≡ polling stream
      → has_receiver s.chan ≡ false
      → Polls next stream polls hashes now
      → TaskRuns next mpsc s (moved_to s (polling now))
  unfolding advance poll
  left-goes_on s standing gone unpolled =
      subst (λ (task : Task Stream BlockHash). TaskRuns next mpsc s (moved_to s task)) standing
        stays
  left-goes_on s standing gone (polled {more = more} {now = now} before e) =
      goes_on
        (goes_on {task = sending more (next now).1} {chan = s.chan}
          (left-goes_on s standing gone before) (rw (e, poll) refl))
        (left-batch s (next now).1 more gone)
