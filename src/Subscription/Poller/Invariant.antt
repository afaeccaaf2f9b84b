-- ===== src/Subscription/Poller/Invariant.antt =====
-- The invariant of the polling task of src/robust_provider/subscription.rs, its channel and the
-- subscription, and what it says of the end that `recv` reports.
use robust_provider.Prelude.{
  ℕ, suc, ◌≡◌, refl, sym, arith, ◌∙◌, true, false, Option, none, List, [], append-nil,
}
use robust_provider.Subscription.Poller.Channel.{Channel, MpscLaws, RecvLaw, ended}
use robust_provider.Subscription.Poller.Kept.{
  Kept, Standing, at_poll, at_send, at_end, is_running, spawned-Kept,
}
use robust_provider.Subscription.Poller.Moves.{After, advance-Kept, taken-Kept}
use robust_provider.Subscription.Poller.Polls.{Polls}
use robust_provider.Subscription.Poller.Task.{
  Task, stopped, System, spawned, advance, runs, takes, Step, moves, drops, Reach, here, later,
}

module _ {BlockHash Stream : Type 0} {next : Stream → Option (List BlockHash) × Stream}
    {mpsc : Channel BlockHash} where
  pub stopped-Standing :
      {now : Stream} {task : Task Stream BlockHash} {pending : List BlockHash}
      → Standing next mpsc now task pending
      → is_running task ≡ false
      → (task ≡ stopped) × ((next now).0 ≡ none) × (pending ≡ [])
  stopped-Standing at_poll e = cc
  stopped-Standing at_send e = cc
  stopped-Standing (at_end over) e = (refl, over, refl)

module _ {BlockHash Stream : Type 0} {next : Stream → Option (List BlockHash) × Stream}
    {mpsc : Channel BlockHash} {buffer : ℕ} (laws : MpscLaws mpsc buffer) {stream : Stream} where
  open mpsc use {Chan, recv, queued, has_sender, has_receiver, drop_receiver}

  dropped-Kept :
      {s : System next mpsc} {steps : ℕ}
      → has_receiver s.chan ≡ true
      → Kept next mpsc buffer stream steps s
      → Kept next mpsc buffer stream
          (suc steps)
          (record { task = s.task; chan = drop_receiver s.chan; received = s.received })
  dropped-Kept {s} alive kept =
      let (sender, gone) = laws.receiver_dropped s.chan in
      record {
        polls = kept.polls;
        hashes = kept.hashes;
        now = kept.now;
        pending = kept.pending;
        given = kept.given;
        standing = kept.standing;
        in_order = λ alive'. cc;
        in_bounds = λ alive'. absurd (false_true (sym gone ∙ alive'));
        received_first = kept.received_first;
        sender = sender ∙ kept.sender;
        count = rw gone (omega (arith, rw alive at kept.count));
      }
    where
      false_true : ¬ (false ≡ true)
      false_true e = cc

  pub Step-Kept :
      {s t : System next mpsc} {steps : ℕ}
      → Step next mpsc s t
      → Kept next mpsc buffer stream steps s
      → Kept next mpsc buffer stream (suc steps) t
  Step-Kept {s} (moves (runs e)) kept =
      let after : After next mpsc buffer stream _ s.received (advance next mpsc s.task s.chan) =
        advance-Kept next mpsc buffer stream s.task s.chan s.received laws kept in
      rw e at after
  Step-Kept {s} (moves (takes {hash} {chan} alive e)) kept =
      let law : RecvLaw mpsc s.chan (recv s.chan) = laws.receives s.chan in
      taken-Kept next mpsc buffer stream s.task hash s.chan chan s.received alive (rw e at law) kept
  Step-Kept (drops alive) kept = dropped-Kept alive kept

  -- As long as the subscription holds the receiver, the hashes that the polls gave are those that it
  -- has received, those that are queued and those that the task has still to send, in this order and
  -- each once, and the queue keeps to its bound. What it has received stays the first of them
  -- however the task and the subscription are interleaved, and the sender lives as long as the task.
  pub Reach-Kept :
      {s : System next mpsc} {steps : ℕ}
      → Reach next mpsc (spawned next mpsc buffer stream) steps s
      → Kept next mpsc buffer stream steps s
  Reach-Kept here = spawned-Kept next mpsc buffer stream laws
  Reach-Kept (later before step) = Step-Kept step (Reach-Kept before)

  -- `recv` finds the channel at its end only when the poller's stream has ended, and then the
  -- subscription has received every hash that the stream gave.
  pub recv-ended :
      {s : System next mpsc} {steps : ℕ}
      → Reach next mpsc (spawned next mpsc buffer stream) steps s
      → has_receiver s.chan ≡ true
      → recv s.chan ≡ ended
      → (polls : ℕ) × (now : Stream) × Polls next stream polls s.received now
        × ((next now).0 ≡ none)
        × (s.task ≡ stopped)
  recv-ended {s} reached alive e =
      let kept = Reach-Kept reached in
      let law : RecvLaw mpsc s.chan (recv s.chan) = laws.receives s.chan in
      let (empty, unsent) = rw e at law in
      let (at_stop, over, nothing) = stopped-Standing kept.standing (sym kept.sender ∙ unsent) in
      let whole : kept.hashes ≡ s.received =
        (rw (empty, nothing) at kept.in_order alive) ∙ append-nil s.received in
      (kept.polls, kept.now, rw whole at kept.given, over, at_stop)
