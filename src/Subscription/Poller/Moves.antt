-- ===== src/Subscription/Poller/Moves.antt =====
-- Every step of the task of src/robust_provider/subscription.rs, of the subscription's `recv` and of
-- its change of backend, as to what the three keep to.
use robust_provider.Prelude.{
  ◌⊎◌, inl, inr, ℕ, suc, ◌≡◌, refl, ap, ◌∙◌, arith, true, false, Option, none, some, List, [], ◌∷◌,
  ◌++◌, append_assoc, append-nil, Option-cases, length-append,
}
use robust_provider.Subscription.Poller.Channel.{
  Channel, MpscLaws, SendLaw, RecvLaw, sent, full, closed, message, Sent,
}
use robust_provider.Subscription.Poller.Kept.{Kept, Standing, at_poll, at_send, at_end}
use robust_provider.Subscription.Poller.Polls.{polled}
use robust_provider.Subscription.Poller.Task.{Task, polling, sending, stopped, poll, advance}

module _ {BlockHash Stream : Type 0} (next : Stream → Option (List BlockHash) × Stream)
    (mpsc : Channel BlockHash) (buffer : ℕ) (stream : Stream) where
  open mpsc use {Chan, send, recv, queued, has_sender, has_receiver, drop_sender, drop_receiver}

  abbrev pub After : ℕ → List BlockHash → Option (Task Stream BlockHash × Chan) → Type 0
  After steps received none = Unit
  After steps received (some (task, chan)) =
      Kept next mpsc buffer stream steps (record { task = task; chan = chan; received = received })

  polling-Standing :
      {now now' : Stream} {pending : List BlockHash}
      → Standing next mpsc now' (polling now) pending
      → (now' ≡ now) × (pending ≡ [])
  polling-Standing at_poll = (refl, refl)

  sending-Standing :
      {now now' : Stream} {hashes pending : List BlockHash}
      → Standing next mpsc now' (sending hashes now) pending
      → (now' ≡ now) × (pending ≡ hashes)
  sending-Standing at_send = (refl, refl)

  poll-Kept :
      (now : Stream) (chan : Chan) (received : List BlockHash) {steps : ℕ}
      → MpscLaws mpsc buffer
      → Kept next mpsc buffer stream steps
          (record { task = polling now; chan = chan; received = received })
      → After (suc steps) received (some (poll next mpsc now chan))
  unfolding poll
  poll-Kept now chan received {steps} laws kept =
      let (here_now, idle) = polling-Standing kept.standing in
      elim (Option-cases (next now).0) [
        | inl e ↦
            rw (e, poll)
              (let (queue, sender, receiver) = laws.sender_dropped chan in
                record {
                  polls = kept.polls;
                  hashes = kept.hashes;
                  now = now;
                  pending = [];
                  given = rw here_now at kept.given;
                  standing = at_end e;
                  in_order = rw (receiver, queue) (rw idle at kept.in_order);
                  in_bounds = rw (receiver, queue) kept.in_bounds;
                  received_first = kept.received_first;
                  sender = sender;
                  count = rw (receiver, queue) (omega (arith, kept.count));
                })
        | inr (more, e) ↦
            rw (e, poll)
              (record {
                polls = suc kept.polls;
                hashes = kept.hashes ++ more;
                now = (next now).1;
                pending = more;
                given = polled (rw here_now at kept.given) e;
                standing = at_send;
                in_order = λ alive.
                    ap (λ (xs : List BlockHash). xs ++ more) (rw idle at kept.in_order alive)
                    ∙ simp (append_assoc, append-nil) refl;
                in_bounds = kept.in_bounds;
                received_first =
                    let (missing, whole) = kept.received_first in
                    (
                      missing ++ more,
                      ap (λ (xs : List BlockHash). xs ++ more) whole
                          ∙ append_assoc received missing more,
                    );
                sender = kept.sender;
                count = omega (arith, kept.count, length-append kept.hashes more);
              })
      ]

  sent-Kept :
      (hash : BlockHash) (hashes : List BlockHash) (now : Stream) (chan chan' : Chan)
      (received : List BlockHash) {steps : ℕ}
      → SendLaw mpsc buffer hash chan (sent chan')
      → Kept next mpsc buffer stream steps
          (record { task = sending (hash ∷ hashes) now; chan = chan; received = received })
      → After (suc steps) received (some (sending hashes now, chan'))
  sent-Kept hash hashes now chan chan' received {steps} (alive, room, requeued) kept =
      let (here_now, held) = sending-Standing kept.standing in
      record {
        polls = kept.polls;
        hashes = kept.hashes;
        now = now;
        pending = hashes;
        given = rw here_now at kept.given;
        standing = at_send;
        in_order =
            λ _. rw requeued.queue ((rw held at kept.in_order alive) ∙ simp append_assoc refl);
        in_bounds =
            λ _. rw requeued.queue (omega (arith, room, length-append (queued chan) (hash ∷ [])));
        received_first = kept.received_first;
        sender = requeued.sender ∙ kept.sender;
        count =
            rw (requeued.receiver, requeued.queue, alive)
              (omega (arith, rw alive at kept.count, length-append (queued chan) (hash ∷ [])));
      }

  back-Kept :
      (hashes : List BlockHash) (now : Stream) (chan : Chan) (received : List BlockHash) {steps : ℕ}
      → (hashes ≡ []) ⊎ (has_receiver chan ≡ false)
      → Kept next mpsc buffer stream steps
          (record { task = sending hashes now; chan = chan; received = received })
      → After (suc steps) received (some (polling now, chan))
  back-Kept hashes now chan received {steps} done kept =
      let (here_now, held) = sending-Standing kept.standing in
      record {
        polls = kept.polls;
        hashes = kept.hashes;
        now = now;
        pending = [];
        given = rw here_now at kept.given;
        standing = at_poll;
        in_order = λ alive.
            (rw held at kept.in_order alive)
            ∙ ap (λ (xs : List BlockHash). received ++ (queued chan ++ xs))
                (nothing_held alive done);
        in_bounds = kept.in_bounds;
        received_first = kept.received_first;
        sender = kept.sender;
        count = omega (arith, kept.count);
      }
    where
      nothing_held :
          has_receiver chan ≡ true → (hashes ≡ []) ⊎ (has_receiver chan ≡ false) → hashes ≡ []
      nothing_held alive (inl e) = e
      nothing_held alive (inr gone) = cc

  pub advance-Kept :
      (task : Task Stream BlockHash) (chan : Chan) (received : List BlockHash) {steps : ℕ}
      → MpscLaws mpsc buffer
      → Kept next mpsc buffer stream steps
          (record { task = task; chan = chan; received = received })
      → After (suc steps) received (advance next mpsc task chan)
  unfolding advance
  advance-Kept (polling now) chan received laws kept = poll-Kept now chan received laws kept
  advance-Kept (sending [] now) chan received laws kept =
      back-Kept [] now chan received (inl refl) kept
  advance-Kept (sending (hash ∷ hashes) now) chan received {steps} laws kept =
      go (send hash chan) (laws.sends hash chan)
    where
      go :
          (attempt : Sent Chan)
          → SendLaw mpsc buffer hash chan attempt
          → After (suc steps) received (elim attempt [
            | sent chan' ↦ some (sending hashes now, chan')
            | full ↦ none
            | closed ↦ some (polling now, chan)
          ])
      go (sent chan') law = sent-Kept hash hashes now chan chan' received law kept
      go full law = tt
      go closed law = back-Kept (hash ∷ hashes) now chan received (inr law) kept
  advance-Kept stopped chan received laws kept = tt

  pub taken-Kept :
      (task : Task Stream BlockHash) (hash : BlockHash) (chan chan' : Chan)
      (received : List BlockHash) {steps : ℕ}
      → has_receiver chan ≡ true
      → RecvLaw mpsc chan (message hash chan')
      → Kept next mpsc buffer stream steps
          (record { task = task; chan = chan; received = received })
      → Kept next mpsc buffer stream
          (suc steps)
          (record { task = task; chan = chan'; received = received ++ hash ∷ [] })
  taken-Kept task hash chan chan' received alive (rest, queue, requeued) kept =
      let whole : kept.hashes ≡ (received ++ hash ∷ []) ++ (rest ++ kept.pending) =
        (rw queue at kept.in_order alive) ∙ simp append_assoc refl in
      record {
        polls = kept.polls;
        hashes = kept.hashes;
        now = kept.now;
        pending = kept.pending;
        given = kept.given;
        standing = kept.standing;
        in_order = λ _. rw requeued.queue whole;
        in_bounds = λ _. rw requeued.queue (omega (arith, rw queue at kept.in_bounds alive));
        received_first = (rest ++ kept.pending, whole);
        sender = requeued.sender ∙ kept.sender;
        count =
            rw (requeued.receiver, requeued.queue, alive)
              (omega (arith, rw (alive, queue) at kept.count));
      }
