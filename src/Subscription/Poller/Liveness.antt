-- ===== src/Subscription/Poller/Liveness.antt =====
-- The polling task of src/robust_provider/subscription.rs and the subscription never wait for each
-- other for good, and come to an end with the stream.
use robust_provider.Prelude.{
  ℕ, ◌+◌, ◌*◌, ◌≤◌, ◌<◌, ◌≡◌, refl, sym, ap, ◌∙◌, arith, inl, inr, ◌⊎◌, Bool-cases, Bool, true,
  false, Option, some, List, [], ◌∷◌, ◌++◌, append-nil, length, length-append,
}
use robust_provider.Subscription.Poller.Channel.{
  Channel, MpscLaws, SendLaw, RecvLaw, Sent, sent, full, closed, Taken, message, empty, ended,
}
use robust_provider.Subscription.Poller.Invariant.{Reach-Kept, recv-ended}
use robust_provider.Subscription.Poller.Kept.{Kept, is_over, is_gone}
use robust_provider.Subscription.Poller.Polls.{Gives, Gives-rest, Gives-over}
use robust_provider.Subscription.Poller.Task.{
  Task, polling, sending, stopped, System, spawned, poll, advance, Move, runs, takes, Reach,
}

module _ {BlockHash Stream : Type 0} (next : Stream → Option (List BlockHash) × Stream)
    (mpsc : Channel BlockHash) where
  open mpsc use {Chan, send, recv, queued, has_sender, has_receiver}

  -- The task is over, and the subscription has either left or reads the end of the channel.
  abbrev pub Finished : System next mpsc → Type 0
  Finished s = (s.task ≡ stopped) × ((has_receiver s.chan ≡ false) ⊎ (recv s.chan ≡ ended))

  abbrev pub CanMove : System next mpsc → Type 0
  CanMove s = (t : System next mpsc) × Move next mpsc s t

  runs-CanMove :
      (s : System next mpsc) {task : Task Stream BlockHash} {chan : Chan}
      → advance next mpsc s.task s.chan ≡ some (task, chan)
      → CanMove s
  runs-CanMove s e = (_, runs e)

  -- A receiver finds a message, unless there is none.
  receives-CanMove :
      (s : System next mpsc) (taken : Taken BlockHash Chan)
      → RecvLaw mpsc s.chan taken
      → recv s.chan ≡ taken
      → has_receiver s.chan ≡ true
      → CanMove s ⊎ ((queued s.chan ≡ []) × ((has_sender s.chan ≡ true) ⊎ (recv s.chan ≡ ended)))
  receives-CanMove s (message hash chan') law e alive = inl (_, takes alive e)
  receives-CanMove s empty (none_queued, unsent) e alive = inr (none_queued, inl unsent)
  receives-CanMove s ended (none_queued, dropped) e alive = inr (none_queued, inr e)

  -- A full channel has a message to take.
  full-CanMove :
      (s : System next mpsc) {buffer : ℕ}
      → MpscLaws mpsc buffer
      → 0 < buffer
      → has_receiver s.chan ≡ true
      → buffer ≤ length (queued s.chan)
      → CanMove s
  full-CanMove s laws room alive crowded =
      elim (receives-CanMove s (recv s.chan) (laws.receives s.chan) refl alive) [
        | inl move ↦ move
        | inr (none_queued, _) ↦ absurd (omega (arith, rw none_queued at crowded))
      ]

  -- A task at a hash sends it, leaves its batch, or waits for the receiver.
  sending-CanMove :
      (s : System next mpsc) {buffer : ℕ} (hash : BlockHash) (hashes : List BlockHash)
      (now : Stream)
      → MpscLaws mpsc buffer
      → 0 < buffer
      → s.task ≡ sending (hash ∷ hashes) now
      → CanMove s
  unfolding advance
  sending-CanMove s {buffer} hash hashes now laws room at_hash =
      go (send hash s.chan) (laws.sends hash s.chan) refl
    where
      go :
          (attempt : Sent Chan)
          → SendLaw mpsc buffer hash s.chan attempt
          → send hash s.chan ≡ attempt
          → CanMove s
      go (sent chan') law e =
          runs-CanMove s {task = sending hashes now} {chan = chan'} (rw (at_hash, advance, e) refl)
      go full (alive, crowded) e = full-CanMove s laws room alive crowded
      go closed law e =
          runs-CanMove s {task = polling now} {chan = s.chan} (rw (at_hash, advance, e) refl)

  -- Whatever the task's place, either side can move or both are through.
  task-CanMove :
      (s : System next mpsc) {buffer steps : ℕ} {stream : Stream} (task : Task Stream BlockHash)
      → MpscLaws mpsc buffer
      → 0 < buffer
      → Kept next mpsc buffer stream steps s
      → s.task ≡ task
      → CanMove s ⊎ Finished s
  unfolding advance
  task-CanMove s (polling now) laws room kept at = inl (
      runs-CanMove s {task = (poll next mpsc now s.chan).0} {chan = (poll next mpsc now s.chan).1}
        (rw (at, advance) refl))
  task-CanMove s (sending [] now) laws room kept at =
      inl (runs-CanMove s {task = polling now} {chan = s.chan} (rw (at, advance) refl))
  task-CanMove s (sending (hash ∷ hashes) now) laws room kept at =
      inl (sending-CanMove s hash hashes now laws room at)
  task-CanMove s stopped laws room kept at = elim (Bool-cases (has_receiver s.chan)) [
    | inr gone ↦ inr (at, inl gone)
    | inl alive ↦ elim (receives-CanMove s (recv s.chan) (laws.receives s.chan) refl alive) [
      | inl move ↦ inl move
      | inr (_, inr e) ↦ inr (at, inr e)
      | inr (_, inl unsent) ↦ absurd (clash (sym unsent ∙ rw at at kept.sender))
    ]
  ]
    where
      clash : ¬ (true ≡ false)
      clash e = cc

module _ {BlockHash Stream : Type 0} {next : Stream → Option (List BlockHash) × Stream}
    {mpsc : Channel BlockHash} {buffer : ℕ} where
  open mpsc use {has_receiver}

  few-steps :
      {stream : Stream} {s : System next mpsc} {steps polls : ℕ} {all : List BlockHash}
      → Gives next stream polls all
      → Kept next mpsc buffer stream steps s
      → steps ≤ 2 * polls + 2 * length all + 2
  few-steps {s} {all = all} given kept =
      let (left, rest, _, polls, whole) = Gives-rest next kept.given given in
      omega (
        arith,
        kept.count,
        over-le s.task,
        gone-le (has_receiver s.chan),
        ap length whole,
        length-append kept.hashes rest,
      )
    where
      over-le : (task : Task Stream BlockHash) → is_over task ≤ 1
      over-le (polling now) = omega arith
      over-le (sending hashes now) = omega arith
      over-le stopped = omega arith

      gone-le : (alive : Bool) → is_gone alive ≤ 1
      gone-le true = omega arith
      gone-le false = omega arith

module _ {BlockHash Stream : Type 0} {next : Stream → Option (List BlockHash) × Stream}
    {mpsc : Channel BlockHash} {buffer : ℕ} (laws : MpscLaws mpsc buffer) (room : 0 < buffer)
    (stream : Stream) where
  open mpsc use {recv, has_receiver}

  -- In every interleaving the task or the subscription can move, with no help from the other, unless
  -- the task is over and the subscription has left or reads the channel's end.
  pub Reach-moves :
      {s : System next mpsc} {steps : ℕ}
      → Reach next mpsc (spawned next mpsc buffer stream) steps s
      → CanMove next mpsc s ⊎ Finished next mpsc s
  Reach-moves {s} reached = task-CanMove next mpsc s s.task laws room (Reach-Kept laws reached) refl

  -- With a stream that ends, and room for a message in the channel, no interleaving is longer than
  -- two steps for each poll and each hash and two more. One that cannot go on has delivered every
  -- hash of the stream, once and in order, and then the end, unless the subscription has left.
  pub Reach-delivers :
      {s : System next mpsc} {steps polls : ℕ} {all : List BlockHash}
      → Gives next stream polls all
      → Reach next mpsc (spawned next mpsc buffer stream) steps s
      → (steps ≤ 2 * polls + 2 * length all + 2)
        × (CanMove next mpsc s
            ⊎ (has_receiver s.chan ≡ false)
            ⊎ ((s.received ≡ all) × (recv s.chan ≡ ended)))
  Reach-delivers {s} {all = all} given reached =
      let kept = Reach-Kept laws reached in
      (
        few-steps given kept,
        elim (Reach-moves reached) [
          | inl move ↦ inl move
          | inr (_, inl gone) ↦ inr (inl gone)
          | inr (_, inr e) ↦ elim (Bool-cases (has_receiver s.chan)) [
            | inr gone ↦ inr (inl gone)
            | inl alive ↦
                let (polls, now, so_far, over, _) = recv-ended laws reached alive e in
                let (left, rest, after, _, whole) = Gives-rest next so_far given in
                inr (
                  inr (
                    sym (
                        whole
                        ∙ (ap (◌++◌ s.received) (Gives-over next over after)
                            ∙ append-nil s.received)),
                    e,
                  ))
          ]
        ],
      )
