-- ===== src/Subscription/Poller/Channel.antt =====
-- tokio's bounded `mpsc` channel, that `From<PollerBuilder>` of src/robust_provider/subscription.rs
-- creates and splits between its task and the subscription: a parameter, with what tokio documents.
use robust_provider.Prelude.{ℕ, ◌≤◌, ◌<◌, ◌≡◌, Bool, true, false, List, [], ◌∷◌, ◌++◌, length}

-- What an attempt to send comes to. `send(hash).await` makes another one as long as it is `full`;
-- `closed` is its `Err`.
pub data Sent (Chan : Type 0) : Type 0 where
  sent : Chan → Sent Chan
  full : Sent Chan
  closed : Sent Chan

-- What an attempt to receive comes to. `recv().await` makes another one as long as it is `empty`;
-- the other two are its `Some(hash)` and its `None`.
pub data Taken (BlockHash Chan : Type 0) : Type 0 where
  message : BlockHash → Chan → Taken BlockHash Chan
  empty : Taken BlockHash Chan
  ended : Taken BlockHash Chan

pub record Channel (BlockHash : Type 0) : Type 1 where
  pub Chan : Type 0
  pub channel : (buffer : ℕ) → Chan
  pub send : BlockHash → Chan → Sent Chan
  pub recv : Chan → Taken BlockHash Chan
  pub drop_sender : Chan → Chan
  pub drop_receiver : Chan → Chan
  -- The channel's state, as the documentation speaks of it.
  pub queued : Chan → List BlockHash
  pub has_sender : Chan → Bool
  pub has_receiver : Chan → Bool

module _ {BlockHash : Type 0} (mpsc : Channel BlockHash) where
  open mpsc use {Chan, queued, has_sender, has_receiver}

  -- The channel `after` differs from `before` in what is queued only.
  pub record Requeued (before after : Chan) (hashes : List BlockHash) : Type 0 where
    pub queue : queued after ≡ hashes
    pub sender : has_sender after ≡ has_sender before
    pub receiver : has_receiver after ≡ has_receiver before

  -- A send is refused if and only if the receiver is gone, and waits if and only if the buffer has
  -- no room; otherwise the message is put at the end of the queue.
  abbrev pub SendLaw : ℕ → BlockHash → Chan → Sent Chan → Type 0
  SendLaw buffer hash chan (sent chan') =
      (has_receiver chan ≡ true)
      × (length (queued chan) < buffer)
      × Requeued chan chan' (queued chan ++ hash ∷ [])
  SendLaw buffer hash chan full = (has_receiver chan ≡ true) × (buffer ≤ length (queued chan))
  SendLaw buffer hash chan closed = has_receiver chan ≡ false

  -- A receive takes the first message of the queue; when there is none it waits as long as there is
  -- a sender, and reports the end afterwards.
  abbrev pub RecvLaw : Chan → Taken BlockHash Chan → Type 0
  RecvLaw chan (message hash chan') =
      (rest : List BlockHash) × (queued chan ≡ hash ∷ rest) × Requeued chan chan' rest
  RecvLaw chan empty = (queued chan ≡ []) × (has_sender chan ≡ true)
  RecvLaw chan ended = (queued chan ≡ []) × (has_sender chan ≡ false)

-- The documented behaviour of a channel whose buffer has room for so many messages.
pub record MpscLaws {BlockHash : Type 0} (mpsc : Channel BlockHash) (buffer : ℕ) : Type 0 where
  pub fresh_queue : mpsc.queued (mpsc.channel buffer) ≡ []
  pub fresh_sender : mpsc.has_sender (mpsc.channel buffer) ≡ true
  pub fresh_receiver : mpsc.has_receiver (mpsc.channel buffer) ≡ true
  pub sends :
      (hash : BlockHash) (chan : mpsc.Chan) → SendLaw mpsc buffer hash chan (mpsc.send hash chan)
  pub receives : (chan : mpsc.Chan) → RecvLaw mpsc chan (mpsc.recv chan)
  pub sender_dropped :
      (chan : mpsc.Chan)
      → (mpsc.queued (mpsc.drop_sender chan) ≡ mpsc.queued chan)
        × (mpsc.has_sender (mpsc.drop_sender chan) ≡ false)
        × (mpsc.has_receiver (mpsc.drop_sender chan) ≡ mpsc.has_receiver chan)
  pub receiver_dropped :
      (chan : mpsc.Chan)
      → (mpsc.has_sender (mpsc.drop_receiver chan) ≡ mpsc.has_sender chan)
        × (mpsc.has_receiver (mpsc.drop_receiver chan) ≡ false)
