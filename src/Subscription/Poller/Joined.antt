-- ===== src/Subscription/Poller/Joined.antt =====
-- The subscription of src/robust_provider/subscription.rs joined to its polling task: an HTTP
-- subscription whose receiver is the other end of the task's channel.
use robust_provider.Prelude.{ℕ, suc, ◌⊎◌, ◌++◌, [], ◌∷◌, ◌≡◌, refl, true, Option, none, some, List}
use robust_provider.Errors.{Error}
use robust_provider.Errors.Classify.{RetryHints}
use robust_provider.Runtime.{World, done, Answer, answers, silent, Result, ok, err, Runtime}
use robust_provider.Provider.{RobustProvider}
use robust_provider.Rpc.Accounted.{AccountedOr}
use robust_provider.Rpc.{robust_rpc_or}
use robust_provider.Subscription.Connect.{Subscription}
use robust_provider.Subscription.Poller.Channel.{Channel, message, ended}
use robust_provider.Subscription.Poller.Polls.{Polls}
use robust_provider.Subscription.Poller.Task.{
  Task, System, spawned, advance, runs, moves, Reach, later,
}
use robust_provider.Subscription.{Feed, http_polling}

module _ {BlockHash Stream : Type 0} (next : Stream → Option (List BlockHash) × Stream)
    (mpsc : Channel BlockHash) where
  -- The task alone runs.
  pub data TaskRuns (s : System next mpsc) : System next mpsc → Type 0 where
    stays : TaskRuns s s
    goes_on :
        {t : System next mpsc} {task : Task Stream BlockHash} {chan : mpsc.Chan}
        → TaskRuns s t
        → advance next mpsc t.task t.chan ≡ some (task, chan)
        → TaskRuns s (record { task = task; chan = chan; received = t.received })

  pub TaskRuns-Reach :
      {start s t : System next mpsc} {steps : ℕ}
      → Reach next mpsc start steps s
      → TaskRuns s t
      → (steps' : ℕ) × Reach next mpsc start steps' t × (t.received ≡ s.received)
  TaskRuns-Reach {steps = steps} reached stays = (steps, reached, refl)
  TaskRuns-Reach reached (goes_on before e) =
      let (steps', reached', same) = TaskRuns-Reach reached before in
      (suc steps', later reached' (moves (runs e)), same)

  -- A receiver is the end of a channel that the task behind it sends to.
  module _ {Receiver : Type 0} (task_of : Receiver → Task Stream BlockHash)
      (channel_of : Receiver → mpsc.Chan) where
    abbrev pub Behind : Receiver → System next mpsc → Type 0
    Behind rx s = (task_of rx ≡ s.task) × (channel_of rx ≡ s.chan)

    -- `recv().await` on the receiver of the system's channel: the task may run while it waits, and
    -- the receiver lives meanwhile, since the future borrows it.
    abbrev pub WaitLaw : System next mpsc → Answer (Option BlockHash × Receiver) → Type 0
    WaitLaw s (answers d (some hash, rx)) =
        (t : System next mpsc) × TaskRuns s t
        × (mpsc.has_receiver t.chan ≡ true)
        × (mpsc.recv t.chan ≡ message hash (channel_of rx))
        × (task_of rx ≡ t.task)
    WaitLaw s (answers d (none, rx)) =
        (t : System next mpsc) × TaskRuns s t
        × (mpsc.has_receiver t.chan ≡ true)
        × (mpsc.recv t.chan ≡ ended)
        × Behind rx t
    WaitLaw s silent = Unit

-- The receivers of a feed are those of the channel.
pub record Joins {P T : Type 0} (feed : Feed P T) {Stream : Type 0}
    (next : Stream → Option (List feed.BlockHash) × Stream) (mpsc : Channel feed.BlockHash)
    : Type 0 where
  pub task_of : feed.Receiver → Task Stream feed.BlockHash
  pub channel_of : feed.Receiver → mpsc.Chan
  pub waits :
      (s : System next mpsc) (rx : feed.Receiver) (w : World P)
      → Behind next mpsc task_of channel_of rx s
      → mpsc.has_receiver s.chan ≡ true
      → WaitLaw next mpsc task_of channel_of s (feed.recv_hash rx w)

-- What `into_receiver` leaves behind its receiver: the channel and the task of `From<PollerBuilder>`.
pub record Spawns {P T : Type 0} (feed : Feed P T) {Stream : Type 0}
    (next : Stream → Option (List feed.BlockHash) × Stream) (mpsc : Channel feed.BlockHash)
    (joins : Joins feed next mpsc) : Type 0 where
  -- `value.channel_size()` and `value.into_stream()`.
  pub channel_size : feed.PollerBuilder → ℕ
  pub into_stream : feed.PollerBuilder → Stream
  pub sized :
      (size : ℕ) (value : feed.PollerBuilder)
      → channel_size (feed.with_channel_size size value) ≡ size
  pub spawns :
      (value : feed.PollerBuilder)
      → Behind next mpsc joins.task_of joins.channel_of
          (feed.into_receiver value)
          (spawned next mpsc (channel_size value) (into_stream value))

module _ {P T : Type 0} (feed : Feed P T) (rt : Runtime P) (hints : RetryHints T) where
  -- The block of the hash that has come.
  abbrev pub Fetched : RobustProvider P → feed.BlockHash → feed.Header → Type 0
  Fetched self hash header =
      (block : feed.Block) × (w v : World P) × (robust_rpc_or rt hints self Error.block_not_found
          (feed.get_block_by_hash hash) w
        ≡ done (ok block) v)
      × (header ≡ feed.header block)

module _ {P T : Type 0} (feed : Feed P T) (rt : Runtime P) (hints : RetryHints T) {Stream : Type 0}
    (next : Stream → Option (List feed.BlockHash) × Stream) (mpsc : Channel feed.BlockHash)
    (stream : Stream) where
  -- The subscription holds the receiving end of the system's channel.
  abbrev pub Holds : Joins feed next mpsc → System next mpsc → Subscription feed → Type 0
  Holds joins s sub =
      (rx : feed.Receiver) × (sub.backend ≡ http_polling rx)
      × Behind next mpsc joins.task_of joins.channel_of rx s
      × (mpsc.has_receiver s.chan ≡ true)

  -- A hash has come of which the block did not.
  abbrev pub Passed : System next mpsc → System next mpsc → Type 0
  Passed s t = (hash : feed.BlockHash) × (t.received ≡ s.received ++ hash ∷ [])

  abbrev pub Missed : System next mpsc → System next mpsc → Type 0
  Missed s t = (t.received ≡ s.received) ⊎ Passed s t

  -- A hash has come, and the answers to the call for its block account for the error.
  abbrev pub Unfetched : RobustProvider P → Error T → System next mpsc → System next mpsc → Type 0
  Unfetched self e s t =
      (hash : feed.BlockHash) × (t.received ≡ s.received ++ hash ∷ [])
      × (u : World P) × AccountedOr rt hints self (feed.get_block_by_hash hash) (err e) u

  -- All that the stream will ever give has come.
  abbrev pub AllCame : System next mpsc → Type 0
  AllCame t =
      (polls : ℕ) × (now : Stream) × Polls next stream polls t.received now × ((next now).0 ≡ none)

  -- What the outcome of a wait on the channel tells of the hashes.
  abbrev pub Tells :
      RobustProvider P → Result feed.Header (Error T) → System next mpsc → System next mpsc → Type 0
  Tells self (ok header) s t =
      (hash : feed.BlockHash) × (t.received ≡ s.received ++ hash ∷ [])
      × Fetched feed rt hints self hash header
  Tells self (err Error.closed) s t = (t.received ≡ s.received) × AllCame t
  Tells self (err Error.timeout) s t = Missed s t
  Tells self (err (Error.rpc_error e)) s t = Unfetched self (Error.rpc_error e) s t
  Tells self (err Error.block_not_found) s t = Unfetched self Error.block_not_found s t
  Tells self (err (Error.lagged count)) s t = ⊥
