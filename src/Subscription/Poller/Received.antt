-- ===== src/Subscription/Poller/Received.antt =====
-- What a subscription of src/robust_provider/subscription.rs receives from its polling task, wait by
-- wait.
use robust_provider.Prelude.{
  ℕ, suc, ◌≡◌, refl, sym, ap, ◌∙◌, subst, true, Option, none, some, List, [], ◌∷◌, ◌++◌, inl, inr,
}
use robust_provider.Errors.{Error, Elapsed}
use robust_provider.Errors.Classify.{RetryHints}
use robust_provider.Errors.Convert.{error_from_elapsed}
use robust_provider.Runtime.{
  World, Run, done, hangs, Answer, answers, silent, Result, ok, err, Runtime, RuntimeLaws, ◌>>=◌,
  await_answer,
}
use robust_provider.Runtime.Laws.{timeout-ok, timeout-done}
use robust_provider.Provider.{RobustProvider}
use robust_provider.Rpc.{robust_rpc_or}
use robust_provider.Rpc.Accounted.{AccountedOr}
use robust_provider.Rpc.Provenance.{ended-AccountedOr}
use robust_provider.Subscription.Connect.{Backend, Subscription}
use robust_provider.Subscription.Poller.Channel.{Channel, MpscLaws, RecvLaw}
use robust_provider.Subscription.Poller.Invariant.{recv-ended}
use robust_provider.Subscription.Poller.Joined.{
  TaskRuns-Reach, Behind, WaitLaw, Joins, Holds, Tells,
}
use robust_provider.Subscription.Poller.Task.{System, spawned, takes, moves, Reach, later}
use robust_provider.Subscription.Recv.{
  Received, block_header, from_http_polling, receive_from, receive,
}
use robust_provider.Subscription.{Feed, http_polling}

module _ {P T : Type 0} {feed : Feed P T} {rt : Runtime P} (laws : RuntimeLaws rt)
    (hints : RetryHints T) {Stream : Type 0} {next : Stream → Option (List feed.BlockHash) × Stream}
    {mpsc : Channel feed.BlockHash} {buffer : ℕ} (mpsc_laws : MpscLaws mpsc buffer)
    (joins : Joins feed next mpsc) (stream : Stream) where
  -- The system goes on to a state whose channel the subscription holds, and the outcome tells how.
  abbrev Goes : RobustProvider P → System next mpsc → Run P (Received feed rt hints) → Type 0
  Goes self s (hangs u) = Unit
  Goes self s (done (res, sub) u) =
      (steps : ℕ) × (t : System next mpsc) × Reach next mpsc (spawned next mpsc buffer stream) steps
        t
      × Holds feed rt hints next mpsc stream joins t sub
      × Tells feed rt hints next mpsc stream self res s t

  block_header-Tells :
      (self : RobustProvider P) (s t : System next mpsc) (hash : feed.BlockHash) (w v : World P)
      (r : Result (Result feed.Block (Error T)) Elapsed)
      → t.received ≡ s.received ++ hash ∷ []
      → rt.timeout
          (Result feed.Block (Error T))
          self.subscription_timeout
          (robust_rpc_or rt hints self Error.block_not_found (feed.get_block_by_hash hash))
          w
        ≡ done r v
      → Tells feed rt hints next mpsc stream self (block_header feed rt hints r) s t
  unfolding error_from_elapsed
  block_header-Tells self s t hash w v (ok (ok block)) came h = (
    hash,
    came,
    (
      block,
      w,
      v,
      timeout-ok laws (Result feed.Block (Error T)) self.subscription_timeout _ w v (ok block) h,
      refl,
    ),
  )
  block_header-Tells self s t hash w v (ok (err e)) came h =
      let told : AccountedOr rt hints self (feed.get_block_by_hash hash) (err e) v =
        ended-AccountedOr laws hints self (feed.get_block_by_hash hash) (err e) w v (
          timeout-ok laws (Result feed.Block (Error T)) self.subscription_timeout _ w v (err e)
            h) in
      unfetched e told
    where
      unfetched :
          (e : Error T)
          → AccountedOr rt hints self (feed.get_block_by_hash hash) (err e) v
          → Tells feed rt hints next mpsc stream self (err e) s t
      unfetched Error.closed told = absurd told
      unfetched Error.timeout told = inr (hash, came)
      unfetched (Error.rpc_error e) told = (hash, came, v, told)
      unfetched Error.block_not_found told = (hash, came, v, told)
      unfetched (Error.lagged count) told = told
  block_header-Tells self s t hash w v (err Elapsed.elapsed) came h = inr (hash, came)

  module _ (s : System next mpsc) {steps : ℕ}
      (reached : Reach next mpsc (spawned next mpsc buffer stream) steps s)
      (sub : Subscription feed) where
    abbrev self : RobustProvider P
    self = sub.robust_provider

    -- The channel has ended.
    none-Goes :
        (rx : feed.Receiver) (d : ℕ) (v : World P)
        → WaitLaw next mpsc joins.task_of joins.channel_of s (answers d (none, rx))
        → Goes self s (from_http_polling feed rt hints sub (ok (none, rx)) v)
    none-Goes rx d v (t, ran, alive, end, at) =
        let (steps', reached', same) = TaskRuns-Reach next mpsc reached ran in
        let (polls, now, given, over, _) = recv-ended mpsc_laws reached' alive end in
        (steps', t, reached', (rx, refl, at, alive), (same, (polls, now, given, over)))

    -- A hash has come, and its block is asked for.
    some-Goes :
        (rx : feed.Receiver) (hash : feed.BlockHash) (d : ℕ) (v : World P)
        → WaitLaw next mpsc joins.task_of joins.channel_of s (answers d (some hash, rx))
        → Goes self s (from_http_polling feed rt hints sub (ok (some hash, rx)) v)
    some-Goes rx hash d v (t, ran, alive, came, task) =
        let (steps', reached', same) = TaskRuns-Reach next mpsc reached ran in
        let law : RecvLaw mpsc t.chan (mpsc.recv t.chan) = mpsc_laws.receives t.chan in
        let (rest, queue, requeued) = rw came at law in
        let (r, u, e, _) =
          timeout-done laws (Result feed.Block (Error T)) self.subscription_timeout
            (robust_rpc_or rt hints self Error.block_not_found (feed.get_block_by_hash hash)) v in
        let t' : System next mpsc = record {
          task = t.task;
          chan = joins.channel_of rx;
          received = t.received ++ hash ∷ [];
        } in
        rw (e, ◌>>=◌)
          (
            suc steps',
            t',
            later reached' (moves (takes alive came)),
            (rx, refl, (task, refl), requeued.receiver ∙ alive),
            block_header-Tells self s t' hash v u r
                (ap (λ (xs : List feed.BlockHash). xs ++ hash ∷ []) same) e,
          )

    answer-Goes :
        (answer : Answer (Option feed.BlockHash × feed.Receiver)) (w v : World P)
        (found : Option feed.BlockHash) (rx : feed.Receiver)
        → WaitLaw next mpsc joins.task_of joins.channel_of s answer
        → await_answer answer w ≡ done (found, rx) v
        → Goes self s (from_http_polling feed rt hints sub (ok (found, rx)) v)
    answer-Goes (answers d (none, rx')) w v none rx law h =
        let same : rx' ≡ rx = cc in none-Goes rx d v (rw same at law)
    answer-Goes (answers d (some hash', rx')) w v (some hash) rx law h =
        let same : rx' ≡ rx = cc in
        let same_hash : hash' ≡ hash = cc in some-Goes rx hash d v (rw (same, same_hash) at law)
    answer-Goes (answers d (none, rx')) w v (some hash) rx law h = cc
    answer-Goes (answers d (some hash', rx')) w v none rx law h = cc
    answer-Goes silent w v found rx law h = cc

    wait-Goes :
        (m : Result (Option feed.BlockHash × feed.Receiver) Elapsed) (rx : feed.Receiver)
        (w v : World P)
        → sub.backend ≡ http_polling rx
        → Behind next mpsc joins.task_of joins.channel_of rx s
        → mpsc.has_receiver s.chan ≡ true
        → rt.timeout
            (Option feed.BlockHash × feed.Receiver)
            self.subscription_timeout
            (λ w. await_answer (feed.recv_hash rx w) w)
            w
          ≡ done m v
        → Goes self s (from_http_polling feed rt hints sub m v)
    unfolding error_from_elapsed
    wait-Goes (err Elapsed.elapsed) rx w v on at held e =
        (steps, s, reached, (rx, on, at, held), inl refl)
    wait-Goes (ok (found, rx')) rx w v on at held e =
        answer-Goes (feed.recv_hash rx w) w v found rx' (joins.waits s rx w at held) (
          timeout-ok laws (Option feed.BlockHash × feed.Receiver) self.subscription_timeout
            (λ w. await_answer (feed.recv_hash rx w) w) w v (found, rx') e)

    -- Whatever a wait of an HTTP subscription comes to, the subscription still holds the channel of
    -- its task, so that the next wait goes on from there. A header is that of the block of the hash
    -- that is received next; `Closed` comes only when the stream of the polls has ended and every
    -- hash that it gave has been received; `Timeout` passes one hash by at most; an RPC error or
    -- `BlockNotFound` passes exactly one, and comes from the answers to the call for its block; and
    -- `Lagged` never comes.
    pub receive-Tells :
        (sub' : Subscription feed) (res : Result feed.Header (Error T)) (w u : World P)
        → Holds feed rt hints next mpsc stream joins s sub
        → receive feed rt hints sub w ≡ done (res, sub') u
        → (steps' : ℕ) × (t : System next mpsc) × Reach next mpsc
            (spawned next mpsc buffer stream)
            steps'
            t
          × Holds feed rt hints next mpsc stream joins t sub'
          × Tells feed rt hints next mpsc stream self res s t
    unfolding receive
    receive-Tells sub' res w u (rx, on, at, held) h =
        let (m, v, e, _) =
          timeout-done laws (Option feed.BlockHash × feed.Receiver) self.subscription_timeout
            (λ w. await_answer (feed.recv_hash rx w) w) w in
        let from_here : Goes self s (receive_from feed rt hints (http_polling rx) sub w) =
          rw (e, ◌>>=◌) (wait-Goes m rx w v on at held e) in
        let run : receive_from feed rt hints (http_polling rx) sub w ≡ done (res, sub') u =
          sym (ap (λ (b : Backend feed). receive_from feed rt hints b sub w) on) ∙ h in
        subst (Goes self s) run from_here
