-- ===== src/Subscription/Arrival.antt =====
-- What the wait for a message in `recv` of src/robust_provider/subscription.rs makes of what the
-- channel does.
use robust_provider.Prelude.{ℕ, ◌+◌, ◌<◌, ◌≤◌, ◌≡◌, refl, ap, Option, arith}
use robust_provider.Errors.{RecvError, Error}
use robust_provider.Errors.Classify.{RetryHints}
use robust_provider.Errors.Convert.{error_from_recv, error_from_elapsed}
use robust_provider.Runtime.{
  World, done, Answer, answers, silent, Result, ok, err, Runtime, RuntimeLaws, ◌>>=◌, await_answer,
}
use robust_provider.Runtime.Laws.{timeout-in_time, timeout-hangs}
use robust_provider.Subscription.Connect.{Backend, Subscription}
use robust_provider.Subscription.Recv.{from_web_socket, receive_from, receive}
use robust_provider.Subscription.{Feed, web_socket, http_polling}

module _ {P T : Type 0} (feed : Feed P T) {rt : Runtime P} (laws : RuntimeLaws rt)
    (hints : RetryHints T) where
  -- What the caller is told of a message of a WebSocket.
  abbrev pub told : Result feed.Header RecvError → Result feed.Header (Error T)
  told (ok header) = ok header
  told (err RecvError.closed) = err Error.closed
  told (err (RecvError.lagged count)) = err (Error.lagged count)

  from_web_socket-told :
      (s : Subscription feed) (m : Result feed.Header RecvError) (sub : feed.Sub)
      → from_web_socket feed rt hints s (ok (m, sub))
        ≡ (told m, record s { backend = web_socket sub })
  unfolding error_from_recv
  from_web_socket-told s (ok header) sub = refl
  from_web_socket-told s (err RecvError.closed) sub = refl
  from_web_socket-told s (err (RecvError.lagged count)) sub = refl

  answered :
      {A : Type 0} (answer : Answer A) (d : ℕ) (a : A) (w : World P)
      → answer ≡ answers d a
      → await_answer answer w ≡ done a (record w { now = w.now + d })
  answered answer d a w e = ap (λ (x : Answer _). await_answer x w) e

  -- A message that a WebSocket gives before the subscription timeout is what the wait comes to, when
  -- it has come: a header, `Closed` or `Lagged` with its count.
  pub receive-told :
      (s : Subscription feed) (sub sub' : feed.Sub) (m : Result feed.Header RecvError) (d : ℕ)
      (w : World P)
      → s.backend ≡ web_socket sub
      → feed.recv_header sub w ≡ answers d (m, sub')
      → d < s.robust_provider.subscription_timeout
      → receive feed rt hints s w
        ≡ done (told m, record s { backend = web_socket sub' }) (record w { now = w.now + d })
  unfolding receive
  receive-told s sub sub' m d w on a t = rw (on, timed, ◌>>=◌, from_web_socket-told s m sub') refl
    where
      timed :
          rt.timeout
            (Result feed.Header RecvError × feed.Sub)
            s.robust_provider.subscription_timeout
            (λ w. await_answer (feed.recv_header sub w) w)
            w
          ≡ done (ok (m, sub')) (record w { now = w.now + d })
      timed =
          timeout-in_time laws (Result feed.Header RecvError × feed.Sub)
            s.robust_provider.subscription_timeout (λ w. await_answer (feed.recv_header sub w) w) w
            (m, sub') (record w { now = w.now + d })
            (answered (feed.recv_header sub w) d (m, sub') w a) (omega arith)

  -- Nothing comes on either kind of channel.
  abbrev pub IsSilent : Backend feed → World P → Type 0
  IsSilent (web_socket sub) w = feed.recv_header sub w ≡ silent
  IsSilent (http_polling rx) w = feed.recv_hash rx w ≡ silent

  receive_from-timeout :
      (b : Backend feed) (s : Subscription feed) (w : World P)
      → IsSilent b w
      → (u : World P) × (receive_from feed rt hints b s w ≡ done (err Error.timeout, s) u)
        × (w.now + s.robust_provider.subscription_timeout ≤ u.now)
        × (u.now ≤ w.now + s.robust_provider.subscription_timeout + rt.granularity)
  unfolding error_from_elapsed
  receive_from-timeout (web_socket sub) s w q =
      let (u, e, lo, hi) =
        timeout-hangs laws (Result feed.Header RecvError × feed.Sub)
          s.robust_provider.subscription_timeout (λ w. await_answer (feed.recv_header sub w) w) w w
          (ap (λ (x : Answer (Result feed.Header RecvError × feed.Sub)). await_answer x w) q) in
      (u, rw (e, ◌>>=◌) refl, lo, hi)
  receive_from-timeout (http_polling rx) s w q =
      let (u, e, lo, hi) =
        timeout-hangs laws (Option feed.BlockHash × feed.Receiver)
          s.robust_provider.subscription_timeout (λ w. await_answer (feed.recv_hash rx w) w) w w
          (ap (λ (x : Answer (Option feed.BlockHash × feed.Receiver)). await_answer x w) q) in
      (u, rw (e, ◌>>=◌) refl, lo, hi)

  -- A channel of either kind that stays silent makes the wait end with `Timeout` when the
  -- subscription timeout has passed, but for the lateness of a timer, and is left as it was.
  pub receive-timeout :
      (s : Subscription feed) (w : World P)
      → IsSilent s.backend w
      → (u : World P) × (receive feed rt hints s w ≡ done (err Error.timeout, s) u)
        × (w.now + s.robust_provider.subscription_timeout ≤ u.now)
        × (u.now ≤ w.now + s.robust_provider.subscription_timeout + rt.granularity)
  unfolding receive
  receive-timeout s w q = receive_from-timeout s.backend s w q
