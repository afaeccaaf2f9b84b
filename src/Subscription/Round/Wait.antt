-- ===== src/Subscription/Round/Wait.antt =====
-- The wait of a round of `recv` of src/robust_provider/subscription.rs.
use robust_provider.Prelude.{◌≡◌, refl, Option, none, some}
use robust_provider.Errors.{RecvError, Error, Elapsed}
use robust_provider.Errors.Classify.{RetryHints}
use robust_provider.Runtime.{
  World, Run, done, Result, ok, err, Runtime, RuntimeLaws, ◌>>=◌, await_answer,
}
use robust_provider.Runtime.Laws.{timeout-done}
use robust_provider.Rpc.{robust_rpc_or}
use robust_provider.Subscription.Connect.{Backend, Subscription}
use robust_provider.Subscription.Recv.{
  Received, from_web_socket, from_http_polling, block_header, receive_from, receive,
}
use robust_provider.Subscription.{Feed, web_socket, http_polling}

module _ {P T : Type 0} (feed : Feed P T) {rt : Runtime P} (laws : RuntimeLaws rt)
    (hints : RetryHints T) where
  -- A wait changes nothing but the channel.
  abbrev pub OnlyBackend : Subscription feed → Subscription feed → Type 0
  OnlyBackend s s' = (b : Backend feed) × (s' ≡ record s { backend = b })

  abbrev pub EndsReceive : Subscription feed → Run P (Received feed rt hints) → Type 0
  EndsReceive s run =
      (res : Result feed.Header (Error T)) × (s' : Subscription feed) × (u : World P) × (run
        ≡ done (res, s') u)
      × OnlyBackend s s'

  from_web_socket-ends :
      (s : Subscription feed) (m : Result (Result feed.Header RecvError × feed.Sub) Elapsed)
      (u : World P)
      → EndsReceive s (done (from_web_socket feed rt hints s m) u)
  from_web_socket-ends s (ok (ok h, sub)) u =
      (ok h, record s { backend = web_socket sub }, u, refl, (web_socket sub, refl))
  from_web_socket-ends s (ok (err e, sub)) u =
      (_, record s { backend = web_socket sub }, u, refl, (web_socket sub, refl))
  from_web_socket-ends s (err e) u = (_, s, u, refl, (s.backend, refl))

  from_http_polling-ends :
      (s : Subscription feed) (m : Result (Option feed.BlockHash × feed.Receiver) Elapsed)
      (u : World P)
      → EndsReceive s (from_http_polling feed rt hints s m u)
  from_http_polling-ends s (ok (none, rx)) u =
      (_, record s { backend = http_polling rx }, u, refl, (http_polling rx, refl))
  from_http_polling-ends s (err e) u = (_, s, u, refl, (s.backend, refl))
  from_http_polling-ends s (ok (some hash, rx)) u =
      let (block, v, e, _) =
        timeout-done laws (Result feed.Block (Error T)) s.robust_provider.subscription_timeout
          (robust_rpc_or rt hints s.robust_provider Error.block_not_found
            (feed.get_block_by_hash hash))
          u in
      (
        block_header feed rt hints block,
        record s { backend = http_polling rx },
        v,
        rw (e, ◌>>=◌) refl,
        (http_polling rx, refl),
      )

  receive_from-ends :
      (b : Backend feed) (s : Subscription feed) (w : World P)
      → EndsReceive s (receive_from feed rt hints b s w)
  receive_from-ends (web_socket sub) s w =
      let (m, v, e, _) =
        timeout-done laws (Result feed.Header RecvError × feed.Sub)
          s.robust_provider.subscription_timeout (λ w. await_answer (feed.recv_header sub w) w) w in
      rw (e, ◌>>=◌) (from_web_socket-ends s m v)
  receive_from-ends (http_polling rx) s w =
      let (m, v, e, _) =
        timeout-done laws (Option feed.BlockHash × feed.Receiver)
          s.robust_provider.subscription_timeout (λ w. await_answer (feed.recv_hash rx w) w) w in
      rw (e, ◌>>=◌) (from_http_polling-ends s m v)

  -- The wait for a message always comes to an end.
  pub receive-ends :
      (s : Subscription feed) (w : World P) → EndsReceive s (receive feed rt hints s w)
  unfolding receive
  receive-ends s w = receive_from-ends s.backend s w
