-- ===== src/Subscription/Timing.antt =====
-- How long a wait for a message, and what follows on it, takes in `recv` of
-- src/robust_provider/subscription.rs.
use robust_provider.Prelude.{Bool-cases, inl, inr, ◌+◌, refl, false, Option, none, some, arith}
use robust_provider.Errors.{RecvError, Error, FailoverError, Elapsed}
use robust_provider.Errors.Classify.{RetryHints}
use robust_provider.Errors.Convert.{failover_from_rpc}
use robust_provider.Runtime.{
  World, Result, ok, err, Runtime, RuntimeLaws, pure, ◌>>=◌, await_answer,
}
use robust_provider.Runtime.Within.{Within, pure-Within, Within-mono, bind-Within, timeout-Within}
use robust_provider.Rpc.{robust_rpc_or}
use robust_provider.Subscription.Connect.{Backend, Subscription, switch_to_fallback}
use robust_provider.Subscription.Recv.{
  returns, from_web_socket, from_http_polling, block_header, receive_from, switch, after_switch,
  back_to_primary, react,
}
use robust_provider.Subscription.{Feed, web_socket, http_polling, is_on_fallback}
use robust_provider.Subscription.SwitchTime.{
  share, wait, switch_share, try_reconnect-Within, switch_to_fallback-Within,
}

module _ {P T : Type 0} (feed : Feed P T) {rt : Runtime P} (laws : RuntimeLaws rt)
    (hints : RetryHints T) where
  from_http_polling-Within :
      (s : Subscription feed) (m : Result (Option feed.BlockHash × feed.Receiver) Elapsed)
      (u : World P)
      → Within (wait feed laws hints s.robust_provider) u (from_http_polling feed rt hints s m u)
  from_http_polling-Within s (ok (none, rx)) u = pure-Within _ _ u
  from_http_polling-Within s (err e) u = pure-Within _ _ u
  from_http_polling-Within s (ok (some hash, rx)) u =
      let (block, v, e, t) =
        timeout-Within laws (Result feed.Block (Error T)) s.robust_provider.subscription_timeout
          (robust_rpc_or rt hints s.robust_provider Error.block_not_found
            (feed.get_block_by_hash hash))
          u in
      (
        (block_header feed rt hints block, record s { backend = http_polling rx }),
        v,
        rw (e, ◌>>=◌) refl,
        t,
      )

  pub receive_from-Within :
      (b : Backend feed) (s : Subscription feed) (w : World P)
      → Within
          (wait feed laws hints s.robust_provider + wait feed laws hints s.robust_provider)
          w
          (receive_from feed rt hints b s w)
  receive_from-Within (web_socket sub) s w =
      bind-Within (wait feed laws hints s.robust_provider) (wait feed laws hints s.robust_provider)
        (rt.timeout (Result feed.Header RecvError × feed.Sub) s.robust_provider.subscription_timeout
          (λ w. await_answer (feed.recv_header sub w) w))
        (λ m. pure (from_web_socket feed rt hints s m)) w (timeout-Within laws _ _ _ w)
        (λ m u. pure-Within _ _ u)
  receive_from-Within (http_polling rx) s w =
      bind-Within (wait feed laws hints s.robust_provider) (wait feed laws hints s.robust_provider)
        (rt.timeout (Option feed.BlockHash × feed.Receiver) s.robust_provider.subscription_timeout
          (λ w. await_answer (feed.recv_hash rx w) w))
        (from_http_polling feed rt hints s) w (timeout-Within laws _ _ _ w)
        (from_http_polling-Within s)

  switch-Within :
      (e : FailoverError T) (s : Subscription feed) (w : World P)
      → Within (switch_share feed laws hints s.robust_provider) w (switch feed rt hints e s w)
  switch-Within e s w =
      Within-mono (switch_share feed laws hints s.robust_provider + 0)
        (switch_share feed laws hints s.robust_provider) w _ (omega arith)
        (bind-Within (switch_share feed laws hints s.robust_provider) 0
          (switch_to_fallback feed rt hints e s)
          (λ switched. pure (after_switch feed rt hints switched)) w
          (switch_to_fallback-Within feed laws hints e s w) (λ r u. pure-Within 0 _ u))

  back_to_primary-Within :
      (s : Subscription feed) (w : World P)
      → Within
          (switch_share feed laws hints s.robust_provider)
          w
          (back_to_primary feed rt hints s w)
  back_to_primary-Within s w = elim (Bool-cases (is_on_fallback s)) [
    | inl on ↦ rw on (
        Within-mono (share feed laws hints s.robust_provider)
          (switch_share feed laws hints s.robust_provider) w _ (omega arith)
          (try_reconnect-Within feed laws hints false s w))
    | inr off ↦ rw off (pure-Within (switch_share feed laws hints s.robust_provider) (false, s) w)
  ]

  pub react-Within :
      (res : Result feed.Header (Error T)) (s : Subscription feed) (w : World P)
      → Within (switch_share feed laws hints s.robust_provider) w (react feed rt hints (res, s) w)
  unfolding react
  react-Within (ok header) s w =
      Within-mono (switch_share feed laws hints s.robust_provider + 0)
        (switch_share feed laws hints s.robust_provider) w _ (omega arith)
        (bind-Within (switch_share feed laws hints s.robust_provider) 0
          (back_to_primary feed rt hints s) (λ attempt. pure (returns (ok header) attempt.1)) w
          (back_to_primary-Within s w) (λ r u. pure-Within 0 _ u))
  react-Within (err Error.timeout) s w = switch-Within FailoverError.timeout s w
  react-Within (err Error.closed) s w = switch-Within FailoverError.closed s w
  react-Within (err (Error.rpc_error e)) s w = switch-Within (failover_from_rpc e) s w
  react-Within (err (Error.lagged count)) s w = pure-Within _ _ w
  react-Within (err Error.block_not_found) s w = pure-Within _ _ w
