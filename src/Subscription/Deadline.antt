-- ===== src/Subscription/Deadline.antt =====
-- That `recv` of src/robust_provider/subscription.rs returns in time.
use robust_provider.Prelude.{ℕ, suc, ◌+◌, ◌*◌, ◌≤◌, ◌≡◌, ap, some, arith}
use robust_provider.Errors.{Error}
use robust_provider.Errors.Classify.{RetryHints}
use robust_provider.Runtime.{World, done, Result, Runtime, RuntimeLaws, ◌>>=◌}
use robust_provider.Runtime.Within.{Within, pure-Within, Within-mono, later-Within}
use robust_provider.Provider.{RobustProvider}
use robust_provider.Subscription.Connect.{Subscription}
use robust_provider.Subscription.Advance.{untried}
use robust_provider.Subscription.Progress.{PrimaryRefuses, recv-returns}
use robust_provider.Subscription.Recv.{returns, continues, Turn, receive, recv_round, recv}
use robust_provider.Subscription.Loop.{Received, recv-by_rounds}
use robust_provider.Subscription.Round.{EndsTurn-at, recv_round-ends}
use robust_provider.Subscription.SwitchTime.{wait, switch_share}
use robust_provider.Subscription.Timing.{receive_from-Within, react-Within}
use robust_provider.Subscription.Valid.{IsValid, recv_round-IsValid}
use robust_provider.Subscription.{Feed}

module _ {P T : Type 0} (feed : Feed P T) {rt : Runtime P} (laws : RuntimeLaws rt)
    (hints : RetryHints T) where
  -- A round waits twice at most, for a hash and for its block, and asks every provider once at most.
  abbrev pub round_limit : RobustProvider P → ℕ
  round_limit self =
      (wait feed laws hints self + wait feed laws hints self) + switch_share feed laws hints self

  recv_round-Within :
      (s : Subscription feed) (w : World P)
      → Within (round_limit s.robust_provider) w (recv_round feed rt hints s w)
  unfolding recv_round receive
  recv_round-Within s w =
      let (res, s₁, v, e, (b, same), _) = recv_round-ends feed laws hints s w in
      let (_, v', e', t) = receive_from-Within feed laws hints s.backend s w in
      let time : v ≡ v' = cc (e, e') in
      rw (e, ◌>>=◌)
        (later-Within
          (wait feed laws hints s.robust_provider + wait feed laws hints s.robust_provider)
          (switch_share feed laws hints s.robust_provider) w v _ (rw (← time) at t)
          (rw same (react-Within feed laws hints res (record s { backend = b }) v)))

  module _ (self : RobustProvider P) where
    recv-Within :
        (rounds : ℕ) (s : Subscription feed) (w : World P)
        → IsValid feed self s
        → Within (rounds * round_limit self) w (recv feed rt hints rounds s w)
    recv-Within =
        recv-by_rounds feed laws hints
          (λ rounds s w run. IsValid feed self s → Within (rounds * round_limit self) w run)
          (λ s w valid. pure-Within _ _ w)
          (λ rounds s s' w u result h valid.
            one_more rounds s w u (returns result s') _ h valid (pure-Within _ _ u))
          (λ rounds s s' w u rest h later valid. one_more rounds s w u (continues s') rest h valid (
            later
              (EndsTurn-at feed laws hints (recv_round-IsValid feed self laws hints s w valid) h)))
      where
        one_more :
            (rounds : ℕ) (s : Subscription feed) (w u : World P) (turn : Turn feed rt hints)
            (rest : Received feed laws hints)
            → recv_round feed rt hints s w ≡ done turn u
            → IsValid feed self s
            → Within (rounds * round_limit self) u rest
            → Within (suc rounds * round_limit self) w rest
        one_more rounds s w u turn rest h valid later =
            let (_, u', h', t) = recv_round-Within s w in
            let time : u ≡ u' = cc (h, h') in
            let bound : u.now ≤ w.now + round_limit s.robust_provider =
              omega (arith, t, ap (λ (x : World P). x.now) time) in
            Within-mono (round_limit self + rounds * round_limit self)
              (suc rounds * round_limit self) w _ (grind arith)
              (later-Within (round_limit self) (rounds * round_limit self) w u _
                (omega (arith, bound, ap round_limit valid.same_provider)) later)

    -- While the primary provider refuses to take the subscription back, `recv` returns a result in
    -- bounded time, whatever the nodes and channels do: a round for the present provider and one for
    -- each fallback after it, each with two subscription timeouts and a call timeout for every
    -- provider, but for the lateness of timers.
    pub recv-in_time :
        (s : Subscription feed) (w : World P)
        → PrimaryRefuses feed laws hints self
        → IsValid feed self s
        → (result : Result feed.Header (Error T)) × (s' : Subscription feed) × (u : World P) × (recv
              feed rt hints
              (suc (untried feed rt hints self s))
              s
              w
            ≡ done (some result, s') u)
          × (u.now ≤ w.now + suc (untried feed rt hints self s) * round_limit self)
    recv-in_time s w refuses valid =
        let (result, s', u, e) =
          recv-returns feed laws hints self (suc (untried feed rt hints self s)) s w refuses valid
            (omega arith) in
        let (_, v, e', t) = recv-Within (suc (untried feed rt hints self s)) s w valid in
        let time : u ≡ v = cc (e, e') in
        (result, s', u, e, omega (arith, t, ap (λ (x : World P). x.now) time))
