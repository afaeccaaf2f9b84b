-- ===== src/Subscription/Closed.antt =====
-- When `recv` of src/robust_provider/subscription.rs reports `Closed`.
use robust_provider.Prelude.{ℕ, ◌≡◌, refl, sym, ap, ◌∙◌, none, some}
use robust_provider.Errors.{Error, FailoverError}
use robust_provider.Errors.Classify.{RetryHints}
use robust_provider.Errors.Convert.{error_from_failover}
use robust_provider.Errors.Surface.{error_from_failover-closed}
use robust_provider.Runtime.{World, done, Result, ok, err, Runtime, RuntimeLaws}
use robust_provider.Provider.Failover.{AllFail}
use robust_provider.Subscription.Connect.{Subscription, connect}
use robust_provider.Subscription.Recv.{returns, Turn, after_switch, receive, recv_round, recv}
use robust_provider.Subscription.Loop.{
  Rounds, at_call, goes_on, Received, recv-by_rounds, same-Returned, out-ne-Returned,
}
use robust_provider.Subscription.Round.{
  EndsTurnIn-at, cause, Reacted, Turned-after_switch, delivered, passed_on, switched,
  recv_round-ends,
}
use robust_provider.Subscription.Switch.{
  Switched, to_primary, to_fallback, none_left, Leaves, later_fallbacks,
}
use robust_provider.Subscription.{Feed}

module _ {P T : Type 0} (feed : Feed P T) {rt : Runtime P} (laws : RuntimeLaws rt)
    (hints : RetryHints T) where
  -- After the channel was found closed: the primary provider, asked first if the subscription was on
  -- a fallback, and then every later fallback refused the subscription, up to the world `u`.
  abbrev pub Refused : Subscription feed → World P → Subscription feed → World P → Type 0
  Refused s v s' u =
      (x : World P) × (last : ℕ) × (d : FailoverError T) × Leaves feed laws hints s v x last
      × AllFail rt hints s.robust_provider (connect feed s.robust_provider)
          (later_fallbacks feed laws hints s) x FailoverError.closed u d
      × (s' ≡ record s { last_reconnect_attempt = some last })

  -- So a call from `s` and `w` leaves the subscription, after the rounds that went on.
  abbrev pub Abandoned : Subscription feed → World P → Subscription feed → World P → Type 0
  Abandoned s w s' u =
      (s₀ s₁ : Subscription feed) × (w₀ v : World P) × Rounds feed rt hints s w s₀ w₀
      × (receive feed rt hints s₀ w₀ ≡ done (err Error.closed, s₁) v)
      × Refused s₁ v s' u

  cause-closed : (e : Error T) → cause e ≡ some FailoverError.closed → e ≡ Error.closed
  cause-closed Error.closed h = refl
  cause-closed Error.timeout h = cc
  cause-closed (Error.rpc_error e) h = cc
  cause-closed Error.block_not_found h = cc
  cause-closed (Error.lagged n) h = cc

  closes :
      (r : Result (Unit {0}) (Error T)) (s s'' : Subscription feed)
      → after_switch feed rt hints (r, s) ≡ returns (err Error.closed) s''
      → (r ≡ err Error.closed) × (s ≡ s'')
  closes (ok _) s s'' h = cc
  closes (err e) s s'' h = (cc, cc)

  ok-ne-closed : {r : Result (Unit {0}) (Error T)} → r ≡ ok tt → ¬ (r ≡ err Error.closed)
  ok-ne-closed h k = cc

  failed-closed :
      {r : Result (Unit {0}) (Error T)} (e : Error T)
      → r ≡ err e
      → r ≡ err Error.closed
      → e ≡ Error.closed
  failed-closed e h k = cc

  Switched-Refused :
      (d : FailoverError T) (s s' s'' : Subscription feed) (r : Result (Unit {0}) (Error T))
      {v u : World P}
      → Switched feed laws hints d s v r s' u
      → after_switch feed rt hints (r, s') ≡ returns (err Error.closed) s''
      → (d ≡ FailoverError.closed) × Refused s v s'' u
  Switched-Refused d s s' s'' r (to_primary _ _ _ h _) e =
      absurd (ok-ne-closed h (closes r s' s'' e).0)
  Switched-Refused d s s' s'' r (to_fallback _ _ _ _ _ _ _ _ h _) e =
      absurd (ok-ne-closed h (closes r s' s'' e).0)
  Switched-Refused d s s' s'' r (none_left last x d' leaves refused h same) e =
      let (closed, kept) = closes r s' s'' e in
      let same_cause : d ≡ FailoverError.closed =
        error_from_failover-closed d (failed-closed (error_from_failover d) h closed) in
      (same_cause, (x, last, d', leaves, rw same_cause at refused, sym kept ∙ same))

  Reacted-closed :
      (v : World P) (res : Result feed.Header (Error T)) (s s'' : Subscription feed)
      (turn : Turn feed rt hints) {u : World P}
      → Reacted feed laws hints v res s turn u
      → turn ≡ returns (err Error.closed) s''
      → (res ≡ err Error.closed) × Refused s v s'' u
  Reacted-closed v res s s'' turn (delivered header b s' _ _ h) e = absurd (clash (sym h ∙ e))
    where
      clash :
          ¬ (◌≡◌ {A = Turn feed rt hints} (returns (ok header) s') (returns (err Error.closed) s''))
      clash x = cc
  Reacted-closed v res s s'' turn (passed_on d _ c h _) e = absurd (clash d c (sym h ∙ e))
    where
      clash :
          (d : Error T)
          → cause d ≡ none
          → ¬ (◌≡◌ {A = Turn feed rt hints} (returns (err d) s) (returns (err Error.closed) s''))
      clash Error.closed x y = cc
      clash Error.timeout x y = cc
      clash (Error.rpc_error _) x y = cc
      clash Error.block_not_found x y = cc
      clash (Error.lagged _) x y = cc
  Reacted-closed v res s s'' turn (switched d x r s' h c k l) e =
      let (dx, refused) =
        Switched-Refused x s s' s'' r k
          (sym (Turned-after_switch feed laws hints r s' turn l) ∙ e) in
      (h ∙ ap err (cause-closed d (c ∙ ap some dx)), refused)

  recv_round-Abandoned :
      (s s' : Subscription feed) (w u : World P)
      → recv_round feed rt hints s w ≡ done (returns (err Error.closed) s') u
      → Abandoned s w s' u
  recv_round-Abandoned s s' w u h =
      let (res, s₁, v, e, _, round) = recv_round-ends feed laws hints s w in
      let (r, refused) =
        Reacted-closed v res s₁ s' (returns (err Error.closed) s')
          (EndsTurnIn-at feed laws hints round h) refl in
      (s, s₁, w, v, at_call, rw (← r) e, refused)

  -- `recv` reports `Closed` only when the channel was closed and nobody took the subscription.
  pub recv-Abandoned :
      (rounds : ℕ) (s s' : Subscription feed) (w u : World P)
      → recv feed rt hints rounds s w ≡ done (some (err Error.closed), s') u
      → Abandoned s w s' u
  recv-Abandoned rounds s s' w u =
      recv-by_rounds feed laws hints
        (λ rounds s w run. run ≡ done (some (err Error.closed), s') u → Abandoned s w s' u)
        (λ s w h. absurd (out-ne-Returned feed laws hints h))
        (λ rounds s s'' w v result e h. last s s'' w v result e h)
        (λ rounds s s'' w v rest e later h.
          let (s₀, s₁, w₀, v', rounds, closed, refused) = later h in
          (s₀, s₁, w₀, v', goes_on e rounds, closed, refused))
        rounds s w
    where
      last :
          (s s'' : Subscription feed) (w v : World P) (result : Result feed.Header (Error T))
          → recv_round feed rt hints s w ≡ done (returns result s'') v
          → ◌≡◌ {A = Received feed laws hints}
              (done (some result, s'') v)
              (done (some (err Error.closed), s') u)
          → Abandoned s w s' u
      last s s'' w v result e h =
          let end : v ≡ u = cc in
          recv_round-Abandoned s s' w u (rw end at (e ∙ same-Returned feed laws hints h))
