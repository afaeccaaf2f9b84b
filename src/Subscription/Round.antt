-- ===== src/Subscription/Round.antt =====
-- One round of `recv` of src/robust_provider/subscription.rs, on every branch.
pub mod Wait
pub use robust_provider.Subscription.Round.Wait.{OnlyBackend}
use robust_provider.Prelude.{
  sym, true, ◌≡◌, refl, ◌∙◌, Bool, false, Option, none, some, Bool-cases, inl, inr, ◌⊎◌,
}
use robust_provider.Errors.{RecvError, Error, FailoverError, Elapsed}
use robust_provider.Errors.Classify.{RetryHints}
use robust_provider.Errors.Convert.{failover_from_rpc}
use robust_provider.Runtime.{
  World, Run, done, Result, ok, err, Runtime, RuntimeLaws, ◌>>=◌, await_answer,
}
use robust_provider.Runtime.Calls.{bind-done}
use robust_provider.Runtime.Laws.{timeout-done}
use robust_provider.Rpc.{robust_rpc_or}
use robust_provider.Subscription.Connect.{Backend, Subscription}
use robust_provider.Subscription.Recv.{
  returns, continues, Received, Turn, from_web_socket, from_http_polling, block_header,
  receive_from, receive, after_switch, switch, back_to_primary, react, recv_round,
}
use robust_provider.Subscription.Reconnect.{EndsIn, Attempted, try_reconnect-Attempted}
use robust_provider.Subscription.Switch.{Switched, switch_to_fallback-Switched}
use robust_provider.Subscription.Round.Wait.{receive-ends}
use robust_provider.Subscription.{Feed, web_socket, http_polling, is_on_fallback}

-- The errors that make `recv` look for another provider, and what it looks with.
abbrev pub cause : {T : Type 0} → Error T → Option (FailoverError T)
cause Error.timeout = some FailoverError.timeout
cause Error.closed = some FailoverError.closed
cause (Error.rpc_error e) = some (FailoverError.rpc_error e)
cause (Error.lagged count) = none
cause Error.block_not_found = none

module _ {P T : Type 0} (feed : Feed P T) {rt : Runtime P} (laws : RuntimeLaws rt)
    (hints : RetryHints T) where
  -- A switch that succeeds lets the loop go on, and one that fails ends it with its error.
  abbrev pub Turned : Result (Unit {0}) (Error T) → Subscription feed → Turn feed rt hints → Type 0
  Turned (ok _) s turn = turn ≡ continues s
  Turned (err e) s turn = turn ≡ returns (err e) s

  pub Turned-after_switch :
      (r : Result (Unit {0}) (Error T)) (s : Subscription feed) (turn : Turn feed rt hints)
      → Turned r s turn
      → turn ≡ after_switch feed rt hints (r, s)
  Turned-after_switch (ok _) s turn h = h
  Turned-after_switch (err e) s turn h = h

  after_switch-Turned :
      (r : Result (Unit {0}) (Error T)) (s : Subscription feed)
      → Turned r s (after_switch feed rt hints (r, s))
  after_switch-Turned (ok _) s = refl
  after_switch-Turned (err e) s = refl

  -- What a round makes of an outcome of the wait, from the world in which the wait has ended to the
  -- one in which the round does.
  pub data Reacted (v : World P) (res : Result feed.Header (Error T)) (s : Subscription feed)
      (turn : Turn feed rt hints) (u : World P) : Type 0 where
    delivered :
        (header : feed.Header) (b : Bool) (s' : Subscription feed)
        → res ≡ ok header
        → ((is_on_fallback s ≡ false) × (s' ≡ s) × (u ≡ v))
          ⊎ ((is_on_fallback s ≡ true) × Attempted feed laws hints false v s b s' u)
        → turn ≡ returns (ok header) s'
        → Reacted v res s turn u
    passed_on :
        (e : Error T)
        → res ≡ err e
        → cause e ≡ none
        → turn ≡ returns (err e) s
        → u ≡ v
        → Reacted v res s turn u
    switched :
        (e : Error T) (d : FailoverError T) (r : Result (Unit {0}) (Error T))
        (s' : Subscription feed)
        → res ≡ err e
        → cause e ≡ some d
        → Switched feed laws hints d s v r s' u
        → Turned r s' turn
        → Reacted v res s turn u

  -- A run that ends with a turn of the given kind, in the world that the kind tells of.
  abbrev pub EndsTurnIn :
      (Turn feed rt hints → World P → Type 0) → Run P (Turn feed rt hints) → Type 0
  EndsTurnIn Change run =
      (turn : Turn feed rt hints) × (u : World P) × (run ≡ done turn u) × Change turn u

  abbrev pub EndsTurn : (Turn feed rt hints → Type 0) → Run P (Turn feed rt hints) → Type 0
  EndsTurn Change run = EndsTurnIn (λ turn _. Change turn) run

  switch-ends :
      (e : Error T) (d : FailoverError T) (s : Subscription feed) (w : World P)
      → cause e ≡ some d
      → EndsTurnIn (Reacted w (err e) s) (switch feed rt hints d s w)
  switch-ends e d s w c =
      let (r, s', u, h, k) = switch_to_fallback-Switched feed laws hints d s w in
      (
        after_switch feed rt hints (r, s'),
        u,
        rw (h, ◌>>=◌) refl,
        switched e d r s' refl c k (after_switch-Turned r s'),
      )

  back_to_primary-Ends :
      (s : Subscription feed) (w : World P)
      → EndsIn feed
          (λ b s' u.
            ((is_on_fallback s ≡ false) × (s' ≡ s) × (u ≡ w))
            ⊎ ((is_on_fallback s ≡ true) × Attempted feed laws hints false w s b s' u))
          (back_to_primary feed rt hints s w)
  back_to_primary-Ends s w = elim (Bool-cases (is_on_fallback s)) [
    | inl on ↦
        let (b, s', u, h, k) = try_reconnect-Attempted feed laws hints false s w in
        rw on (b, s', u, h, inr (refl, k))
    | inr off ↦ rw off (false, s, w, refl, inl (refl, refl, refl))
  ]

  react-ends :
      (res : Result feed.Header (Error T)) (s : Subscription feed) (w : World P)
      → EndsTurnIn (Reacted w res s) (react feed rt hints (res, s) w)
  unfolding react failover_from_rpc
  react-ends (ok header) s w =
      let (b, s', u, h, k) = back_to_primary-Ends s w in
      (returns (ok header) s', u, rw (h, ◌>>=◌) refl, delivered header b s' refl k refl)
  react-ends (err Error.timeout) s w = switch-ends Error.timeout FailoverError.timeout s w refl
  react-ends (err (Error.lagged count)) s w = (
    returns (err (Error.lagged count)) s,
    w,
    refl,
    passed_on (Error.lagged count) refl refl refl refl,
  )
  react-ends (err Error.block_not_found) s w = (
    returns (err Error.block_not_found) s,
    w,
    refl,
    passed_on Error.block_not_found refl refl refl refl,
  )
  react-ends (err Error.closed) s w = switch-ends Error.closed FailoverError.closed s w refl
  react-ends (err (Error.rpc_error e)) s w =
      switch-ends (Error.rpc_error e) (FailoverError.rpc_error e) s w refl

  -- A round of `recv` waits for a message, which changes the channel alone, and then always comes to
  -- an end. A header is returned, after an attempt to go back to the primary provider, if that is
  -- due, when the subscription is on a fallback; `Lagged` and `BlockNotFound` are returned as they are
  -- and change nothing; `Timeout`, `Closed` and RPC errors lead to a switch: after one that succeeds
  -- the loop goes on, and the error of one that fails is returned.
  pub recv_round-ends :
      (s : Subscription feed) (w : World P)
      → (res : Result feed.Header (Error T)) × (s₁ : Subscription feed) × (v : World P) × (receive
            feed rt hints s w
          ≡ done (res, s₁) v)
        × OnlyBackend feed laws hints s s₁
        × EndsTurnIn (Reacted v res s₁) (recv_round feed rt hints s w)
  unfolding recv_round
  recv_round-ends s w =
      let (res, s₁, v, e, o) = receive-ends feed laws hints s w in
      let (turn, u, h, k) = react-ends res s₁ v in
      (
        res,
        s₁,
        v,
        e,
        o,
        (turn, u, bind-done (receive feed rt hints s) (react feed rt hints) w e ∙ h, k),
      )

  -- What is known of a wait that has come to its end.
  pub received-OnlyBackend :
      (s s' : Subscription feed) (w v : World P) (res : Result feed.Header (Error T))
      → receive feed rt hints s w ≡ done (res, s') v
      → OnlyBackend feed laws hints s s'
  received-OnlyBackend s s' w v res h =
      let (res', s'', v', e, only, _) = recv_round-ends s w in
      let run : ◌≡◌ {A = Run P (Received feed rt hints)} (done (res', s'') v') (done (res, s') v) =
        sym e ∙ h in
      let same : s'' ≡ s' = cc in rw same at only

  -- What is known of the turn that a round ends with.
  pub EndsTurnIn-at :
      {Change : Turn feed rt hints → World P → Type 0} {run : Run P (Turn feed rt hints)}
      {turn : Turn feed rt hints} {u : World P}
      → EndsTurnIn Change run
      → run ≡ done turn u
      → Change turn u
  EndsTurnIn-at {Change} {run} {turn} {u} (turn', u', h, k) h' = inside (sym h ∙ h')
    where
      inside : ◌≡◌ {A = Run P (Turn feed rt hints)} (done turn' u') (done turn u) → Change turn u
      inside x = let same : turn' ≡ turn = cc in let end : u' ≡ u = cc in rw (same, end) at k

  pub EndsTurn-at :
      {Change : Turn feed rt hints → Type 0} {run : Run P (Turn feed rt hints)}
      {turn : Turn feed rt hints} {u : World P}
      → EndsTurn Change run
      → run ≡ done turn u
      → Change turn
  EndsTurn-at {Change} ends h = EndsTurnIn-at {Change = λ turn _. Change turn} ends h
