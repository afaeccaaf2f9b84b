-- ===== src/Subscription/Endless.antt =====
-- When `recv` of src/robust_provider/subscription.rs does not return.
use robust_provider.Prelude.{
  ℕ, ◌≡◌, refl, ◌∙◌, ap, true, false, Option, none, some, List, [], ◌∷◌, inl, inr, ◌⊎◌, Bool,
  Bool-cases, drop, if◌then◌else◌,
}
use robust_provider.Errors.{Error, FailoverError}
use robust_provider.Errors.Convert.{failover_from_rpc}
use robust_provider.Errors.Classify.{RetryHints}
use robust_provider.Runtime.{World, done, ok, err, Runtime, RuntimeLaws, ◌>>=◌}
use robust_provider.Runtime.Calls.{bind-done}
use robust_provider.Provider.{enumerate, RobustProvider, try_provider_with_timeout}
use robust_provider.Subscription.Connect.{
  Backend, Subscription, connect, next_index, or_now, try_reconnect_to_primary, switch_each,
  next_fallback, switch_to_fallback,
}
use robust_provider.Subscription.Loop.{recv-by_rounds}
use robust_provider.Subscription.Reconnect.{Ends}
use robust_provider.Subscription.Recv.{
  returns, continues, Turn, receive, switch, react, recv_round, recv,
}
use robust_provider.Subscription.Round.{received-OnlyBackend, cause, EndsTurn, EndsTurn-at}
use robust_provider.Subscription.{Feed, is_on_fallback, is_some}

module _ {P T : Type 0} (feed : Feed P T) (rt : Runtime P) (hints : RetryHints T)
    (self : RobustProvider P) where
  -- The provider takes the subscription whenever it is asked.
  abbrev pub Accepts : P → Type 0
  Accepts provider =
      (w : World P)
      → (backend : Backend feed) × (u : World P) × (try_provider_with_timeout rt hints self
            (connect feed self) provider w
          ≡ done (ok backend) u)

  -- Every wait for a message comes to an error that leads to a switch: `Timeout`, `Closed` or an RPC
  -- error.
  abbrev pub NeverHears : Type 0
  NeverHears =
      (s : Subscription feed) (w : World P)
      → s.robust_provider ≡ self
      → (e : Error T) × (d : FailoverError T) × (s' : Subscription feed) × (v : World P) × (receive
            feed rt hints s w
          ≡ done (err e, s') v)
        × (cause e ≡ some d)

module _ {P T : Type 0} (feed : Feed P T) {rt : Runtime P} (laws : RuntimeLaws rt)
    (hints : RetryHints T) (self : RobustProvider P) (fallback : P) (others : List P)
    (listed : self.fallback_providers ≡ fallback ∷ others)
    (primary_accepts : Accepts feed rt hints self self.primary_provider)
    (fallback_accepts : Accepts feed rt hints self fallback) where
  switch_each-first :
      (d : FailoverError T) (s : Subscription feed) (index : Option ℕ) (fallbacks : List P)
      (w u : World P) (backend : Backend feed)
      → is_some index ≡ false
      → fallbacks ≡ fallback ∷ others
      → try_provider_with_timeout rt hints s.robust_provider
          (connect feed s.robust_provider)
          fallback
          w
        ≡ done (ok backend) u
      → switch_each feed rt hints d s
          (drop (next_index feed rt hints index) (enumerate 0 fallbacks))
          w
        ≡ done (ok tt, record s { backend = backend; current_fallback_index = some 0 }) u
  unfolding switch_each enumerate
  switch_each-first d s index [] w u backend off same accepted = cc
  switch_each-first d s (some idx) (p ∷ ps) w u backend off same accepted = cc
  switch_each-first d s none (p ∷ ps) w u backend off same accepted =
      let here : p ≡ fallback = cc in rw (here, accepted, ◌>>=◌) refl

  -- Where the subscription goes from a provider that fails: home, or to the first fallback.
  abbrev next_place : Subscription feed → Option ℕ
  next_place s = if is_on_fallback s then none else some 0

  switch_to_fallback-next_place :
      (d : FailoverError T) (s : Subscription feed) (w : World P)
      → s.robust_provider ≡ self
      → (s' : Subscription feed) × (u : World P) × (switch_to_fallback feed rt hints d s w
          ≡ done (ok tt, s') u)
        × (s'.robust_provider ≡ self)
        × (s'.current_fallback_index ≡ next_place s)
  unfolding switch_to_fallback try_reconnect_to_primary next_fallback
  switch_to_fallback-next_place d s w same = elim (Bool-cases (is_on_fallback s)) [
    | inl on ↦
        let (backend, u, accepted) = primary_accepts w in
        (
          record s {
            backend = backend;
            current_fallback_index = none;
            last_reconnect_attempt = none;
          },
          u,
          rw (on, rw (← same) at accepted, ◌>>=◌) refl,
          same,
          rw on refl,
        )
    | inr off ↦
        let (backend, u, accepted) = fallback_accepts w in
        (
          record s {
            backend = backend;
            current_fallback_index = some 0;
            last_reconnect_attempt = or_now feed rt hints s.last_reconnect_attempt w.now;
          },
          u,
          rw off (
              switch_each-first d
                (record s {
                  last_reconnect_attempt = or_now feed rt hints s.last_reconnect_attempt w.now;
                })
                s.current_fallback_index s.robust_provider.fallback_providers w u backend off
                (ap (λ (r : RobustProvider P). r.fallback_providers) same ∙ listed)
                (rw (← same) at accepted)),
          same,
          rw off refl,
        )
  ]

  abbrev Continues : Subscription feed → Turn feed rt hints → Type 0
  Continues s (returns result s') = ⊥
  Continues s (continues s') =
      (s'.robust_provider ≡ self) × (s'.current_fallback_index ≡ next_place s)

  switch-Continues :
      (d : FailoverError T) (s : Subscription feed) (w : World P)
      → s.robust_provider ≡ self
      → EndsTurn feed laws hints (Continues s) (switch feed rt hints d s w)
  switch-Continues d s w same =
      let (s', u, h, same', index) = switch_to_fallback-next_place d s w same in
      (continues s', u, rw (h, ◌>>=◌) refl, (same', index))

  react-Continues :
      (e : Error T) (d : FailoverError T) (s : Subscription feed) (w : World P)
      → cause e ≡ some d
      → s.robust_provider ≡ self
      → EndsTurn feed laws hints (Continues s) (react feed rt hints (err e, s) w)
  unfolding react
  react-Continues Error.timeout d s w c same = switch-Continues FailoverError.timeout s w same
  react-Continues Error.closed d s w c same = switch-Continues FailoverError.closed s w same
  react-Continues (Error.rpc_error e) d s w c same = switch-Continues (failover_from_rpc e) s w same
  react-Continues (Error.lagged count) d s w c same = cc
  react-Continues Error.block_not_found d s w c same = cc

  -- On the primary provider, or on the first fallback.
  abbrev pub AtFirst : Subscription feed → Type 0
  AtFirst s = (s.current_fallback_index ≡ none) ⊎ (s.current_fallback_index ≡ some 0)

  next-AtFirst :
      (on : Bool) (index : Option ℕ)
      → index ≡ (if on then none else some 0)
      → (index ≡ none) ⊎ (index ≡ some 0)
  next-AtFirst true index h = inl h
  next-AtFirst false index h = inr h

  module _ (never_hears : NeverHears feed rt hints self) where
    recv_round-Continues :
        (s : Subscription feed) (w : World P)
        → s.robust_provider ≡ self
        → EndsTurn feed laws hints (Continues s) (recv_round feed rt hints s w)
    unfolding recv_round
    recv_round-Continues s w same =
        let (e, d, s', v, failed, caused) = never_hears s w same in
        let (b, only) = received-OnlyBackend feed laws hints s s' w v (err e) failed in
        let (turn, u, h, goes) =
          react-Continues e d s' v caused
            (ap (λ (x : Subscription feed). x.robust_provider) only ∙ same) in
        (
          turn,
          u,
          bind-done (receive feed rt hints s) (react feed rt hints) w failed ∙ h,
          rw only at goes,
        )

    -- If the primary provider and the first fallback take the subscription whenever they are asked,
    -- but every wait for a message comes to `Timeout`, `Closed` or an RPC error, `recv` on a
    -- subscription that is on one of these two never returns: after any number of rounds it is still
    -- going on, with the subscription on one of the two.
    pub recv-endless :
        (rounds : ℕ) (s : Subscription feed) (w : World P)
        → s.robust_provider ≡ self
        → AtFirst s
        → Ends feed (λ result s'. (result ≡ none) × AtFirst s') (recv feed rt hints rounds s w)
    recv-endless =
        recv-by_rounds feed laws hints
          (λ rounds s w run.
            s.robust_provider ≡ self
            → AtFirst s
            → Ends feed (λ result s'. (result ≡ none) × AtFirst s') run)
          (λ s w same first. (none, s, w, refl, (refl, first)))
          (λ rounds s s' w u res h same first.
            absurd (EndsTurn-at feed laws hints (recv_round-Continues s w same) h))
          (λ rounds s s' w u rest h later same first.
            let (same', index) = EndsTurn-at feed laws hints (recv_round-Continues s w same) h in
            later same' (next-AtFirst (is_on_fallback s) s'.current_fallback_index index))
