-- ===== src/Subscription/Progress.antt =====
-- That `recv` of src/robust_provider/subscription.rs returns.
use robust_provider.Prelude.{inl, inr, ℕ, suc, ◌<◌, ◌≡◌, refl, some, arith}
use robust_provider.Errors.{Error}
use robust_provider.Errors.Classify.{RetryHints}
use robust_provider.Runtime.{World, done, Result, ok, Runtime, RuntimeLaws}
use robust_provider.Provider.{RobustProvider, try_provider_with_timeout}
use robust_provider.Subscription.Connect.{Backend, Subscription, connect}
use robust_provider.Subscription.Advance.{untried, Advances, recv_round-Advances}
use robust_provider.Subscription.Loop.{Received, Returned, recv-by_rounds}
use robust_provider.Subscription.Round.{EndsTurn-at}
use robust_provider.Subscription.Recv.{continues, recv}
use robust_provider.Subscription.Valid.{IsValid}
use robust_provider.Subscription.{Feed}

module _ {P T : Type 0} (feed : Feed P T) {rt : Runtime P} (laws : RuntimeLaws rt)
    (hints : RetryHints T) (self : RobustProvider P) where
  -- The primary provider never takes the subscription back.
  abbrev pub PrimaryRefuses : Type 0
  PrimaryRefuses =
      (w u : World P) (backend : Backend feed)
      → ¬ (
          try_provider_with_timeout rt hints self (connect feed self) self.primary_provider w
          ≡ done (ok backend) u)

  -- While the primary provider refuses to take the subscription back, `recv` returns after at most
  -- one round more than there are fallbacks after the present provider.
  pub recv-returns :
      (rounds : ℕ) (s : Subscription feed) (w : World P)
      → PrimaryRefuses
      → IsValid feed self s
      → untried feed rt hints self s < rounds
      → (result : Result feed.Header (Error T)) × (s' : Subscription feed) × (u : World P) × (recv
            feed rt hints rounds s w
          ≡ done (some result, s') u)
  recv-returns rounds s w refuses =
      recv-by_rounds feed laws hints
        (λ rounds s w run.
          IsValid feed self s
          → untried feed rt hints self s < rounds
          → Returned feed laws hints run)
        (λ s w v few. absurd (omega (arith, few)))
        (λ rounds s s' w u result h v few. (result, s', u, refl))
        (λ rounds s s' w u rest h later v few.
          next rounds s s' v few
            (EndsTurn-at feed laws hints (recv_round-Advances feed laws hints self s w v) h) later)
        rounds s w
    where
      next :
          (rounds : ℕ) (s s' : Subscription feed)
          → IsValid feed self s
          → untried feed rt hints self s < suc rounds
          → Advances feed rt hints self s (continues s')
          → {rest : Received feed laws hints}
          → (IsValid feed self s'
              → untried feed rt hints self s' < rounds
              → Returned feed laws hints rest)
          → Returned feed laws hints rest
      next rounds s s' v few (v', inl (_, fewer)) later = later v' (omega (arith, few, fewer))
      next rounds s s' v few (v', inr (_, accepted)) later =
          absurd (refuses accepted.1 accepted.2 accepted.0 accepted.3)
