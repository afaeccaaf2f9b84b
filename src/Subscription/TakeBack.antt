-- ===== src/Subscription/TakeBack.antt =====
-- How often the primary provider can take a subscription back before `recv` of
-- src/robust_provider/subscription.rs returns.
use robust_provider.Prelude.{
  ℕ, zero, suc, ◌+◌, ◌*◌, ◌<◌, ◌≡◌, refl, inl, inr, if◌then◌else◌, length, arith,
}
use robust_provider.Errors.Classify.{RetryHints}
use robust_provider.Runtime.{World, done, hangs, Runtime, RuntimeLaws}
use robust_provider.Provider.{RobustProvider}
use robust_provider.Subscription.Advance.{untried, Advances, recv_round-Advances}
use robust_provider.Subscription.Connect.{Subscription}
use robust_provider.Subscription.Loop.{Received, Returned, recv-by_rounds}
use robust_provider.Subscription.Round.{EndsTurn-at}
use robust_provider.Subscription.Recv.{returns, continues, recv_round, recv}
use robust_provider.Subscription.Valid.{IsValid}
use robust_provider.Subscription.{Feed, is_on_fallback}

module _ {P T : Type 0} (feed : Feed P T) (rt : Runtime P) (hints : RetryHints T) where
  -- The rounds, among so many, that end back on the primary provider, for the loop to go on with.
  unfoldable pub take_backs : ℕ → Subscription feed → World P → ℕ
  take_backs zero s w = 0
  take_backs (suc rounds) s w = elim (recv_round feed rt hints s w) [
    | done turn u ↦ elim turn [
      | returns res s' ↦ 0
      | continues s' ↦
          let rest = take_backs rounds s' u in if is_on_fallback s' then rest else suc rest
    ]
    | hangs u ↦ 0
  ]

module _ {P T : Type 0} (feed : Feed P T) {rt : Runtime P} (laws : RuntimeLaws rt)
    (hints : RetryHints T) (self : RobustProvider P) where
  -- The rounds that are allowed for: the fallbacks after the present provider, and for each time
  -- that the primary provider takes the subscription back, itself and all the fallbacks.
  abbrev pub allowed : ℕ → Subscription feed → World P → ℕ
  allowed rounds s w =
      untried feed rt hints self s
      + take_backs feed rt hints rounds s w * suc (length self.fallback_providers)

  -- From a valid subscription `recv` returns within so many rounds, if they are more than the
  -- fallbacks after the present provider and, for every round among them that ends with the primary
  -- provider taking the subscription back, as many as there are providers.
  pub recv-takes_back :
      (rounds : ℕ) (s : Subscription feed) (w : World P)
      → IsValid feed self s
      → allowed rounds s w < rounds
      → Returned feed laws hints (recv feed rt hints rounds s w)
  unfolding take_backs
  recv-takes_back =
      recv-by_rounds feed laws hints
        (λ rounds s w run.
          IsValid feed self s → allowed rounds s w < rounds → Returned feed laws hints run)
        (λ s w v few. absurd (omega (arith, few)))
        (λ rounds s s' w u result h v few. (result, s', u, refl))
        (λ rounds s s' w u rest h later v few.
          next rounds s s' w u h few
            (EndsTurn-at feed laws hints (recv_round-Advances feed laws hints self s w v) h) later)
    where
      next :
          (rounds : ℕ) (s s' : Subscription feed) (w u : World P)
          → recv_round feed rt hints s w ≡ done (continues s') u
          → allowed (suc rounds) s w < suc rounds
          → Advances feed rt hints self s (continues s')
          → {rest : Received feed laws hints}
          → (IsValid feed self s' → allowed rounds s' u < rounds → Returned feed laws hints rest)
          → Returned feed laws hints rest
      next rounds s s' w u e h (v', inl (on, fewer)) later =
          later v' (omega (arith, fewer, rw (e, take_backs, on) at h))
      next rounds s s' w u e h (v', inr (back, _)) later =
          later v' (rw back (grind (arith, rw (e, take_backs, back) at h)))
