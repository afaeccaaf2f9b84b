-- ===== src/Subscription/Advance.antt =====
-- The rounds of the loop of `recv` of src/robust_provider/subscription.rs that go on.
use robust_provider.Prelude.{ℕ, ◌-◌, ◌<◌, ◌≡◌, refl, none, length, arith, ◌⊎◌, inl, inr, true}
use robust_provider.Errors.{Error, FailoverError}
use robust_provider.Errors.Classify.{RetryHints}
use robust_provider.Runtime.{World, done, Result, ok, Runtime, RuntimeLaws}
use robust_provider.Provider.{RobustProvider, try_provider_with_timeout}
use robust_provider.Subscription.Connect.{Backend, Subscription, connect}
use robust_provider.Subscription.Recv.{returns, continues, Turn, after_switch, recv_round}
use robust_provider.Subscription.Switch.{index_after, Switched, to_primary, to_fallback, none_left}
use robust_provider.Subscription.Round.{
  Reacted, delivered, passed_on, switched, Turned-after_switch, EndsTurn, recv_round-ends,
}
use robust_provider.Subscription.Valid.{
  IsValid, OnlyBackend-IsValid, Switched-IsValid, get_elem?-lt,
}
use robust_provider.Subscription.{Feed, is_on_fallback}

module _ {P T : Type 0} (feed : Feed P T) (rt : Runtime P) (hints : RetryHints T)
    (self : RobustProvider P) where
  -- How many fallbacks come after the present provider.
  abbrev pub untried : Subscription feed → ℕ
  untried s = length self.fallback_providers - index_after s.current_fallback_index

  -- The primary provider accepted the subscription.
  abbrev pub PrimaryAccepted : Type 0
  PrimaryAccepted =
      (backend : Backend feed) × (w u : World P) × (try_provider_with_timeout rt hints self
          (connect feed self) self.primary_provider w
        ≡ done (ok backend) u)

  -- A turn of the loop that goes on has used up a fallback, or is back on the primary provider.
  abbrev pub Advances : Subscription feed → Turn feed rt hints → Type 0
  Advances s (returns res s') = Unit
  Advances s (continues s') =
      IsValid feed self s'
      × (((is_on_fallback s' ≡ true) × (untried s' < untried s))
          ⊎ ((s'.current_fallback_index ≡ none) × PrimaryAccepted))

module _ {P T : Type 0} (feed : Feed P T) {rt : Runtime P} (laws : RuntimeLaws rt)
    (hints : RetryHints T) (self : RobustProvider P) where
  Switched-Advances :
      (e : FailoverError T) (s s' : Subscription feed) (r : Result (Unit {0}) (Error T))
      {w u : World P}
      → IsValid feed self s
      → Switched feed laws hints e s w r s' u
      → Advances feed rt hints self s (after_switch feed rt hints (r, s'))
  Switched-Advances e s s' r {w} {u} v (to_primary backend on x h same) = rw h (
    Switched-IsValid feed self laws hints e s s' r (to_primary backend on x h same) v,
    inr (rw same refl, (backend, w, u, rw v.same_provider at x)),
  )
  Switched-Advances e s s' r v (none_left last _ _ _ _ h _) = rw h tt
  Switched-Advances e s s' r v (to_fallback backend idx last v' leaves f lo at h same) =
      let below = get_elem?-lt self.fallback_providers idx f.provider (rw v.same_provider at at) in
      rw h (
        Switched-IsValid feed self laws hints e s s' r
            (to_fallback backend idx last v' leaves f lo at h same) v,
        inl (rw same refl, rw same (omega (arith, below, lo))),
      )

  Reacted-Advances :
      (mid : World P) (res : Result feed.Header (Error T)) (s : Subscription feed)
      (turn : Turn feed rt hints) {u : World P}
      → IsValid feed self s
      → Reacted feed laws hints mid res s turn u
      → Advances feed rt hints self s turn
  Reacted-Advances mid res s turn v (delivered header b s' _ _ h) = rw h tt
  Reacted-Advances mid res s turn v (passed_on e _ _ h _) = rw h tt
  Reacted-Advances mid res s turn v (switched e d r s' _ _ k h) =
      rw (Turned-after_switch feed laws hints r s' turn h) (Switched-Advances d s s' r v k)

  pub recv_round-Advances :
      (s : Subscription feed) (w : World P)
      → IsValid feed self s
      → EndsTurn feed laws hints (Advances feed rt hints self s) (recv_round feed rt hints s w)
  recv_round-Advances s w v =
      let (res, s₁, x, _, (b, same), (turn, u, h, k)) = recv_round-ends feed laws hints s w in
      (
        turn,
        u,
        h,
        rw same at (
            Reacted-Advances x res s₁ turn
              (OnlyBackend-IsValid feed self laws hints s s₁ (b, same) v) k),
      )
