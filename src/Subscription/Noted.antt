-- ===== src/Subscription/Noted.antt =====
-- Which times a call of `recv` of src/robust_provider/subscription.rs leaves noted, while the primary
-- provider accepts.
use robust_provider.Prelude.{
  ℕ, ◌≡◌, refl, sym, ap, subst, ◌∙◌, false, Option, none, some, inl, inr, ◌⊎◌,
}
use robust_provider.Errors.{Error, FailoverError}
use robust_provider.Errors.Classify.{RetryHints}
use robust_provider.Runtime.{World, Run, done, Result, ok, err, Runtime, RuntimeLaws}
use robust_provider.Provider.{RobustProvider, try_provider_with_timeout}
use robust_provider.Subscription.Connect.{Backend, Subscription, connect}
use robust_provider.Subscription.Loop.{Rounds, at_call}
use robust_provider.Subscription.Recv.{continues, receive, recv_round}
use robust_provider.Subscription.Round.{
  OnlyBackend, Reacted, delivered, passed_on, switched, Turned, EndsTurnIn-at, recv_round-ends,
}
use robust_provider.Subscription.Switch.{
  Switched, to_primary, to_fallback, none_left, Leaves, first_time, noted_before, primary_refused,
}
use robust_provider.Subscription.Valid.{IsValid, OnlyBackend-IsValid}
use robust_provider.Subscription.{Feed, is_on_fallback}

module _ {P T : Type 0} (feed : Feed P T) {rt : Runtime P} (laws : RuntimeLaws rt)
    (hints : RetryHints T) (self : RobustProvider P) where
  -- The primary provider takes the subscription whenever it is asked.
  abbrev pub PrimaryAccepts : Type 0
  PrimaryAccepts =
      (w : World P)
      → (backend : Backend feed) × (u : World P) × (try_provider_with_timeout rt hints self
            (connect feed self) self.primary_provider w
          ≡ done (ok backend) u)

  -- In the call, the channel of the primary provider failed, at that time.
  abbrev pub FellAt : Subscription feed → World P → ℕ → Type 0
  FellAt s w last =
      (before s₁ : Subscription feed) × (v v' : World P) × (e : Error T) × Rounds feed rt hints s w
        before v
      × (receive feed rt hints before v ≡ done (err e, s₁) v')
      × (is_on_fallback s₁ ≡ false)
      × (last ≡ v'.now)

  -- The time was noted when `recv` was called, or is that of such a failure in the call.
  abbrev pub NotedFrom : Subscription feed → World P → ℕ → Type 0
  NotedFrom s w last = (s.last_reconnect_attempt ≡ some last) ⊎ FellAt s w last

  pub accepts-ne-refused :
      (d : FailoverError T) (provider : RobustProvider P) (w u : World P)
      → PrimaryAccepts
      → provider ≡ self
      → ¬ (
          try_provider_with_timeout rt hints provider
            (connect feed provider)
            provider.primary_provider
            w
          ≡ done (err d) u)
  accepts-ne-refused d provider w u accepts same x =
      let (backend, u', h) = accepts w in clash backend u' (sym (rw same at x) ∙ h)
    where
      clash :
          (backend : Backend feed) (u' : World P)
          → ¬ (
              ◌≡◌ {A = Run P (Result (Backend feed) (FailoverError T))}
                (done (err d) u)
                (done (ok backend) u'))
      clash backend u' x = cc

  -- A time that is noted when a round goes on was noted before it, or is that of the failure.
  Switched-NotedFrom :
      (s s₁ s' : Subscription feed) (w v u : World P) (last : ℕ) (e : Error T) (d : FailoverError T)
      (r : Result (Unit {0}) (Error T))
      → PrimaryAccepts
      → IsValid feed self s₁
      → OnlyBackend feed laws hints s s₁
      → receive feed rt hints s w ≡ done (err e, s₁) v
      → Switched feed laws hints d s₁ v r s' u
      → r ≡ ok tt
      → s'.last_reconnect_attempt ≡ some last
      → NotedFrom s w last
  Switched-NotedFrom s s₁ s' w v u last e d r accepts valid o came (to_primary _ _ _ _ same) moved
        noted =
      absurd (none-ne-some (rw same at noted))
    where
      none-ne-some : ¬ (◌≡◌ {A = Option ℕ} none (some last))
      none-ne-some x = cc
  Switched-NotedFrom s s₁ s' w v u last e d r accepts valid o came (none_left _ _ _ _ _ failed _)
        moved noted =
      absurd (ok-ne-err moved failed)
    where
      ok-ne-err : {e : Error T} → r ≡ ok tt → ¬ (r ≡ err e)
      ok-ne-err h k = cc
  Switched-NotedFrom s s₁ s' w v u last e d r accepts valid (channel, only) came
        (to_fallback _ _ last' x leaves _ _ _ _ same) moved noted =
      subst (NotedFrom s w) (inside (rw same at noted)) (left leaves)
    where
      inside : ◌≡◌ {A = Option ℕ} (some last') (some last) → last' ≡ last
      inside h = cc

      left : {x : World P} {last' : ℕ} → Leaves feed laws hints s₁ v x last' → NotedFrom s w last'
      left (first_time off _) = inr (s, s₁, w, v, e, at_call, came, off, refl)
      left (noted_before last' off kept) =
          inl (sym (ap (λ (x : Subscription feed). x.last_reconnect_attempt) only) ∙ kept)
      left (primary_refused d x on ran) =
          absurd (accepts-ne-refused d s₁.robust_provider v x accepts valid.same_provider ran)

  pub continues-NotedFrom :
      (s s' : Subscription feed) (w u : World P) (last : ℕ)
      → PrimaryAccepts
      → IsValid feed self s
      → recv_round feed rt hints s w ≡ done (continues s') u
      → s'.last_reconnect_attempt ≡ some last
      → NotedFrom s w last
  continues-NotedFrom s s' w u last accepts valid h noted =
      let (res, s₁, v, e, o, round) = recv_round-ends feed laws hints s w in
      go res s₁ v e o (OnlyBackend-IsValid feed self laws hints s s₁ o valid)
        (EndsTurnIn-at feed laws hints round h)
    where
      moved :
          (r : Result (Unit {0}) (Error T)) (s₂ : Subscription feed)
          → Turned feed laws hints r s₂ (continues s')
          → (r ≡ ok tt) × (s₂ ≡ s')
      moved (ok tt) s₂ h = (refl, cc)
      moved (err e) s₂ h = cc

      go :
          (res : Result feed.Header (Error T)) (s₁ : Subscription feed) (v : World P)
          → receive feed rt hints s w ≡ done (res, s₁) v
          → OnlyBackend feed laws hints s s₁
          → IsValid feed self s₁
          → Reacted feed laws hints v res s₁ (continues s') u
          → NotedFrom s w last
      go res s₁ v came o valid₁ (delivered _ b s'' _ _ h) = cc
      go res s₁ v came o valid₁ (passed_on d _ _ h _) = cc
      go res s₁ v came o valid₁ (switched e d r s₂ failed _ went h) =
          let (succeeded, same) = moved r s₂ h in
          Switched-NotedFrom s s₁ s₂ w v u last e d r accepts valid₁ o
            (came ∙ ap (λ (x : Result feed.Header (Error T)). done (x, s₁) v) failed) went succeeded
            (rw same noted)
