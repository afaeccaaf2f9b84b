-- ===== src/Subscription/Stay.antt =====
-- The rounds of `recv` of src/robust_provider/subscription.rs that return and leave the subscription
-- where it is.
use robust_provider.Prelude.{
  ◌≡◌, refl, sym, ◌∙◌, ap, Option, none, some, ℕ, inl, inr, true, false, Bool,
}
use robust_provider.Errors.{Error, FailoverError}
use robust_provider.Errors.Classify.{RetryHints}
use robust_provider.Errors.Convert.{error_from_failover}
use robust_provider.Runtime.{World, done, Result, ok, err, Runtime, RuntimeLaws}
use robust_provider.Subscription.Connect.{Subscription}
use robust_provider.Subscription.Recv.{returns, Turn, after_switch, receive, recv_round}
use robust_provider.Subscription.Reconnect.{Attempted, not_due, back, refused}
use robust_provider.Subscription.Switch.{Switched, to_primary, to_fallback, none_left}
use robust_provider.Subscription.Round.{
  cause, Reacted, delivered, passed_on, switched, Turned-after_switch, EndsTurnIn-at,
  recv_round-ends,
}
use robust_provider.Subscription.{Feed, is_on_fallback, is_some}

module _ {P T : Type 0} (feed : Feed P T) {rt : Runtime P} (laws : RuntimeLaws rt)
    (hints : RetryHints T) where
  -- What `recv` makes of an error of the wait: the same error, or, if there was a switch for it that
  -- failed, the one that the switch was told of.
  abbrev pub passed : Option (FailoverError T) → Error T → Error T
  passed none e = e
  passed (some d) e = error_from_failover d

  -- `recv` returns what the wait came to: its header, or an error for its error.
  abbrev pub Returns : Result feed.Header (Error T) → Result feed.Header (Error T) → Type 0
  Returns (ok header) res = res ≡ ok header
  Returns (err e) res = (e' : Error T) × (res ≡ err e') × (e ≡ passed (cause e') e')

  abbrev pub SameChannel : Subscription feed → Subscription feed → Type 0
  SameChannel s s' = (s'.backend ≡ s.backend) × (s'.robust_provider ≡ s.robust_provider)

  Attempted-SameChannel :
      (mid : World P) (s s' : Subscription feed) (b : Bool) {u : World P}
      → Attempted feed laws hints false mid s b s' u
      → is_on_fallback s ≡ true
      → s'.current_fallback_index ≡ s.current_fallback_index
      → SameChannel s s'
  Attempted-SameChannel mid s s' b (not_due _ _ e _) on here = rw e (refl, refl)
  Attempted-SameChannel mid s s' b (back _ _ _ _ e) on here = absurd (
      gone s.current_fallback_index on
        (sym (ap (λ (x : Subscription feed). x.current_fallback_index) e) ∙ here))
    where
      gone : (index : Option ℕ) → is_some index ≡ true → ¬ (◌≡◌ {A = Option ℕ} none index)
      gone none on here = cc
      gone (some idx) on here = cc
  Attempted-SameChannel mid s s' b (refused _ _ _ _ e) on here = rw e (refl, refl)

  -- A switch that succeeds returns nothing.
  after_switch-ne-returns :
      (s s' : Subscription feed) (r : Result (Unit {0}) (Error T))
      (result : Result feed.Header (Error T))
      → r ≡ ok tt
      → ¬ (◌≡◌ {A = Turn feed rt hints} (returns result s') (after_switch feed rt hints (r, s)))
  after_switch-ne-returns s s' (ok t) result h same = cc
  after_switch-ne-returns s s' (err e) result h same = cc

  failed-SameChannel :
      (d : FailoverError T) (s s' s'' : Subscription feed) (r : Result (Unit {0}) (Error T))
      (result : Result feed.Header (Error T)) {w u : World P}
      → Switched feed laws hints d s w r s' u
      → returns result s'' ≡ after_switch feed rt hints (r, s')
      → SameChannel s s'' × (result ≡ err (error_from_failover d))
  failed-SameChannel d s s' s'' r result (to_primary _ _ _ h _) same =
      absurd (after_switch-ne-returns s' s'' r result h same)
  failed-SameChannel d s s' s'' r result (to_fallback _ _ _ _ _ _ _ _ h _) same =
      absurd (after_switch-ne-returns s' s'' r result h same)
  failed-SameChannel d s s' s'' r result (none_left last _ _ _ _ h kept) same =
      let (kept', result') = came s' r result s'' (error_from_failover d) h same in
      (rw (kept', kept) (refl, refl), result')
    where
      came :
          (s' : Subscription feed) (r : Result (Unit {0}) (Error T))
          (result : Result feed.Header (Error T)) (s'' : Subscription feed) (e : Error T)
          → r ≡ err e
          → ◌≡◌ {A = Turn feed rt hints} (returns result s'') (after_switch feed rt hints (r, s'))
          → (s'' ≡ s') × (result ≡ err e)
      came s' (ok t) result s'' e h same = cc
      came s' (err e') result s'' e h same = (cc, cc)

  delivers-Returns :
      (header : feed.Header) (s s' : Subscription feed) (result res : Result feed.Header (Error T))
      → res ≡ ok header
      → ◌≡◌ {A = Turn feed rt hints} (returns result s') (returns (ok header) s)
      → (s' ≡ s) × Returns result res
  delivers-Returns header s s' (ok header') res e same = (cc, cc)
  delivers-Returns header s s' (err e') res e same = cc

  fails-Returns :
      (e : Error T) (s s' : Subscription feed) (result res : Result feed.Header (Error T))
      → res ≡ err e
      → cause e ≡ none
      → ◌≡◌ {A = Turn feed rt hints} (returns result s') (returns (err e) s)
      → (s' ≡ s) × Returns result res
  fails-Returns e s s' (ok header) res h uncaused same = cc
  fails-Returns e s s' (err e'') res h uncaused same = (cc, (e, h, rw uncaused cc))

  Reacted-SameChannel :
      (mid : World P) (s s' : Subscription feed) (result res : Result feed.Header (Error T))
      {u : World P}
      → Reacted feed laws hints mid res s (returns result s') u
      → s'.current_fallback_index ≡ s.current_fallback_index
      → SameChannel s s' × Returns result res
  Reacted-SameChannel mid s s' result res (delivered header b s'' e (inl (_, stays, _)) same) here =
      let (kept, told) = delivers-Returns header s'' s' result res e same in
      (rw (kept, stays) (refl, refl), told)
  Reacted-SameChannel mid s s' result res (delivered header b s'' e (inr (on, tried)) same) here =
      let (kept, told) = delivers-Returns header s'' s' result res e same in
      (rw (← kept) at (Attempted-SameChannel mid s s'' b tried on (rw kept at here)), told)
  Reacted-SameChannel mid s s' result res (passed_on e h uncaused same _) here =
      let (kept, told) = fails-Returns e s s' result res h uncaused same in
      (rw kept (refl, refl), told)
  Reacted-SameChannel mid s s' result res (switched e d r s'' h caused went same) here =
      let (kept, told) =
        failed-SameChannel d s s'' s' r result went
          (Turned-after_switch feed laws hints r s'' (returns result s') same) in
      (kept, rw told (e, h, rw caused refl))

  -- A round that returns on the same provider leaves the channel as the wait left it, and returns
  -- what the wait came to.
  pub recv_round-Stays :
      (s s' : Subscription feed) (w u : World P) (result : Result feed.Header (Error T))
      → recv_round feed rt hints s w ≡ done (returns result s') u
      → s'.current_fallback_index ≡ s.current_fallback_index
      → (res : Result feed.Header (Error T)) × (s₁ : Subscription feed) × (v : World P) × (receive
            feed rt hints s w
          ≡ done (res, s₁) v)
        × SameChannel s₁ s'
        × (s₁.robust_provider ≡ s.robust_provider)
        × Returns result res
  recv_round-Stays s s' w u result h here =
      let (res, s₁, v, e, (b, only), turns) = recv_round-ends feed laws hints s w in
      let reacted : Reacted feed laws hints v res s₁ (returns result s') u =
        EndsTurnIn-at feed laws hints turns h in
      let (kept, told) = Reacted-SameChannel v s₁ s' result res reacted (here ∙ rw only refl) in
      (res, s₁, v, e, kept, rw only refl, told)
