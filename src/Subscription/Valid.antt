-- ===== src/Subscription/Valid.antt =====
-- The invariant of a subscription of src/robust_provider/subscription.rs, and that every method
-- keeps it.
use robust_provider.Prelude.{
  false, inl, inr, ℕ, zero, suc, ◌<◌, ◌≡◌, refl, Bool, true, none, some, List, [], ◌∷◌, length,
  arith, get_elem?,
}
use robust_provider.Errors.{Error, FailoverError}
use robust_provider.Errors.Classify.{RetryHints}
use robust_provider.Runtime.{World, Result, ok, err, Runtime, RuntimeLaws}
use robust_provider.Provider.{RobustProvider}
use robust_provider.Subscription.Connect.{Subscription}
use robust_provider.Subscription.Recv.{returns, continues, Turn, after_switch, recv_round, recv}
use robust_provider.Subscription.Reconnect.{Ends, Attempted, not_due, back, refused}
use robust_provider.Subscription.Switch.{Switched, to_primary, to_fallback, none_left}
use robust_provider.Subscription.Loop.{recv-by_rounds}
use robust_provider.Subscription.Round.{
  OnlyBackend, Reacted, delivered, passed_on, switched, Turned-after_switch, EndsTurn, EndsTurn-at,
  recv_round-ends,
}
use robust_provider.Subscription.{Feed, SubscriptionBackend, init, is_some, is_on_fallback}

pub get_elem?-lt :
    {P : Type 0} (ps : List P) (i : ℕ) (p : P) → get_elem? ps i ≡ some p → i < length ps
get_elem?-lt [] i p h = ground arith
get_elem?-lt (x ∷ ps) zero p h = omega arith
get_elem?-lt (x ∷ ps) (suc i) p h = omega (arith, get_elem?-lt ps i p h)

module _ {P T : Type 0} (feed : Feed P T) (self : RobustProvider P) where
  -- The provider never changes; the index of the present fallback is one of its fallbacks; and on a
  -- fallback the timer of the reconnection to the primary provider runs.
  pub record IsValid (s : Subscription feed) : Type 0 where
    pub same_provider : s.robust_provider ≡ self
    pub in_range : (i : ℕ) → s.current_fallback_index ≡ some i → i < length self.fallback_providers
    pub armed : is_on_fallback s ≡ true → is_some s.last_reconnect_attempt ≡ true

  -- A new subscription is valid.
  pub init-IsValid : (b : SubscriptionBackend feed.Sub feed.Receiver) → IsValid (init b self)
  unfolding init
  init-IsValid b = record { same_provider = refl; in_range = λ i e. cc; armed = λ e. cc }

  pub OnlyBackend-IsValid :
      {rt : Runtime P} (laws : RuntimeLaws rt) (hints : RetryHints T) (s s' : Subscription feed)
      → OnlyBackend feed laws hints s s'
      → IsValid s
      → IsValid s'
  OnlyBackend-IsValid laws hints s s' (b, e) v =
      rw e (record { same_provider = v.same_provider; in_range = v.in_range; armed = v.armed })

  module _ {rt : Runtime P} (laws : RuntimeLaws rt) (hints : RetryHints T) where
    pub Attempted-IsValid :
        (force : Bool) (mid : World P) (s s' : Subscription feed) (b : Bool) {u : World P}
        → Attempted feed laws hints force mid s b s' u
        → IsValid s
        → IsValid s'
    Attempted-IsValid force mid s s' b (not_due _ _ e _) v = rw e v
    Attempted-IsValid force mid s s' b (back backend _ _ _ e) v =
        rw e (record { same_provider = v.same_provider; in_range = λ i h. cc; armed = λ h. cc })
    Attempted-IsValid force mid s s' b (refused _ _ _ _ e) v =
        rw e (record { same_provider = v.same_provider; in_range = v.in_range; armed = λ h. refl })

    pub Switched-IsValid :
        (e : FailoverError T) (s s' : Subscription feed) (r : Result (Unit {0}) (Error T))
        {w u : World P}
        → Switched feed laws hints e s w r s' u
        → IsValid s
        → IsValid s'
    Switched-IsValid e s s' r (to_primary backend _ _ _ h) v =
        rw h (record { same_provider = v.same_provider; in_range = λ i x. cc; armed = λ x. cc })
    Switched-IsValid e s s' r (to_fallback backend idx last _ _ found _ at _ h) v = rw h (record {
      same_provider = v.same_provider;
      in_range = λ i x.
          let same : idx ≡ i = cc in
          rw (← same)
            (get_elem?-lt self.fallback_providers idx found.provider (rw v.same_provider at at));
      armed = λ x. refl;
    })
    Switched-IsValid e s s' r (none_left last _ _ _ _ _ h) v =
        rw h (record { same_provider = v.same_provider; in_range = v.in_range; armed = λ x. refl })

    abbrev pub turn_subscription : Turn feed rt hints → Subscription feed
    turn_subscription (returns res s) = s
    turn_subscription (continues s) = s

    after_switch-IsValid :
        (r : Result (Unit {0}) (Error T)) (s : Subscription feed)
        → IsValid s
        → IsValid (turn_subscription (after_switch feed rt hints (r, s)))
    after_switch-IsValid (ok t) s v = v
    after_switch-IsValid (err e) s v = v

    pub Reacted-IsValid :
        (mid : World P) (res : Result feed.Header (Error T)) (s : Subscription feed)
        (turn : Turn feed rt hints) {u : World P}
        → Reacted feed laws hints mid res s turn u
        → IsValid s
        → IsValid (turn_subscription turn)
    Reacted-IsValid mid res s turn (delivered header b s' _ (inl (_, same, _)) e) v = rw (e, same) v
    Reacted-IsValid mid res s turn (delivered header b s' _ (inr (_, k)) e) v =
        rw e (Attempted-IsValid false mid s s' b k v)
    Reacted-IsValid mid res s turn (passed_on e _ _ h _) v = rw h v
    Reacted-IsValid mid res s turn (switched e d r s' _ _ k h) v =
        rw (Turned-after_switch feed laws hints r s' turn h)
          (after_switch-IsValid r s' (Switched-IsValid d s s' r k v))

    pub recv_round-IsValid :
        (s : Subscription feed) (w : World P)
        → IsValid s
        → EndsTurn feed laws hints
            (λ turn. IsValid (turn_subscription turn))
            (recv_round feed rt hints s w)
    recv_round-IsValid s w v =
        let (res, s₁, x, _, o, (turn, u, h, k)) = recv_round-ends feed laws hints s w in
        (turn, u, h, Reacted-IsValid x res s₁ turn k (OnlyBackend-IsValid laws hints s s₁ o v))

    -- From a valid subscription, any number of rounds of `recv` come to an end and leave a valid one.
    pub recv-IsValid :
        (rounds : ℕ) (s : Subscription feed) (w : World P)
        → IsValid s
        → Ends feed (λ _ s'. IsValid s') (recv feed rt hints rounds s w)
    recv-IsValid =
        recv-by_rounds feed laws hints
          (λ rounds s w run. IsValid s → Ends feed (λ _ s'. IsValid s') run)
          (λ s w v. (none, s, w, refl, v))
          (λ rounds s s' w u res h v.
            (some res, s', u, refl, EndsTurn-at feed laws hints (recv_round-IsValid s w v) h))
          (λ rounds s s' w u rest h later v.
            later (EndsTurn-at feed laws hints (recv_round-IsValid s w v) h))
