-- ===== src/Subscription/Place.antt =====
-- Which provider a subscription of src/robust_provider/subscription.rs takes itself to be on, as an
-- abstract machine that `recv` refines.
use robust_provider.Prelude.{
  ℕ, zero, suc, ◌<◌, ◌≤◌, ◌+◌, ◌≡◌, refl, ap, false, Bool, Option, none, some, inl, inr, length,
  arith,
}
use robust_provider.Errors.{Error, FailoverError}
use robust_provider.Errors.Classify.{RetryHints}
use robust_provider.Runtime.{World, Result, ok, err, Runtime, RuntimeLaws}
use robust_provider.Provider.{RobustProvider}
use robust_provider.Subscription.Connect.{Subscription}
use robust_provider.Subscription.Reconnect.{Ends, Attempted, not_due, back, refused}
use robust_provider.Subscription.Recv.{Turn, after_switch, recv_round, recv}
use robust_provider.Subscription.Loop.{recv-by_rounds}
use robust_provider.Subscription.Round.{
  Reacted, delivered, passed_on, switched, Turned-after_switch, EndsTurn, EndsTurn-at,
  recv_round-ends,
}
use robust_provider.Subscription.Switch.{index_after, Switched, to_primary, to_fallback, none_left}
use robust_provider.Subscription.Valid.{
  IsValid, OnlyBackend-IsValid, Reacted-IsValid, turn_subscription, get_elem?-lt,
}
use robust_provider.Subscription.{Feed}

pub data Place : Type 0 where
  primary : Place
  fallback : ℕ → Place

-- A move among the primary provider and so many fallbacks: to a fallback, which comes after the one
-- that is left, or home.
pub data Hop (fallbacks : ℕ) : Place → Place → Type 0 where
  fall : {i : ℕ} → i < fallbacks → Hop fallbacks primary (fallback i)
  fall_on : {i j : ℕ} → i < j → j < fallbacks → Hop fallbacks (fallback i) (fallback j)
  home : {i : ℕ} → Hop fallbacks (fallback i) primary

-- At most so many moves, one after the other.
pub data Route (fallbacks : ℕ) (start : Place) : ℕ → Place → Type 0 where
  at_start : {most : ℕ} → Route fallbacks start most start
  hop :
      {most : ℕ} {p q : Place}
      → Route fallbacks start most p
      → Hop fallbacks p q
      → Route fallbacks start (suc most) q

abbrev pub place_of : Option ℕ → Place
place_of none = primary
place_of (some i) = fallback i

module _ {P T : Type 0} (feed : Feed P T) where
  abbrev pub place : Subscription feed → Place
  place s = place_of s.current_fallback_index

module _ (fallbacks : ℕ) where
  Route-more :
      {start p : Place} {few many : ℕ}
      → few ≤ many
      → Route fallbacks start few p
      → Route fallbacks start many p
  Route-more h at_start = at_start
  Route-more {many = zero} h (hop before move) = absurd (omega arith)
  Route-more {many = suc many} h (hop before move) = hop (Route-more (omega arith) before) move

  Route-append :
      {start p q : Place} {m n : ℕ}
      → Route fallbacks start m p
      → Route fallbacks p n q
      → Route fallbacks start (m + n) q
  Route-append first at_start = Route-more (omega arith) first
  Route-append {m = m} first (hop {most = n} before move) =
      Route-more (omega arith) (hop (Route-append first before) move)

  -- One move at most, from wherever the present fallback's index says.
  Route-home : (index : Option ℕ) → Route fallbacks (place_of index) 1 primary
  Route-home none = at_start
  Route-home (some i) = hop at_start home

module _ {P T : Type 0} (feed : Feed P T) {rt : Runtime P} (laws : RuntimeLaws rt)
    (hints : RetryHints T) (self : RobustProvider P) where
  abbrev all_fallbacks : ℕ
  all_fallbacks = length self.fallback_providers

  Route-fall :
      (index : Option ℕ) (i : ℕ)
      → index_after index ≤ i
      → i < all_fallbacks
      → Route all_fallbacks (place_of index) 1 (fallback i)
  Route-fall none i h below = hop at_start (fall below)
  Route-fall (some j) i h below = hop at_start (fall_on (omega (arith, h)) below)

  Switched-Route :
      (e : FailoverError T) (s s' : Subscription feed) (r : Result (Unit {0}) (Error T))
      {w u : World P}
      → IsValid feed self s
      → Switched feed laws hints e s w r s' u
      → Route all_fallbacks (place feed s) 1 (place feed s')
  Switched-Route e s s' r v (to_primary _ _ _ _ same) =
      rw same (Route-home all_fallbacks s.current_fallback_index)
  Switched-Route e s s' r v (none_left _ _ _ _ _ _ same) = rw same at_start
  Switched-Route e s s' r v (to_fallback _ i _ _ _ f lo at _ same) = rw same (
      Route-fall s.current_fallback_index i (omega (arith, lo))
        (get_elem?-lt self.fallback_providers i f.provider (rw v.same_provider at at)))

  Attempted-Route :
      (mid : World P) (s s' : Subscription feed) (b : Bool) {u : World P}
      → Attempted feed laws hints false mid s b s' u
      → Route all_fallbacks (place feed s) 1 (place feed s')
  Attempted-Route mid s s' b (not_due _ _ same _) = rw same at_start
  Attempted-Route mid s s' b (back _ _ _ _ same) =
      rw same (Route-home all_fallbacks s.current_fallback_index)
  Attempted-Route mid s s' b (refused _ _ _ _ same) = rw same at_start

  after_switch-place :
      (r : Result (Unit {0}) (Error T)) (s : Subscription feed)
      → turn_subscription feed self laws hints (after_switch feed rt hints (r, s)) ≡ s
  after_switch-place (ok _) s = refl
  after_switch-place (err e) s = refl

  Reacted-Route :
      (mid : World P) (res : Result feed.Header (Error T)) (s : Subscription feed)
      (turn : Turn feed rt hints) {u : World P}
      → IsValid feed self s
      → Reacted feed laws hints mid res s turn u
      → Route all_fallbacks
          (place feed s)
          1
          (place feed (turn_subscription feed self laws hints turn))
  Reacted-Route mid res s turn v (delivered header b s' _ (inl (_, same, _)) h) =
      rw (h, same) at_start
  Reacted-Route mid res s turn v (delivered header b s' _ (inr (_, k)) h) =
      rw h (Attempted-Route mid s s' b k)
  Reacted-Route mid res s turn v (passed_on _ _ _ h _) = rw h at_start
  Reacted-Route mid res s turn v (switched _ d r s' _ _ k h) =
      rw (Turned-after_switch feed laws hints r s' turn h, after_switch-place r s')
        (Switched-Route d s s' r v k)

  recv_round-Route :
      (s : Subscription feed) (w : World P)
      → IsValid feed self s
      → EndsTurn feed laws hints
          (λ turn.
            IsValid feed self (turn_subscription feed self laws hints turn)
            × Route all_fallbacks
                (place feed s)
                1
                (place feed (turn_subscription feed self laws hints turn)))
          (recv_round feed rt hints s w)
  recv_round-Route s w v =
      let (res, s₁, x, _, (b, same), (turn, u, h, k)) = recv_round-ends feed laws hints s w in
      let v₁ = OnlyBackend-IsValid feed self laws hints s s₁ (b, same) v in
      let kept : place feed s₁ ≡ place feed s = ap (place feed) same in
      (
        turn,
        u,
        h,
        (
          Reacted-IsValid feed self laws hints x res s₁ turn k v₁,
          rw kept at (Reacted-Route x res s₁ turn v₁ k),
        ),
      )

  -- Whatever the nodes and channels do, `recv` moves a valid subscription from provider to provider
  -- as the abstract machine does, once a round at most: from the primary provider to any fallback,
  -- from a fallback only to one that was added later, and from any fallback home.
  pub recv-Route :
      (rounds : ℕ) (s : Subscription feed) (w : World P)
      → IsValid feed self s
      → Ends feed
          (λ _ s'. Route all_fallbacks (place feed s) rounds (place feed s'))
          (recv feed rt hints rounds s w)
  recv-Route =
      recv-by_rounds feed laws hints
        (λ rounds s w run.
          IsValid feed self s
          → Ends feed (λ _ s'. Route all_fallbacks (place feed s) rounds (place feed s')) run)
        (λ s w v. (none, s, w, refl, at_start))
        (λ rounds s s' w u res h v. (
          some res,
          s',
          u,
          refl,
          Route-more all_fallbacks (omega arith)
              (EndsTurn-at feed laws hints (recv_round-Route s w v) h).1,
        ))
        (λ rounds s s' w u rest h later v.
          let (v', k) = EndsTurn-at feed laws hints (recv_round-Route s w v) h in
          let (res, s'', u', e, route) = later v' in
          (
            res,
            s'',
            u',
            e,
            Route-more all_fallbacks (omega arith) (Route-append all_fallbacks k route),
          ))
