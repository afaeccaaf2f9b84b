-- ===== src/Subscription/Homeward.antt =====
-- That `recv` of src/robust_provider/subscription.rs brings a subscription back to the primary
-- provider in time.
use robust_provider.Prelude.{
  ℕ, ◌+◌, ◌-◌, ◌<◌, ◌≡◌, refl, sym, ap, subst, ◌∙◌, true, false, Bool, Option, none, some, inl, inr,
  ◌⊎◌, arith,
}
use robust_provider.Errors.{Error}
use robust_provider.Errors.Classify.{RetryHints}
use robust_provider.Runtime.{World, done, Result, ok, err, Runtime, RuntimeLaws}
use robust_provider.Provider.{RobustProvider}
use robust_provider.Subscription.Connect.{Subscription}
use robust_provider.Subscription.Loop.{
  Rounds, at_call, goes_on, recv-by_rounds, same-Returned, out-ne-Returned,
}
use robust_provider.Subscription.Noted.{
  PrimaryAccepts, NotedFrom, accepts-ne-refused, continues-NotedFrom,
}
use robust_provider.Subscription.Reconnect.{Attempted, not_due, back, refused}
use robust_provider.Subscription.Recv.{returns, continues, receive, recv_round, recv}
use robust_provider.Subscription.Round.{
  OnlyBackend, Reacted, delivered, passed_on, switched, EndsTurnIn-at, EndsTurn-at, recv_round-ends,
}
use robust_provider.Subscription.Valid.{IsValid, OnlyBackend-IsValid, recv_round-IsValid}
use robust_provider.Subscription.{Feed, is_some, is_on_fallback}

lt-of-monus : (interval now last : ℕ) → now - last < interval → now < last + interval
lt-of-monus interval now last h = omega arith

is_some-none : (index : Option ℕ) → is_some index ≡ false → index ≡ none
is_some-none none h = refl
is_some-none (some i) h = cc

module _ {P T : Type 0} (feed : Feed P T) {rt : Runtime P} (laws : RuntimeLaws rt)
    (hints : RetryHints T) (self : RobustProvider P) where
  -- The subscription is on the primary provider; or the header that the call returned came before
  -- `reconnect_interval` had passed since the noted time.
  abbrev pub NearHome : feed.Header → Subscription feed → World P → Subscription feed → Type 0
  NearHome header s w s' =
      (s'.current_fallback_index ≡ none)
      ⊎ ((before : Subscription feed) × (last : ℕ) × (v v' : World P) × Rounds feed rt hints s w
            before v
          × (receive feed rt hints before v ≡ done (ok header, s') v')
          × (s'.last_reconnect_attempt ≡ some last)
          × NotedFrom feed laws hints self s w last
          × (v'.now < last + self.reconnect_interval))

  Attempted-NearHome :
      (before s s' : Subscription feed) (header : feed.Header) (b : Bool) (w v u : World P)
      → PrimaryAccepts feed laws hints self
      → IsValid feed self s
      → is_on_fallback s ≡ true
      → OnlyBackend feed laws hints before s
      → receive feed rt hints before w ≡ done (ok header, s) v
      → Attempted feed laws hints false v s b s' u
      → NearHome header before w s'
  Attempted-NearHome before s s' header b w v u accepts valid on only came
        (back backend _ _ _ same) =
      rw same (inl refl)
  Attempted-NearHome before s s' header b w v u accepts valid on only came (refused d _ x _ _) =
      absurd (
        accepts-ne-refused feed laws hints self d s.robust_provider v u accepts valid.same_provider
          x)
  Attempted-NearHome before s s' header b w v u accepts valid on only came
        (not_due (_, inl unnoted) _ same _) =
      absurd (unarmed s.last_reconnect_attempt unnoted (valid.armed on))
    where
      unarmed : (noted : Option ℕ) → noted ≡ none → ¬ (is_some noted ≡ true)
      unarmed none e armed = cc
      unarmed (some last) e armed = cc
  Attempted-NearHome before s s' header b w v u accepts valid on (channel, only) came
        (not_due (_, inr (last, noted, early)) _ same _) =
      rw same (
        inr (
          before,
          last,
          w,
          v,
          at_call,
          came,
          noted,
          inl (sym (ap (λ (x : Subscription feed). x.last_reconnect_attempt) only) ∙ noted),
          lt-of-monus self.reconnect_interval v.now last (rw valid.same_provider at early),
        ))

  recv_round-NearHome :
      (s s' : Subscription feed) (header : feed.Header) (w u : World P)
      → PrimaryAccepts feed laws hints self
      → IsValid feed self s
      → recv_round feed rt hints s w ≡ done (returns (ok header) s') u
      → NearHome header s w s'
  recv_round-NearHome s s' header w u accepts valid h =
      let (res, s₁, v, e, o, round) = recv_round-ends feed laws hints s w in
      go res s₁ v e o (OnlyBackend-IsValid feed self laws hints s s₁ o valid)
        (EndsTurnIn-at feed laws hints round h)
    where
      delivers :
          (s₁ s'' : Subscription feed) (b : Bool) (v : World P)
          → OnlyBackend feed laws hints s s₁
          → IsValid feed self s₁
          → receive feed rt hints s w ≡ done (ok header, s₁) v
          → ((is_on_fallback s₁ ≡ false) × (s'' ≡ s₁) × (u ≡ v))
            ⊎ ((is_on_fallback s₁ ≡ true) × Attempted feed laws hints false v s₁ b s'' u)
          → NearHome header s w s''
      delivers s₁ s'' b v o valid₁ came (inl (off, same, _)) =
          rw same (inl (is_some-none s₁.current_fallback_index off))
      delivers s₁ s'' b v o valid₁ came (inr (on, k)) =
          Attempted-NearHome s s₁ s'' header b w v u accepts valid₁ on o came k

      go :
          (res : Result feed.Header (Error T)) (s₁ : Subscription feed) (v : World P)
          → receive feed rt hints s w ≡ done (res, s₁) v
          → OnlyBackend feed laws hints s s₁
          → IsValid feed self s₁
          → Reacted feed laws hints v res s₁ (returns (ok header) s') u
          → NearHome header s w s'
      go res s₁ v e o valid₁ (delivered other b s'' r k h) =
          let same : other ≡ header = cc in
          let here : s'' ≡ s' = cc in
          let came =
            e ∙ ap (λ (x : Result feed.Header (Error T)). done (x, s₁) v) (r ∙ ap ok same) in
          subst (NearHome header s w) here (delivers s₁ s'' b v o valid₁ came k)
      go res s₁ v e o valid₁ (passed_on d _ _ h _) = cc
      go res s₁ v e o valid₁ (switched d x (ok _) s'' _ _ _ h) = cc
      go res s₁ v e o valid₁ (switched d x (err _) s'' _ _ _ h) = cc

  more-NearHome :
      (s s'' s' : Subscription feed) (header : feed.Header) (w u : World P)
      → PrimaryAccepts feed laws hints self
      → IsValid feed self s
      → recv_round feed rt hints s w ≡ done (continues s'') u
      → NearHome header s'' u s'
      → NearHome header s w s'
  more-NearHome s s'' s' header w u accepts valid h (inl home) = inl home
  more-NearHome s s'' s' header w u accepts valid h
        (inr (before, last, v, v', rounds, came, noted, inl held, early)) =
      inr (
        before,
        last,
        v,
        v',
        goes_on h rounds,
        came,
        noted,
        continues-NotedFrom feed laws hints self s s'' w u last accepts valid h held,
        early,
      )
  more-NearHome s s'' s' header w u accepts valid h
        (inr (
          before,
          last,
          v,
          v',
          rounds,
          came,
          noted,
          inr (b, s₁, x, x', e, rs, failed, off, at),
          early,
        )) =
      inr (
        before,
        last,
        v,
        v',
        goes_on h rounds,
        came,
        noted,
        inr (b, s₁, x, x', e, goes_on h rs, failed, off, at),
        early,
      )

  -- While the primary provider takes the subscription whenever it is asked, `recv` returns a header
  -- to a valid subscription on a fallback, and leaves it there, only if the header came before
  -- `reconnect_interval` had passed since the time that the subscription has noted. That is the time
  -- that it had noted when `recv` was called, or else the one at which the primary provider's channel
  -- failed in that call. After any other header it is on the primary provider.
  pub recv-NearHome :
      (rounds : ℕ) (s s' : Subscription feed) (header : feed.Header) (w u : World P)
      → PrimaryAccepts feed laws hints self
      → IsValid feed self s
      → recv feed rt hints rounds s w ≡ done (some (ok header), s') u
      → NearHome header s w s'
  recv-NearHome rounds s s' header w u accepts =
      recv-by_rounds feed laws hints
        (λ rounds s w run.
          IsValid feed self s → run ≡ done (some (ok header), s') u → NearHome header s w s')
        (λ s w valid h. absurd (out-ne-Returned feed laws hints h))
        (λ rounds s s'' w v result e valid h.
          recv_round-NearHome s s' header w v accepts valid (e ∙ same-Returned feed laws hints h))
        (λ rounds s s'' w v rest e later valid h.
          more-NearHome s s'' s' header w v accepts valid e (
            later
              (EndsTurn-at feed laws hints (recv_round-IsValid feed self laws hints s w valid) e)
              h))
        rounds s w
