-- ===== src/Subscription/Lifetime.antt =====
-- A subscription of src/robust_provider/subscription.rs through its life: `subscribe_blocks` starts
-- it, and `recv` is called on it, by itself or as a stream, any number of times, and perhaps given up.
use robust_provider.Prelude.{ℕ, ◌≡◌, sym, ◌∙◌, Option}
use robust_provider.Errors.{Error}
use robust_provider.Errors.Classify.{RetryHints}
use robust_provider.Errors.Convert.{error_from_failover}
use robust_provider.Runtime.{World, Run, done, Result, ok, err, Runtime, RuntimeLaws}
use robust_provider.Provider.{RobustProvider}
use robust_provider.Subscription.Cancel.{Cancelled, Cancelled-IsValid}
use robust_provider.Subscription.Connect.{Subscription, subscribe_blocks}
use robust_provider.Subscription.Recv.{recv}
use robust_provider.Subscription.Start.{Started, subscribes, refuses, subscribe_blocks-Started}
use robust_provider.Subscription.Stream.{RobustSubscriptionStream, Poll, Item, poll_next}
use robust_provider.Subscription.StreamEnd.{poll_next-IsValid}
use robust_provider.Subscription.Valid.{IsValid, recv-IsValid}
use robust_provider.Subscription.{Feed}

module _ {P T : Type 0} (feed : Feed P T) (rt : Runtime P) (hints : RetryHints T)
    (self : RobustProvider P) where
  -- What a subscription of this provider can come to. The world at a call is any at all: other
  -- calls and the passing of time lie between.
  pub data Lives : Subscription feed → Type 0 where
    starts :
        (s : Subscription feed) (w u : World P)
        → subscribe_blocks feed rt hints self w ≡ done (ok s) u
        → Lives s
    receives :
        (rounds : ℕ) (s s' : Subscription feed) (w u : World P)
        (result : Option (Result feed.Header (Error T)))
        → Lives s
        → recv feed rt hints rounds s w ≡ done (result, s') u
        → Lives s'
    -- The future of `recv` is dropped at one of its awaits.
    gives_up :
        {s s' : Subscription feed} (w : World P)
        → Lives s
        → Cancelled feed rt hints s w s'
        → Lives s'
    streams :
        (rounds : ℕ) (stream stream' : RobustSubscriptionStream (Subscription feed)) (w u : World P)
        (item : Poll (Option (Item feed rt hints)))
        → Lives stream.inner
        → poll_next feed rt hints rounds stream w ≡ done (item, stream') u
        → Lives stream'.inner

module _ {P T : Type 0} (feed : Feed P T) {rt : Runtime P} (laws : RuntimeLaws rt)
    (hints : RetryHints T) (self : RobustProvider P) where
  started-IsValid :
      (s : Subscription feed) (w u : World P)
      → subscribe_blocks feed rt hints self w ≡ done (ok s) u
      → IsValid feed self s
  started-IsValid s w u h = go (subscribe_blocks-Started feed laws hints self w)
    where
      go :
          Started feed laws hints self w (subscribe_blocks feed rt hints self w)
          → IsValid feed self s
      go (subscribes backend s' v first same valid off unset r) =
          let here : s' ≡ s = now (sym r ∙ h) in rw here at valid
        where
          now :
              ◌≡◌ {A = Run P (Result (Subscription feed) (Error T))}
                (done (ok s') v)
                (done (ok s) u)
              → s' ≡ s
          now x = cc
      go (refuses d v all r) = absurd (clash (sym r ∙ h))
        where
          clash : ¬ (
              ◌≡◌ {A = Run P (Result (Subscription feed) (Error T))}
                (done (err (error_from_failover d)) v)
                (done (ok s) u))
          clash x = cc

  -- Throughout its life, whatever the nodes and channels do, and also if calls of `recv` are dropped
  -- at any of their awaits, a subscription keeps its provider, the index of its fallback is one of
  -- the provider's, and on a fallback the timer of the reconnection to the primary provider runs.
  pub Lives-IsValid : (s : Subscription feed) → Lives feed rt hints self s → IsValid feed self s
  Lives-IsValid _ (starts s w u h) = started-IsValid s w u h
  Lives-IsValid _ (receives rounds s s' w u result alive h) =
      let (result', s'', u', e, valid) =
        recv-IsValid feed self laws hints rounds s w (Lives-IsValid s alive) in
      let run : (◌≡◌ {A = Run P (Option (Item feed rt hints) × Subscription feed)}
          (done (result', s'') u') (done (result, s') u)) =
        sym e ∙ h in
      let here : s'' ≡ s' = cc in rw here at valid
  Lives-IsValid _ (gives_up {s} w alive cancelled) =
      Cancelled-IsValid feed laws hints self (Lives-IsValid s alive) cancelled
  Lives-IsValid _ (streams rounds stream stream' w u item alive h) =
      let (item', stream'', u', e, valid) =
        poll_next-IsValid feed laws hints self rounds stream w (Lives-IsValid stream.inner alive) in
      let run : (◌≡◌
          {A = Run P
            (Poll (Option (Item feed rt hints)) × RobustSubscriptionStream (Subscription feed))}
          (done (item', stream'') u') (done (item, stream') u)) =
        sym e ∙ h in
      let here : (◌≡◌ {A = RobustSubscriptionStream (Subscription feed)} stream'' stream') = cc in
      rw here at valid
