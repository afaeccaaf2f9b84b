-- ===== src/Subscription/StreamItems.antt =====
-- The items of the stream of src/robust_provider/subscription.rs, against calls of `recv`.
use robust_provider.Prelude.{ℕ, ◌≡◌, ◌≢◌, ◌↔◌, refl, ap, ◌∙◌, Option, none, some, List, [], ◌∷◌}
use robust_provider.Errors.{Error}
use robust_provider.Errors.Classify.{RetryHints}
use robust_provider.Runtime.{World, Run, done, ok, err, Runtime, pure, ◌>>=◌}
use robust_provider.Runtime.Calls.{bind-ends}
use robust_provider.Subscription.Connect.{Subscription}
use robust_provider.Subscription.Recv.{recv}
use robust_provider.Subscription.Stream.{
  RobustSubscriptionStream, Poll, ready, Item, to_item, to_poll, into_stream, poll_next,
}
use robust_provider.Subscription.{Feed}

module _ {P T : Type 0} (feed : Feed P T) (rt : Runtime P) (hints : RetryHints T) where
  abbrev pub Stream : Type 0
  Stream = RobustSubscriptionStream (Subscription feed)

  -- The items that the stream gives, poll by poll, each in any world.
  pub data Yields : Stream → List (Item feed rt hints) → Stream → Type 0 where
    yet_unpolled : {stream : Stream} → Yields stream [] stream
    yields :
        {stream stream' stream'' : Stream} {item : Item feed rt hints}
        {items : List (Item feed rt hints)} (rounds : ℕ) (w u : World P)
        → poll_next feed rt hints rounds stream w ≡ done (ready (some item), stream') u
        → Yields stream' items stream''
        → Yields stream (item ∷ items) stream''

  -- What calls of `recv` return, one after the other, none of them `Closed`.
  pub data Receives
      : Subscription feed → List (Item feed rt hints) → Subscription feed → Type 0 where
    yet_uncalled : {s : Subscription feed} → Receives s [] s
    returned :
        {s s' s'' : Subscription feed} {item : Item feed rt hints}
        {items : List (Item feed rt hints)} (rounds : ℕ) (w u : World P)
        → recv feed rt hints rounds s w ≡ done (some item, s') u
        → item ≢ err Error.closed
        → Receives s' items s''
        → Receives s (item ∷ items) s''

  to_item-some :
      (item : Item feed rt hints) → item ≢ err Error.closed → to_item feed rt hints item ≡ some item
  to_item-some (ok header) goes_on = refl
  to_item-some (err Error.closed) goes_on = absurd (goes_on refl)
  to_item-some (err Error.timeout) goes_on = refl
  to_item-some (err (Error.rpc_error e)) goes_on = refl
  to_item-some (err Error.block_not_found) goes_on = refl
  to_item-some (err (Error.lagged count)) goes_on = refl

  -- An item is the result of `recv`, and only `Closed` is none.
  to_poll-ready :
      (result : Option (Item feed rt hints)) (item : Option (Item feed rt hints))
      → to_poll feed rt hints result ≡ ready item
      → (r : Item feed rt hints) × (result ≡ some r) × (to_item feed rt hints r ≡ item)
  to_poll-ready none item h = cc
  to_poll-ready (some r) item h = (r, refl, cc)

  to_item-same :
      (r item : Item feed rt hints)
      → to_item feed rt hints r ≡ some item
      → (r ≡ item) × (r ≢ err Error.closed)
  to_item-same (ok header) item h = (cc, λ x. cc)
  to_item-same (err Error.closed) item h = cc
  to_item-same (err Error.timeout) item h = (cc, λ x. cc)
  to_item-same (err (Error.rpc_error e)) item h = (cc, λ x. cc)
  to_item-same (err Error.block_not_found) item h = (cc, λ x. cc)
  to_item-same (err (Error.lagged count)) item h = (cc, λ x. cc)

  pub to_item-none :
      (r : Item feed rt hints) → to_item feed rt hints r ≡ none → r ≡ err Error.closed
  to_item-none (ok header) h = cc
  to_item-none (err Error.closed) h = refl
  to_item-none (err Error.timeout) h = cc
  to_item-none (err (Error.rpc_error e)) h = cc
  to_item-none (err Error.block_not_found) h = cc
  to_item-none (err (Error.lagged count)) h = cc

  -- A poll that is ready has had `recv` return.
  pub poll_next-recv :
      (rounds : ℕ) (stream stream' : Stream) (item : Option (Item feed rt hints)) (w u : World P)
      → poll_next feed rt hints rounds stream w ≡ done (ready item, stream') u
      → (r : Item feed rt hints) × (recv feed rt hints rounds stream.inner w
          ≡ done (some r, stream'.inner) u)
        × (to_item feed rt hints r ≡ item)
  unfolding poll_next into_stream
  poll_next-recv rounds stream stream' item w u h =
      let ((result, s'), v, e, k) =
        bind-ends (recv feed rt hints rounds stream.inner)
          (λ (result, rx). pure (to_poll feed rt hints result, into_stream feed rx)) w
          (ready item, stream') u h in
      let (r, came, same) = polled result s' v k in (r, e ∙ came, same)
    where
      polled :
          (result : Option (Item feed rt hints)) (s' : Subscription feed) (v : World P)
          → ◌≡◌ {A = Run P (Poll (Option (Item feed rt hints)) × Stream)}
              (done (to_poll feed rt hints result, record { inner = s' }) v)
              (done (ready item, stream') u)
          → (r : Item feed rt hints) × (◌≡◌
              {A = Run P (Option (Item feed rt hints) × Subscription feed)}
              (done (result, s') v)
              (done (some r, stream'.inner) u))
            × (to_item feed rt hints r ≡ item)
      polled result s' v k =
          let (r, came, same) = to_poll-ready result item cc in
          let here : ◌≡◌ {A = Stream} (record { inner = s' }) stream' = cc in
          let inside = ap (λ (t : Stream). t.inner) here in
          let time : v ≡ u = cc in (r, rw (came, inside, time) refl, same)

  recv-poll_next :
      (rounds : ℕ) (s s' : Subscription feed) (r : Item feed rt hints) (w u : World P)
      → recv feed rt hints rounds s w ≡ done (some r, s') u
      → poll_next feed rt hints rounds (into_stream feed s) w
        ≡ done (ready (to_item feed rt hints r), into_stream feed s') u
  unfolding poll_next into_stream
  recv-poll_next rounds s s' r w u h = rw (h, ◌>>=◌) refl

  Yields-Receives :
      {stream stream' : Stream} {items : List (Item feed rt hints)}
      → Yields stream items stream'
      → Receives stream.inner items stream'.inner
  Yields-Receives yet_unpolled = yet_uncalled
  Yields-Receives {stream} (yields {stream' = stream'} {item = item} rounds w u h rest) =
      let (r, e, made) = poll_next-recv rounds stream stream' (some item) w u h in
      let (same, goes_on) = to_item-same r item made in
      returned rounds w u (rw same at e) (rw same at goes_on) (Yields-Receives rest)

  Receives-Yields :
      {s s' : Subscription feed} {items : List (Item feed rt hints)}
      → Receives s items s'
      → Yields (into_stream feed s) items (into_stream feed s')
  Receives-Yields yet_uncalled = yet_unpolled
  Receives-Yields {s} (returned {s' = s'} {item = item} rounds w u h goes_on rest) =
      yields rounds w u (rw (to_item-some item goes_on) at (recv-poll_next rounds s s' item w u h))
        (Receives-Yields rest)

  -- The stream gives the same items as calls of `recv` on the subscription return, errors included,
  -- up to the first `Closed`, and leaves the same subscription; it ends exactly where `recv` returns
  -- `Closed`.
  pub into_stream-Receives :
      (s s' : Subscription feed) (items : List (Item feed rt hints))
      → (Yields (into_stream feed s) items (into_stream feed s') ↔ Receives s items s')
        × ((rounds : ℕ) (s'' : Subscription feed) (w u : World P)
            → (poll_next feed rt hints rounds (into_stream feed s') w
                ≡ done (ready none, into_stream feed s'') u)
              ↔ (recv feed rt hints rounds s' w ≡ done (some (err Error.closed), s'') u))
  unfolding into_stream
  into_stream-Receives s s' items = (
    (Yields-Receives, Receives-Yields),
    λ rounds s'' w u. (
      λ h.
          let (r, e, made) =
            poll_next-recv rounds (into_stream feed s') (into_stream feed s'') none w u h in
          rw (to_item-none r made) at e,
      λ h. recv-poll_next rounds s' s'' (err Error.closed) w u h,
    ),
  )
