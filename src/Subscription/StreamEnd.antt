-- ===== src/Subscription/StreamEnd.antt =====
-- When the stream of src/robust_provider/subscription.rs ends, and what it holds after each item.
use robust_provider.Prelude.{ℕ, ◌≡◌, refl, Option, none}
use robust_provider.Errors.Classify.{RetryHints}
use robust_provider.Runtime.{World, done, Runtime, RuntimeLaws, ◌>>=◌}
use robust_provider.Provider.{RobustProvider}
use robust_provider.Subscription.Connect.{Subscription}
use robust_provider.Subscription.Stream.{
  RobustSubscriptionStream, Poll, ready, Item, to_poll, into_stream, poll_next,
}
use robust_provider.Subscription.StreamItems.{poll_next-recv, to_item-none}
use robust_provider.Subscription.Valid.{IsValid, recv-IsValid}
use robust_provider.Subscription.{Feed}
use robust_provider.Subscription.Closed.{Abandoned, recv-Abandoned}

module _ {P T : Type 0} (feed : Feed P T) {rt : Runtime P} (laws : RuntimeLaws rt)
    (hints : RetryHints T) where
  -- A poll ends the stream only when, in the round that it has come to, the present provider's channel
  -- was found closed, the primary provider then refused the subscription, if it was on a fallback, and
  -- at last every fallback after the present one refused it, in order. The subscription is left where
  -- it was, with the time of the last attempt noted.
  pub poll_next-Abandoned :
      (rounds : ℕ) (stream stream' : RobustSubscriptionStream (Subscription feed)) (w u : World P)
      → poll_next feed rt hints rounds stream w ≡ done (ready none, stream') u
      → Abandoned feed laws hints stream.inner w stream'.inner u
  poll_next-Abandoned rounds stream stream' w u h =
      let (r, e, made) = poll_next-recv feed rt hints rounds stream stream' none w u h in
      recv-Abandoned feed laws hints rounds stream.inner stream'.inner w u
        (rw (to_item-none feed rt hints r made) at e)

  -- Whatever the item, a stream over a valid subscription is left over a valid one.
  pub poll_next-IsValid :
      (self : RobustProvider P) (rounds : ℕ) (stream : RobustSubscriptionStream (Subscription feed))
      (w : World P)
      → IsValid feed self stream.inner
      → (item : Poll (Option (Item feed rt hints))) × (stream' : RobustSubscriptionStream
          (Subscription feed))
        × (u : World P) × (poll_next feed rt hints rounds stream w ≡ done (item, stream') u)
        × IsValid feed self stream'.inner
  unfolding poll_next into_stream
  poll_next-IsValid self rounds stream w v =
      let (result, s', u, e, k) = recv-IsValid feed self laws hints rounds stream.inner w v in
      (to_poll feed rt hints result, record { inner = s' }, u, rw (e, ◌>>=◌) refl, k)
