-- ===== src/Subscription/Cancel.antt =====
-- A call of `recv` of src/robust_provider/subscription.rs that is dropped at one of its awaits, by a
-- `select!` or a timeout of the caller, and what it leaves behind `&mut self`.
pub mod Stays
use robust_provider.Prelude.{Bool, ℕ, ◌≡◌, refl, sym, ◌∙◌, true, false, Option, some}
use robust_provider.Errors.{Error, FailoverError}
use robust_provider.Errors.Classify.{RetryHints}
use robust_provider.Runtime.{World, Run, done, Result, ok, err, Runtime, RuntimeLaws, await_answer}
use robust_provider.Provider.{RobustProvider}
use robust_provider.Subscription.Connect.{Subscription, is_due, or_now, try_reconnect_to_primary}
use robust_provider.Subscription.Recv.{continues, Received, receive, recv_round}
use robust_provider.Subscription.Reconnect.{try_reconnect-Attempted}
use robust_provider.Subscription.Round.{cause, EndsTurn-at, received-OnlyBackend}
use robust_provider.Subscription.Switch.{or_now-some}
use robust_provider.Subscription.Valid.{
  IsValid, OnlyBackend-IsValid, Attempted-IsValid, recv_round-IsValid,
}
use robust_provider.Subscription.{Feed, http_polling, is_on_fallback}

module _ {P T : Type 0} (feed : Feed P T) (rt : Runtime P) (hints : RetryHints T) where
  -- Where `switch_to_fallback` goes through the fallbacks: at once, or after the primary provider
  -- has refused to take the subscription back.
  pub data AtFallbacks (s : Subscription feed) (w : World P)
      : Subscription feed → World P → Type 0 where
    at_once : is_on_fallback s ≡ false → AtFallbacks s w s w
    after_primary :
        {s' : Subscription feed} {u : World P}
        → is_on_fallback s ≡ true
        → try_reconnect_to_primary feed rt hints true s w ≡ done (false, s') u
        → AtFallbacks s w s' u

  -- What a `recv` that is dropped in its first round leaves, by the await at which it stands.
  -- tokio's channels lose nothing when a receive is dropped.
  pub data Dropped : Subscription feed → World P → Subscription feed → Type 0 where
    -- `sub.recv()` on either kind of channel.
    at_message : {s : Subscription feed} {w : World P} → Dropped s w s
    -- `get_block_by_hash`, with the hash taken.
    at_block :
        {s : Subscription feed} (w v : World P) (rx rx' : feed.Receiver) (hash : feed.BlockHash)
        → s.backend ≡ http_polling rx
        → rt.timeout
            (Option feed.BlockHash × feed.Receiver)
            s.robust_provider.subscription_timeout
            (λ w. await_answer (feed.recv_hash rx w) w)
            w
          ≡ done (ok (some hash, rx')) v
        → Dropped s w (record s { backend = http_polling rx' })
    -- `try_reconnect_to_primary(false)`, after a header.
    at_reconnect :
        {s s' : Subscription feed} {w : World P} (v : World P) (header : feed.Header)
        → receive feed rt hints s w ≡ done (ok header, s') v
        → is_on_fallback s' ≡ true
        → is_due feed rt hints s'.last_reconnect_attempt s'.robust_provider.reconnect_interval v.now
          ≡ true
        → Dropped s w s'
    -- `try_reconnect_to_primary(true)`, at the beginning of a switch.
    at_primary :
        {s s' : Subscription feed} {w : World P} (v : World P) (e : Error T) (d : FailoverError T)
        → receive feed rt hints s w ≡ done (err e, s') v
        → cause e ≡ some d
        → is_on_fallback s' ≡ true
        → Dropped s w s'
    -- `try_provider_with_timeout` on a fallback, the time of the last attempt being noted.
    at_fallback :
        {s s' s'' : Subscription feed} {w u : World P} (v : World P) (e : Error T)
        (d : FailoverError T)
        → receive feed rt hints s w ≡ done (err e, s') v
        → cause e ≡ some d
        → AtFallbacks s' v s'' u
        → Dropped s w (record s'' {
          last_reconnect_attempt = or_now feed rt hints s''.last_reconnect_attempt u.now;
        })

  pub data Cancelled : Subscription feed → World P → Subscription feed → Type 0 where
    in_first_round : {s t : Subscription feed} {w : World P} → Dropped s w t → Cancelled s w t
    -- An await of a later round.
    in_later_round :
        {s s' t : Subscription feed} {w : World P} (u : World P)
        → recv_round feed rt hints s w ≡ done (continues s') u
        → Cancelled s' u t
        → Cancelled s w t

module _ {P T : Type 0} (feed : Feed P T) {rt : Runtime P} (laws : RuntimeLaws rt)
    (hints : RetryHints T) (self : RobustProvider P) where
  received-IsValid :
      (s s' : Subscription feed) (w v : World P) (res : Result feed.Header (Error T))
      → IsValid feed self s
      → receive feed rt hints s w ≡ done (res, s') v
      → IsValid feed self s'
  received-IsValid s s' w v res valid h =
      OnlyBackend-IsValid feed self laws hints s s'
        (received-OnlyBackend feed laws hints s s' w v res h) valid

  AtFallbacks-IsValid :
      (s s' : Subscription feed) (w u : World P)
      → IsValid feed self s
      → AtFallbacks feed rt hints s w s' u
      → IsValid feed self s'
  AtFallbacks-IsValid s s' w u valid (at_once off) = valid
  AtFallbacks-IsValid s s' w u valid (after_primary on h) =
      let (b, s'', v, e, attempted) = try_reconnect-Attempted feed laws hints true s w in
      let run : ◌≡◌ {A = Run P (Bool × Subscription feed)} (done (b, s'') v) (done (false, s') u) =
        sym e ∙ h in
      let same : s'' ≡ s' = cc in
      rw same at (Attempted-IsValid feed self laws hints true w s s'' b attempted valid)

  noted-IsValid :
      (s : Subscription feed) (now : ℕ)
      → IsValid feed self s
      → IsValid feed self
          (record s { last_reconnect_attempt = or_now feed rt hints s.last_reconnect_attempt now })
  noted-IsValid s now valid =
      let (t, noted) = or_now-some feed laws hints s.last_reconnect_attempt now in
      record {
        same_provider = valid.same_provider;
        in_range = valid.in_range;
        armed = λ on. rw noted refl;
      }

  Dropped-IsValid :
      {s t : Subscription feed} {w : World P}
      → IsValid feed self s
      → Dropped feed rt hints s w t
      → IsValid feed self t
  Dropped-IsValid valid at_message = valid
  Dropped-IsValid valid (at_block w v rx rx' hash on h) =
      OnlyBackend-IsValid feed self laws hints _ _ (http_polling rx', refl) valid
  Dropped-IsValid {s} {t} {w} valid (at_reconnect v header h on due) =
      received-IsValid s t w v (ok header) valid h
  Dropped-IsValid {s} {t} {w} valid (at_primary v e d h c on) =
      received-IsValid s t w v (err e) valid h
  Dropped-IsValid {s} {w = w} valid (at_fallback {s' = s'} {s'' = s''} {u = u} v e d h c at) =
      noted-IsValid s'' u.now
        (AtFallbacks-IsValid s' s'' v u (received-IsValid s s' w v (err e) valid h) at)

  pub Cancelled-IsValid :
      {s t : Subscription feed} {w : World P}
      → IsValid feed self s
      → Cancelled feed rt hints s w t
      → IsValid feed self t
  Cancelled-IsValid valid (in_first_round dropped) = Dropped-IsValid valid dropped
  Cancelled-IsValid {s} {w = w} valid (in_later_round {s' = s'} u h later) =
      Cancelled-IsValid
        (EndsTurn-at feed laws hints (recv_round-IsValid feed self laws hints s w valid) h) later
