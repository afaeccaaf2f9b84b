-- ===== src/Subscription/Cancel/Stays.antt =====
-- What a dropped call of `recv` of src/robust_provider/subscription.rs leaves of the channel.
use robust_provider.Prelude.{◌≡◌, refl, sym, ◌∙◌, ap, inl, inr, ◌⊎◌, true, false, Bool}
use robust_provider.Errors.{Error}
use robust_provider.Errors.Classify.{RetryHints}
use robust_provider.Runtime.{World, Run, done, Result, ok, err, Runtime, RuntimeLaws, ◌>>=◌}
use robust_provider.Runtime.Laws.{timeout-done}
use robust_provider.Rpc.{robust_rpc_or}
use robust_provider.Subscription.Cancel.{
  AtFallbacks, at_once, after_primary, Dropped, at_message, at_block, at_reconnect, at_primary,
  at_fallback,
}
use robust_provider.Subscription.Connect.{Backend, Subscription}
use robust_provider.Subscription.Reconnect.{
  Attempted, not_due, back, refused, try_reconnect-Attempted,
}
use robust_provider.Subscription.Recv.{block_header, receive_from, receive}
use robust_provider.Subscription.Round.{received-OnlyBackend}
use robust_provider.Subscription.Stay.{SameChannel}
use robust_provider.Subscription.{Feed}

module _ {P T : Type 0} (feed : Feed P T) {rt : Runtime P} (laws : RuntimeLaws rt)
    (hints : RetryHints T) where
  -- What a wait has come to, with the channel that it leaves to another subscription.
  abbrev pub Waited : Subscription feed → World P → Subscription feed → Type 0
  Waited s w t =
      (res : Result feed.Header (Error T)) × (s₁ : Subscription feed) × (v : World P) × (receive
          feed rt hints s w
        ≡ done (res, s₁) v)
      × SameChannel feed laws hints s₁ t
      × (s₁.robust_provider ≡ s.robust_provider)

  received-same_provider :
      (s s₁ : Subscription feed) (w v : World P) (res : Result feed.Header (Error T))
      → receive feed rt hints s w ≡ done (res, s₁) v
      → s₁.robust_provider ≡ s.robust_provider
  received-same_provider s s₁ w v res h =
      let (b, only) = received-OnlyBackend feed laws hints s s₁ w v res h in
      ap (λ (x : Subscription feed). x.robust_provider) only

  AtFallbacks-SameChannel :
      (s s' : Subscription feed) (w u : World P)
      → AtFallbacks feed rt hints s w s' u
      → SameChannel feed laws hints s s'
  AtFallbacks-SameChannel s s' w u (at_once off) = (refl, refl)
  AtFallbacks-SameChannel s s' w u (after_primary on h) =
      let (b, s'', v, e, attempted) = try_reconnect-Attempted feed laws hints true s w in
      let run : ◌≡◌ {A = Run P (Bool × Subscription feed)} (done (b, s'') v) (done (false, s') u) =
        sym e ∙ h in
      let failed : b ≡ false = cc in
      let same : s'' ≡ s' = cc in rw same at (go s'' b attempted failed)
    where
      go :
          (s'' : Subscription feed) (b : Bool) {v : World P}
          → Attempted feed laws hints true w s b s'' v
          → b ≡ false
          → SameChannel feed laws hints s s''
      go s'' b (not_due _ _ kept _) failed = rw kept (refl, refl)
      go s'' b (refused _ _ _ _ kept) failed = rw kept (refl, refl)
      go s'' b (back _ _ _ succeeded _) failed = cc

  -- A call that is dropped in its first round leaves the channel as it was, or as the wait left it.
  pub Dropped-Stays :
      (s t : Subscription feed) (w : World P)
      → Dropped feed rt hints s w t
      → SameChannel feed laws hints s t ⊎ Waited s w t
  unfolding receive
  Dropped-Stays s t w at_message = inl (refl, refl)
  Dropped-Stays s t w (at_reconnect v header h on due) =
      inr (ok header, t, v, h, (refl, refl), received-same_provider s t w v (ok header) h)
  Dropped-Stays s t w (at_primary v e d h c on) =
      inr (err e, t, v, h, (refl, refl), received-same_provider s t w v (err e) h)
  Dropped-Stays s t w (at_fallback {s' = s'} {s'' = s''} {u = u} v e d h c at) = inr (
    err e,
    s',
    v,
    h,
    AtFallbacks-SameChannel s' s'' v u at,
    received-same_provider s s' w v (err e) h,
  )
  Dropped-Stays s t w (at_block w' v rx rx' hash on h) =
      let (r, u, e, _) =
        timeout-done laws (Result feed.Block (Error T)) s.robust_provider.subscription_timeout
          (robust_rpc_or rt hints s.robust_provider Error.block_not_found
            (feed.get_block_by_hash hash))
          v in
      inr (
        block_header feed rt hints r,
        t,
        u,
        ap (λ (b : Backend feed). receive_from feed rt hints b s w') on
            ∙ rw (h, ◌>>=◌) (rw (e, ◌>>=◌) refl),
        (refl, refl),
        refl,
      )
