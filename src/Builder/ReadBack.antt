-- ===== src/Builder/ReadBack.antt =====
-- What the provider of src/robust_provider/provider.rs tells of the settings that were made through
-- its builder, that of src/robust_provider/builder.rs.
use robust_provider.Prelude.{◌*◌, ◌≡◌, ap₂, subst, false, List, ◌∷◌}
use robust_provider.Runtime.{World, done, ok}
use robust_provider.Provider.{RobustProvider}
use robust_provider.Provider.Accessors
use robust_provider.Builder.{ProviderFuture, IntoRootProvider, RobustProviderBuilder, new, build}
use robust_provider.Builder.Build.{AllConnect, futures, build-Assembled}
use robust_provider.Builder.Settings.{
  Setting, apply_all, or_before, last_set, added, sets_call_timeout, sets_subscription_timeout,
  sets_max_retries, sets_min_delay, sets_reconnect_interval, sets_buffer_capacity,
  sets_poll_interval, sets_allow_http, apply_all-Takes, fallbacks-apply_all, primary-apply_all,
}

module _ {P T : Type 0} where
  -- Every setting is that of the last call that made it, or the documented default.
  abbrev pub ReadsBack : List (Setting P T) → RobustProvider P → Type 0
  ReadsBack calls self =
      (Accessors.call_timeout self ≡ or_before (last_set sets_call_timeout calls) (60 * 1000))
      × (Accessors.max_retries self ≡ or_before (last_set sets_max_retries calls) 3)
      × (Accessors.min_delay self ≡ or_before (last_set sets_min_delay calls) 1000)
      × (self.subscription_timeout
          ≡ or_before (last_set sets_subscription_timeout calls) (120 * 1000))
      × (self.reconnect_interval ≡ or_before (last_set sets_reconnect_interval calls) (30 * 1000))
      × (self.subscription_buffer_capacity ≡ or_before (last_set sets_buffer_capacity calls) 128)
      × (self.poll_interval ≡ or_before (last_set sets_poll_interval calls) (12 * 1000))
      × (self.allow_http_subscriptions ≡ or_before (last_set sets_allow_http calls) false)

  -- Whatever methods of a new builder are called, and in whatever order, the provider that is built
  -- tells of each setting the value of the last call that made it, or the documented default; and its
  -- providers are those that the primary one and the fallbacks connected to, in the order in which they were added.
  pub build-ReadsBack :
      {F : Type 0} (conversion : IntoRootProvider P T F) (provider : F) (calls : List (Setting P T))
      (self : RobustProvider P) (w u : World P)
      → build conversion (apply_all calls (new provider)) w ≡ done (ok self) u
      → ReadsBack calls self
        × AllConnect
            (conversion.into_root_provider provider ∷ added calls)
            w
            (Accessors.primary self ∷ Accessors.fallback_providers self)
            u
  unfolding new Accessors.primary Accessors.fallback_providers Accessors.call_timeout
      Accessors.max_retries Accessors.min_delay
  build-ReadsBack {F} conversion provider calls self w u h =
      let b : RobustProviderBuilder P T F = apply_all calls (new provider) in
      let (ps, c, (primary, fallbacks, e, made)) = build-Assembled conversion b self w u h in
      let (a, t, r, d, i, n, p, l) = apply_all-Takes calls (new {T = T} provider) in
      let all : conversion.into_root_provider b.primary_provider ∷ b.fallback_providers
          ≡ conversion.into_root_provider provider ∷ added calls =
        ap₂ (λ (x : F) (fs : List (ProviderFuture P T)). conversion.into_root_provider x ∷ fs)
          (primary-apply_all calls (new provider)) (fallbacks-apply_all calls (new provider)) in
      rw made (
        (a, r, d, t, i, n, p, l),
        subst (λ (fs : List (ProviderFuture P T)). AllConnect fs w (primary ∷ fallbacks) u) all
            (subst (λ (ps : List P). AllConnect (futures conversion b) w ps u) e c),
      )
