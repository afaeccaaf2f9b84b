-- ===== src/Builder/Defaults.antt =====
-- What a builder of src/robust_provider/builder.rs, or a conversion of
-- src/robust_provider/provider_conversion.rs, promises of the calls through the provider it builds.
use robust_provider.Prelude.{
  ℕ, suc, ◌+◌, ◌*◌, ◌≤◌, ◌≡◌, refl, ap, ◌∙◌, false, List, [], ◌∷◌, ◌++◌, length, arith,
}
use robust_provider.Errors.{Error, FailoverError}
use robust_provider.Errors.Classify.{RetryHints}
use robust_provider.Runtime.{World, Run, done, hangs, Result, ok, err, Runtime, RuntimeLaws, ◌>>=◌}
use robust_provider.Provider.{RobustProvider, Operation, try_operation_with_failover}
use robust_provider.Provider.CallLog.{Walk, try_operation-Completes}
use robust_provider.Builder.{
  ProviderFuture, IntoRootProvider, RobustProviderBuilder, new, connect_each, assemble, build,
}
use robust_provider.Builder.Build.{AllConnect, futures, build-Assembled}
use robust_provider.Builder.Conversion.{with_defaults}

AllConnect-length :
    {P T : Type 0} (fs : List (ProviderFuture P T)) (w w' : World P) (ps : List P)
    → AllConnect fs w ps w'
    → length ps ≡ length fs
AllConnect-length [] w w' ps (e, _) = ap length e
AllConnect-length (f ∷ fs) w w' ps (p, rest, u, e, _, more) =
    ap length e ∙ ap suc (AllConnect-length fs u w' rest more)

-- The documented defaults, with no fallback: a minute for a call, two for a subscription, three
-- retries with a delay of at least a second, 30 seconds between attempts to reconnect, a buffer of
-- 128, and polling of HTTP providers off, with twelve seconds between the polls if it were on.
abbrev pub default_provider : {P : Type 0} → P → RobustProvider P
default_provider p = record {
  primary_provider = p;
  fallback_providers = [];
  call_timeout = 60 * 1000;
  subscription_timeout = 120 * 1000;
  max_retries = 3;
  min_delay = 1000;
  reconnect_interval = 30 * 1000;
  subscription_buffer_capacity = 128;
  poll_interval = 12 * 1000;
  allow_http_subscriptions = false;
}

module _ {P T F : Type 0} (conversion : IntoRootProvider P T F) where
  -- What a provider's own conversion comes to, with the defaults around a root provider.
  abbrev pub around_default :
      Run P (Result P (Error T)) → Run P (Result (RobustProvider P) (Error T))
  around_default (done (ok p) u) = done (ok (default_provider p)) u
  around_default (done (err e) u) = done (err e) u
  around_default (hangs u) = hangs u

  -- `into_robust_provider` connects what it is given, once, and puts the documented defaults around
  -- it, without a fallback; an error of the connection is its error.
  pub into_robust_provider-default :
      (source : F) (w : World P)
      → (with_defaults conversion).into_robust_provider source w
        ≡ around_default (conversion.into_root_provider source w)
  unfolding build new connect_each
  into_robust_provider-default source w = go (conversion.into_root_provider source w) refl
    where
      go :
          (run : Run P (Result P (Error T)))
          → conversion.into_root_provider source w ≡ run
          → (with_defaults conversion).into_robust_provider source w ≡ around_default run
      go (done (ok p) u) h = rw (h, ◌>>=◌) refl
      go (done (err e) u) h = rw (h, ◌>>=◌) refl
      go (hangs u) h = rw (h, ◌>>=◌) refl

  -- What a call through a provider that was built comes to, with the builder's settings, when it
  -- was built of these: the providers that it calls are the first of them, all if it fails, in their
  -- order, each at most `max_retries` + 1 times in a row and for the call timeout at most, but for the
  -- lateness of a timer; so it is over in bounded time, after a bounded number of calls.
  abbrev pub CallBounds :
      {A : Type 0} (rt : Runtime P) (b : RobustProviderBuilder P T F) (providers : List P)
      → World P
      → Run P (Result A (FailoverError T))
      → Type 0
  CallBounds {A} rt b providers v run =
      (r : Result A (FailoverError T)) × (v' : World P) × (asked unasked : List P) × (run
        ≡ done r v')
      × (providers ≡ asked ++ unasked)
      × Walk (suc b.max_retries) (b.call_timeout + rt.granularity) asked v v'
      × ((d : FailoverError T) → r ≡ err d → unasked ≡ [])
      × (length v'.calls ≤ length v.calls + suc (length b.fallback_providers) * suc b.max_retries)
      × (v'.now ≤ v.now + suc (length b.fallback_providers) * (b.call_timeout + rt.granularity))

  -- A call through a provider that was built always comes to a result. It asks an initial part of the
  -- providers that `build` connected, the primary one and then the fallbacks in the builder's order,
  -- and all of them if it fails: each at most the builder's `max_retries` + 1 times in a row, and for
  -- its `call_timeout` at most, but for the lateness of a timer. So the whole call is bounded, in calls
  -- and in time, by that for each of one more than the builder's fallbacks.
  pub build-bounds :
      {A : Type 0} {rt : Runtime P} (laws : RuntimeLaws rt) (hints : RetryHints T)
      (b : RobustProviderBuilder P T F) (self : RobustProvider P) (w u : World P)
      → build conversion b w ≡ done (ok self) u
      → (operation : Operation P T A) (v : World P)
      → (providers : List P) × AllConnect (futures conversion b) w providers u
        × CallBounds rt b providers v (try_operation_with_failover rt hints self operation v)
  build-bounds {rt = rt} laws hints b self w u h operation v =
      let (ps, connected, (primary, fallbacks, e, made)) =
        build-Assembled conversion b self w u h in
      let n = AllConnect-length (futures conversion b) w u ps connected in
      let m : length ps ≡ suc (length fallbacks) = ap length e in
      let count : length fallbacks ≡ length b.fallback_providers = omega (arith, n, m) in
      (ps, connected, rw (made, e) (go primary fallbacks count))
    where
      go :
          (primary : P) (fallbacks : List P)
          → length fallbacks ≡ length b.fallback_providers
          → CallBounds rt b
              (primary ∷ fallbacks)
              v
              (try_operation_with_failover rt hints (assemble b primary fallbacks) operation v)
      go primary fallbacks count =
          let c = try_operation-Completes laws hints (assemble b primary fallbacks) operation v in
          let calls = ap (λ (x : ℕ). suc x * suc b.max_retries) count in
          let time = ap (λ (x : ℕ). suc x * (b.call_timeout + rt.granularity)) count in
          (
            c.result,
            c.after,
            c.contacts.asked,
            c.contacts.unasked,
            c.ends,
            c.contacts.in_order,
            c.contacts.walk,
            c.contacts.complete,
            omega (arith, c.few, calls),
            omega (arith, c.soon, time),
          )
