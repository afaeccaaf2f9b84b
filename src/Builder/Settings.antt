-- ===== src/Builder/Settings.antt =====
-- That the settings made through the builder of src/robust_provider/builder.rs are read back from
-- the provider of src/robust_provider/provider.rs that it builds.
use robust_provider.Prelude.{
  ℕ, Bool, ◌≡◌, refl, sym, ap, ◌∙◌, Option, none, some, List, [], ◌∷◌, ◌++◌, append_assoc,
  append-nil,
}
use robust_provider.Builder.{
  ProviderFuture, IntoRootProvider, RobustProviderBuilder, fallback, call_timeout,
  subscription_timeout, subscription_buffer_capacity, max_retries, min_delay, reconnect_interval,
  poll_interval, allow_http_subscriptions,
}

-- A call of one of the builder's methods.
pub data Setting (P T : Type 0) : Type 1 where
  add_fallback : {G : Type 0} → IntoRootProvider P T G → G → Setting P T
  set_call_timeout : ℕ → Setting P T
  set_subscription_timeout : ℕ → Setting P T
  set_buffer_capacity : ℕ → Setting P T
  set_max_retries : ℕ → Setting P T
  set_min_delay : ℕ → Setting P T
  set_reconnect_interval : ℕ → Setting P T
  set_poll_interval : ℕ → Setting P T
  set_allow_http : Bool → Setting P T

-- What stands, of a value from before and one that a call may have set.
abbrev pub or_before : {A : Type 0} → Option A → A → A
or_before none before = before
or_before (some a) before = a

abbrev pub later_or : {A : Type 0} → Option A → Option A → Option A
later_or none earlier = earlier
later_or (some a) earlier = some a

-- The value of the last call that sets one.
abbrev pub last_set : {A : Type 0} {C : Type 1} → (C → Option A) → List C → Option A
last_set set [] = none
last_set set (call ∷ calls) = later_or (last_set set calls) (set call)

or_before-later_or :
    {A : Type 0} (later earlier : Option A) (before : A)
    → or_before later (or_before earlier before) ≡ or_before (later_or later earlier) before
or_before-later_or none earlier before = refl
or_before-later_or (some a) earlier before = refl

module _ {P T : Type 0} where
  unfoldable pub apply :
      {F : Type 0} → Setting P T → RobustProviderBuilder P T F → RobustProviderBuilder P T F
  apply (add_fallback conversion provider) self = fallback conversion provider self
  apply (set_call_timeout n) self = call_timeout n self
  apply (set_subscription_timeout n) self = subscription_timeout n self
  apply (set_buffer_capacity n) self = subscription_buffer_capacity n self
  apply (set_max_retries n) self = max_retries n self
  apply (set_min_delay n) self = min_delay n self
  apply (set_reconnect_interval n) self = reconnect_interval n self
  apply (set_poll_interval n) self = poll_interval n self
  apply (set_allow_http allow) self = allow_http_subscriptions allow self

  -- `….call_timeout(…).fallback(…)` and so on, from the left to the right.
  unfoldable pub apply_all :
      {F : Type 0} → List (Setting P T) → RobustProviderBuilder P T F → RobustProviderBuilder P T F
  apply_all [] self = self
  apply_all (call ∷ calls) self = apply_all calls (apply call self)

  -- The fallbacks, in the order in which they were added.
  abbrev pub added : List (Setting P T) → List (ProviderFuture P T)
  added [] = []
  added (add_fallback conversion provider ∷ calls) =
      conversion.into_root_provider provider ∷ added calls
  added (set_call_timeout _ ∷ calls) = added calls
  added (set_subscription_timeout _ ∷ calls) = added calls
  added (set_buffer_capacity _ ∷ calls) = added calls
  added (set_max_retries _ ∷ calls) = added calls
  added (set_min_delay _ ∷ calls) = added calls
  added (set_reconnect_interval _ ∷ calls) = added calls
  added (set_poll_interval _ ∷ calls) = added calls
  added (set_allow_http _ ∷ calls) = added calls

  -- What each of the calls sets.
  abbrev pub sets_call_timeout : Setting P T → Option ℕ
  sets_call_timeout (set_call_timeout n) = some n
  sets_call_timeout _ = none

  abbrev pub sets_subscription_timeout : Setting P T → Option ℕ
  sets_subscription_timeout (set_subscription_timeout n) = some n
  sets_subscription_timeout _ = none

  abbrev pub sets_buffer_capacity : Setting P T → Option ℕ
  sets_buffer_capacity (set_buffer_capacity n) = some n
  sets_buffer_capacity _ = none

  abbrev pub sets_max_retries : Setting P T → Option ℕ
  sets_max_retries (set_max_retries n) = some n
  sets_max_retries _ = none

  abbrev pub sets_min_delay : Setting P T → Option ℕ
  sets_min_delay (set_min_delay n) = some n
  sets_min_delay _ = none

  abbrev pub sets_reconnect_interval : Setting P T → Option ℕ
  sets_reconnect_interval (set_reconnect_interval n) = some n
  sets_reconnect_interval _ = none

  abbrev pub sets_poll_interval : Setting P T → Option ℕ
  sets_poll_interval (set_poll_interval n) = some n
  sets_poll_interval _ = none

  abbrev pub sets_allow_http : Setting P T → Option Bool
  sets_allow_http (set_allow_http allow) = some allow
  sets_allow_http _ = none

  -- A field that every call leaves alone or sets, is in the end what the last call set.
  module _ {F A : Type 0} (set : Setting P T → Option A) (field : RobustProviderBuilder P T F → A)
      (step : (call : Setting P T) (b : RobustProviderBuilder P T F)
        → field (apply call b) ≡ or_before (set call) (field b)) where
    field-apply_all :
        (calls : List (Setting P T)) (b : RobustProviderBuilder P T F)
        → field (apply_all calls b) ≡ or_before (last_set set calls) (field b)
    unfolding apply_all
    field-apply_all [] b = refl
    field-apply_all (call ∷ calls) b =
        field-apply_all calls (apply call b)
        ∙ (ap (or_before (last_set set calls)) (step call b)
            ∙ or_before-later_or (last_set set calls) (set call) (field b))

  -- Each field of `b'` is what was looked up for it, or else what it is in `b`.
  abbrev pub Takes :
      {F : Type 0}
      → ((A : Type 0) → (Setting P T → Option A) → Option A)
      → RobustProviderBuilder P T F
      → RobustProviderBuilder P T F
      → Type 0
  Takes look b b' =
      (b'.call_timeout ≡ or_before (look ℕ sets_call_timeout) b.call_timeout)
      × (b'.subscription_timeout
          ≡ or_before (look ℕ sets_subscription_timeout) b.subscription_timeout)
      × (b'.max_retries ≡ or_before (look ℕ sets_max_retries) b.max_retries)
      × (b'.min_delay ≡ or_before (look ℕ sets_min_delay) b.min_delay)
      × (b'.reconnect_interval ≡ or_before (look ℕ sets_reconnect_interval) b.reconnect_interval)
      × (b'.subscription_buffer_capacity
          ≡ or_before (look ℕ sets_buffer_capacity) b.subscription_buffer_capacity)
      × (b'.poll_interval ≡ or_before (look ℕ sets_poll_interval) b.poll_interval)
      × (b'.allow_http_subscriptions
          ≡ or_before (look Bool sets_allow_http) b.allow_http_subscriptions)

  -- A call sets its own field and leaves the others alone.
  apply-Takes :
      {F : Type 0} (call : Setting P T) (b : RobustProviderBuilder P T F)
      → Takes (λ A set. set call) b (apply call b)
  unfolding apply call_timeout fallback subscription_timeout subscription_buffer_capacity
      max_retries min_delay reconnect_interval poll_interval allow_http_subscriptions
  apply-Takes (set_call_timeout n) b = (refl, refl, refl, refl, refl, refl, refl, refl)
  apply-Takes _ b = (refl, refl, refl, refl, refl, refl, refl, refl)

  -- After all the calls a field is what the last of them that sets it has set.
  pub apply_all-Takes :
      {F : Type 0} (calls : List (Setting P T)) (b : RobustProviderBuilder P T F)
      → Takes (λ A set. last_set set calls) b (apply_all calls b)
  apply_all-Takes calls b = (
    field-apply_all sets_call_timeout (λ b. b.call_timeout) (λ call b. (apply-Takes call b).0) calls
        b,
    field-apply_all sets_subscription_timeout (λ b. b.subscription_timeout)
        (λ call b. (apply-Takes call b).1) calls b,
    field-apply_all sets_max_retries (λ b. b.max_retries) (λ call b. (apply-Takes call b).2) calls
        b,
    field-apply_all sets_min_delay (λ b. b.min_delay) (λ call b. (apply-Takes call b).3) calls b,
    field-apply_all sets_reconnect_interval (λ b. b.reconnect_interval)
        (λ call b. (apply-Takes call b).4) calls b,
    field-apply_all sets_buffer_capacity (λ b. b.subscription_buffer_capacity)
        (λ call b. (apply-Takes call b).5) calls b,
    field-apply_all sets_poll_interval (λ b. b.poll_interval) (λ call b. (apply-Takes call b).6)
        calls b,
    field-apply_all sets_allow_http (λ b. b.allow_http_subscriptions)
        (λ call b. (apply-Takes call b).7) calls b,
  )

  pub fallbacks-apply_all :
      {F : Type 0} (calls : List (Setting P T)) (b : RobustProviderBuilder P T F)
      → (apply_all calls b).fallback_providers ≡ b.fallback_providers ++ added calls
  unfolding apply apply_all call_timeout fallback subscription_timeout subscription_buffer_capacity
      max_retries min_delay reconnect_interval poll_interval allow_http_subscriptions
  fallbacks-apply_all [] b = sym (append-nil b.fallback_providers)
  fallbacks-apply_all (add_fallback conversion provider ∷ calls) b =
      fallbacks-apply_all calls (fallback conversion provider b)
      ∙ append_assoc b.fallback_providers (conversion.into_root_provider provider ∷ [])
          (added calls)
  fallbacks-apply_all (set_call_timeout n ∷ calls) b = fallbacks-apply_all calls (call_timeout n b)
  fallbacks-apply_all (call ∷ calls) b = fallbacks-apply_all calls (apply call b)

  pub primary-apply_all :
      {F : Type 0} (calls : List (Setting P T)) (b : RobustProviderBuilder P T F)
      → (apply_all calls b).primary_provider ≡ b.primary_provider
  unfolding apply apply_all call_timeout fallback subscription_timeout subscription_buffer_capacity
      max_retries min_delay reconnect_interval poll_interval allow_http_subscriptions
  primary-apply_all [] b = refl
  primary-apply_all (set_call_timeout n ∷ calls) b = primary-apply_all calls (call_timeout n b)
  primary-apply_all (call ∷ calls) b = primary-apply_all calls (apply call b)
