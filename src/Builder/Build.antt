-- ===== src/Builder/Build.antt =====
-- What `build` of src/robust_provider/builder.rs connects, in which order, and what it builds.
use robust_provider.Prelude.{◌≡◌, refl, ap, ◌∙◌, List, [], ◌∷◌, ◌++◌, append_assoc, append-nil, sym}
use robust_provider.Errors.{Error}
use robust_provider.Runtime.{World, Run, done, hangs, Fut, Result, ok, err, pure, ◌>>=◌}
use robust_provider.Runtime.Calls.{bind-done, bind-pure}
use robust_provider.Provider.{RobustProvider}
use robust_provider.Builder.{
  ProviderFuture, IntoRootProvider, RobustProviderBuilder, connect_each, assemble, finish, build,
}

module _ {P T : Type 0} where
  -- The futures complete one after the other, with the providers of the list.
  abbrev pub AllConnect : List (ProviderFuture P T) → World P → List P → World P → Type 0
  AllConnect [] w ps w' = (ps ≡ []) × (w' ≡ w)
  AllConnect (f ∷ fs) w ps w' =
      (p : P) × (rest : List P) × (u : World P) × (ps ≡ p ∷ rest)
      × (f w ≡ done (ok p) u)
      × AllConnect fs u rest w'

  -- What comes of connecting the futures in turn: a value made of all the providers, the error of
  -- the first that fails, or no end if one of them has none.
  pub data Connecting (fs : List (ProviderFuture P T)) (w : World P) {A : Type 0}
      (MadeOf : List P → A → Type 0) (run : Run P (Result A (Error T))) : Type 0 where
    connects :
        (ps : List P) (u : World P) (a : A)
        → AllConnect fs w ps u
        → MadeOf ps a
        → run ≡ done (ok a) u
        → Connecting fs w MadeOf run
    fails :
        (front back : List (ProviderFuture P T)) (f : ProviderFuture P T) (ps : List P)
        (reached u : World P) (e : Error T)
        → fs ≡ front ++ f ∷ back
        → AllConnect front w ps reached
        → f reached ≡ done (err e) u
        → run ≡ done (err e) u
        → Connecting fs w MadeOf run
    never :
        (front back : List (ProviderFuture P T)) (f : ProviderFuture P T) (ps : List P)
        (reached u : World P)
        → fs ≡ front ++ f ∷ back
        → AllConnect front w ps reached
        → f reached ≡ hangs u
        → run ≡ hangs u
        → Connecting fs w MadeOf run

  -- One more provider in front, and one more step after the last.
  module _ {A B : Type 0} (f : ProviderFuture P T) (fs : List (ProviderFuture P T)) (w u : World P)
      (p : P) (connected : f w ≡ done (ok p) u) (MadeOf : List P → A → Type 0)
      (MadeOf' : List P → B → Type 0) (g : Result A (Error T) → Result B (Error T))
      (keeps : (e : Error T) → g (err e) ≡ err e)
      (makes : (ps : List P) (a : A)
        → MadeOf ps a
        → (b : B) × (g (ok a) ≡ ok b) × MadeOf' (p ∷ ps) b) where
    Connecting-cons :
        (m : Fut P (Result A (Error T)))
        → Connecting fs u MadeOf (m u)
        → Connecting (f ∷ fs) w MadeOf' ((m >>= λ r. pure (g r)) u)
    Connecting-cons m (connects ps u' a c made r) =
        let (b, eq, made') = makes ps a made in
        connects (p ∷ ps) u' b (p, ps, u, refl, connected, c) made'
          (bind-done m (λ r. pure (g r)) u r ∙ ap (λ (x : Result B (Error T)). done x u') eq)
    Connecting-cons m (fails front back h ps v u' e l c x r) =
        fails (f ∷ front) back h (p ∷ ps) v u' e (ap (◌∷◌ f) l) (p, ps, u, refl, connected, c) x
          (bind-done m (λ r. pure (g r)) u r ∙ ap (λ (x : Result B (Error T)). done x u') (keeps e))
    Connecting-cons m (never front back h ps v u' l c x r) =
        never (f ∷ front) back h (p ∷ ps) v u' (ap (◌∷◌ f) l) (p, ps, u, refl, connected, c) x
          (rw (r, ◌>>=◌) refl)

  connect_each-Connecting :
      (acc : List P) (fs : List (ProviderFuture P T)) (w : World P)
      → Connecting fs w (λ ps all. all ≡ acc ++ ps) (connect_each acc fs w)
  unfolding connect_each
  connect_each-Connecting acc [] w = connects [] w acc (refl, refl) (sym (append-nil acc)) refl
  connect_each-Connecting acc (f ∷ fs) w =
      go (f w) refl (λ p u. connect_each-Connecting (acc ++ p ∷ []) fs u)
    where
      go :
          (run : Run P (Result P (Error T)))
          → f w ≡ run
          → ((p : P) (u : World P)
              → Connecting fs u
                  (λ ps all. all ≡ (acc ++ p ∷ []) ++ ps)
                  (connect_each (acc ++ p ∷ []) fs u))
          → Connecting (f ∷ fs) w (λ ps all. all ≡ acc ++ ps) (connect_each acc (f ∷ fs) w)
      go (done (ok p) u) h later =
          rw (h, ◌>>=◌)
            (rw bind-pure at (
              Connecting-cons f fs w u p h (λ ps all. all ≡ (acc ++ p ∷ []) ++ ps)
                (λ ps all. all ≡ acc ++ ps) (λ r. r) (λ e. refl)
                (λ ps all made. (all, refl, made ∙ append_assoc acc (p ∷ []) ps))
                (connect_each (acc ++ p ∷ []) fs) (later p u)))
      go (done (err e) u) h later = fails [] fs f [] w u e refl (refl, refl) h (rw (h, ◌>>=◌) refl)
      go (hangs u) h later = never [] fs f [] w u refl (refl, refl) h (rw (h, ◌>>=◌) refl)

  module _ {F : Type 0} (conversion : IntoRootProvider P T F) where
    -- What is connected: the primary provider first, then the fallbacks in the order of the list.
    abbrev pub futures : RobustProviderBuilder P T F → List (ProviderFuture P T)
    futures self = conversion.into_root_provider self.primary_provider ∷ self.fallback_providers

    -- A robust provider of the connected ones, with each of the builder's settings.
    abbrev pub Assembled : RobustProviderBuilder P T F → List P → RobustProvider P → Type 0
    Assembled self ps built =
        (primary : P) × (fallbacks : List P) × (ps ≡ primary ∷ fallbacks)
        × (built ≡ record {
          primary_provider = primary;
          fallback_providers = fallbacks;
          call_timeout = self.call_timeout;
          subscription_timeout = self.subscription_timeout;
          max_retries = self.max_retries;
          min_delay = self.min_delay;
          reconnect_interval = self.reconnect_interval;
          subscription_buffer_capacity = self.subscription_buffer_capacity;
          poll_interval = self.poll_interval;
          allow_http_subscriptions = self.allow_http_subscriptions;
        })

    -- `build` connects the primary provider and then each fallback, in order, and builds a provider
    -- of all of them, with the builder's settings; the first that fails ends it with its error, and
    -- the rest are not connected; and one that never completes holds it up for ever.
    pub build-Connecting :
        (self : RobustProviderBuilder P T F) (w : World P)
        → Connecting (futures self) w (Assembled self) (build conversion self w)
    unfolding build
    build-Connecting self w =
        go (conversion.into_root_provider self.primary_provider w) refl
          (λ u. connect_each-Connecting [] self.fallback_providers u)
      where
        go :
            (run : Run P (Result P (Error T)))
            → conversion.into_root_provider self.primary_provider w ≡ run
            → ((u : World P)
                → Connecting self.fallback_providers u
                    (λ ps all. all ≡ ps)
                    (connect_each [] self.fallback_providers u))
            → Connecting (futures self) w (Assembled self) (build conversion self w)
        go (done (ok p) u) h later =
            rw (h, ◌>>=◌)
              (Connecting-cons (conversion.into_root_provider self.primary_provider)
                self.fallback_providers w u p h (λ ps all. all ≡ ps) (Assembled self)
                (finish self p) (λ e. refl)
                (λ ps all made. (_, refl, (p, ps, refl, ap (assemble self p) made)))
                (connect_each [] self.fallback_providers) (later u))
        go (done (err e) u) h later =
            fails [] self.fallback_providers _ [] w u e refl (refl, refl) h (rw (h, ◌>>=◌) refl)
        go (hangs u) h later =
            never [] self.fallback_providers _ [] w u refl (refl, refl) h (rw (h, ◌>>=◌) refl)

    -- What `build` returns, when it does, is made of the providers that were connected.
    pub build-Assembled :
        (b : RobustProviderBuilder P T F) (self : RobustProvider P) (w u : World P)
        → build conversion b w ≡ done (ok self) u
        → (ps : List P) × AllConnect (futures b) w ps u × Assembled b ps self
    build-Assembled b self w u h = go (build conversion b w) h (build-Connecting b w)
      where
        clash :
            {v : World P} (e : Error T)
            → ¬ (
                ◌≡◌ {A = Run P (Result (RobustProvider P) (Error T))}
                  (done (err e) v)
                  (done (ok self) u))
        clash e x = cc

        clash' :
            {v : World P}
            → ¬ (◌≡◌ {A = Run P (Result (RobustProvider P) (Error T))} (hangs v) (done (ok self) u))
        clash' x = cc

        go :
            (run : Run P (Result (RobustProvider P) (Error T)))
            → run ≡ done (ok self) u
            → Connecting (futures b) w (Assembled b) run
            → (ps : List P) × AllConnect (futures b) w ps u × Assembled b ps self
        go run h (connects ps v a c made r) =
            let same : a ≡ self = cc in let at : v ≡ u = cc in (ps, rw at at c, rw same at made)
        go run h (fails _ _ _ _ _ _ e _ _ _ r) = absurd (clash e (sym r ∙ h))
        go run h (never _ _ _ _ _ _ _ _ _ r) = absurd (clash' (sym r ∙ h))
