-- ===== src/Runtime/Within.antt =====
-- Futures that complete within some time, whatever they wait for: src/robust_provider/provider.rs and
-- subscription.rs put a timeout around every wait.
use robust_provider.Prelude.{ℕ, ◌+◌, ◌≤◌, ◌≡◌, refl, ◌∙◌, Bool, true, false, arith, if◌then◌else◌}
use robust_provider.Runtime.{
  World, Run, done, Fut, Runtime, RuntimeLaws, Timely, in_time, expired, ◌>>=◌,
}
use robust_provider.Runtime.Calls.{bind-done}

module _ {P : Type 0} where
  abbrev pub Within : {A : Type 0} → ℕ → World P → Run P A → Type 0
  Within {A} limit w run = (a : A) × (u : World P) × (run ≡ done a u) × (u.now ≤ w.now + limit)

  pub pure-Within : {A : Type 0} (limit : ℕ) (a : A) (w : World P) → Within limit w (done a w)
  pure-Within limit a w = (a, w, refl, omega arith)

  pub Within-mono :
      {A : Type 0} (limit more : ℕ) (w : World P) (run : Run P A)
      → limit ≤ more
      → Within limit w run
      → Within more w run
  Within-mono limit more w run h (a, u, e, t) = (a, u, e, omega arith)

  -- What completes in time from a later world.
  pub later-Within :
      {A : Type 0} (d₁ d₂ : ℕ) (w u : World P) (run : Run P A)
      → u.now ≤ w.now + d₁
      → Within d₂ u run
      → Within (d₁ + d₂) w run
  later-Within d₁ d₂ w u run t (a, v, e, s) = (a, v, e, omega arith)

  pub bind-Within :
      {A B : Type 0} (d₁ d₂ : ℕ) (m : Fut P A) (f : A → Fut P B) (w : World P)
      → Within d₁ w (m w)
      → ((a : A) (u : World P) → Within d₂ u (f a u))
      → Within (d₁ + d₂) w ((m >>= f) w)
  bind-Within d₁ d₂ m f w (a, u, e, t) later =
      let (b, v, k, s) = later a u in (b, v, bind-done m f w e ∙ k, omega arith)

  pub if-Within :
      {A : Type 0} (limit : ℕ) (b : Bool) (w : World P) (x y : Run P A)
      → Within limit w x
      → Within limit w y
      → Within limit w (if b then x else y)
  if-Within limit true w x y h k = h
  if-Within limit false w x y h k = k

  -- A timeout completes soon after its duration, whatever the future inside does.
  pub timeout-Within :
      {rt : Runtime P} (laws : RuntimeLaws rt) (A : Type 0) (d : ℕ) (f : Fut P A) (w : World P)
      → Within (d + rt.granularity) w (rt.timeout A d f w)
  timeout-Within {rt} laws A d f w = go (laws.timeout_law A d f w)
    where
      go :
          Timely rt.granularity (w.now + d) w (f w) (rt.timeout A d f w)
          → Within (d + rt.granularity) w (rt.timeout A d f w)
      go (in_time a u _ e t) = (_, u, e, omega arith)
      go (expired u _ e _ t _) = (_, u, e, omega arith)
