-- ===== src/Runtime/Laws.antt =====
-- What follows from the laws of `timeout` for any future.
use robust_provider.Prelude.{ℕ, ◌+◌, ◌≤◌, ◌<◌, ◌≡◌, sym, ◌∙◌, arith}
use robust_provider.Errors.{Elapsed, elapsed}
use robust_provider.Runtime.{
  World, Run, done, hangs, Fut, Result, ok, err, Runtime, RuntimeLaws, Timely, in_time, expired,
}

module _ {P : Type 0} {rt : Runtime P} (laws : RuntimeLaws rt) where
  -- A future under a timeout always completes, soon after the deadline at the latest.
  pub timeout-done :
      (A : Type 0) (d : ℕ) (f : Fut P A) (w : World P)
      → (r : Result A Elapsed) × (w' : World P) × (rt.timeout A d f w ≡ done r w')
        × (w'.now ≤ w.now + d + rt.granularity)
  timeout-done A d f w = go (laws.timeout_law A d f w)
    where
      go :
          Timely rt.granularity (w.now + d) w (f w) (rt.timeout A d f w)
          → (r : Result A Elapsed) × (w' : World P) × (rt.timeout A d f w ≡ done r w')
            × (w'.now ≤ w.now + d + rt.granularity)
      go (in_time a w' e t b) = (ok a, w', t, b)
      go (expired w' l t lo hi ext) = (err elapsed, w', t, hi)

  -- A future that completes before the deadline gives its value.
  pub timeout-in_time :
      (A : Type 0) (d : ℕ) (f : Fut P A) (w : World P) (a : A) (w' : World P)
      → f w ≡ done a w'
      → w'.now < w.now + d
      → rt.timeout A d f w ≡ done (ok a) w'
  timeout-in_time A d f w a w' e h = go (laws.timeout_law A d f w)
    where
      go :
          Timely rt.granularity (w.now + d) w (f w) (rt.timeout A d f w)
          → rt.timeout A d f w ≡ done (ok a) w'
      go (in_time b u v t _) = cc
      go (expired u l t lo hi ext) =
          let late : w.now + d ≤ w'.now = rw e at l in absurd (omega arith)

  -- One that never completes gives `Elapsed`.
  pub timeout-hangs :
      (A : Type 0) (d : ℕ) (f : Fut P A) (w u : World P)
      → f w ≡ hangs u
      → (w' : World P) × (rt.timeout A d f w ≡ done (err elapsed) w')
        × (w.now + d ≤ w'.now)
        × (w'.now ≤ w.now + d + rt.granularity)
  timeout-hangs A d f w u e = go (laws.timeout_law A d f w)
    where
      go :
          Timely rt.granularity (w.now + d) w (f w) (rt.timeout A d f w)
          → (w' : World P) × (rt.timeout A d f w ≡ done (err elapsed) w')
            × (w.now + d ≤ w'.now)
            × (w'.now ≤ w.now + d + rt.granularity)
      go (in_time b u v t _) = cc
      go (expired u l t lo hi ext) = (u, t, lo, hi)

  -- A value that comes in time is that of the future.
  pub timeout-ok :
      (A : Type 0) (d : ℕ) (f : Fut P A) (w u : World P) (a : A)
      → rt.timeout A d f w ≡ done (ok a) u
      → f w ≡ done a u
  timeout-ok A d f w u a h = go (laws.timeout_law A d f w)
    where
      go : Timely rt.granularity (w.now + d) w (f w) (rt.timeout A d f w) → f w ≡ done a u
      go (in_time b v e t hi) = e ∙ same (sym t ∙ h)
        where
          same :
              ◌≡◌ {A = Run P (Result A Elapsed)} (done (ok b) v) (done (ok a) u)
              → ◌≡◌ {A = Run P A} (done b v) (done a u)
          same x = cc
      go (expired v late t lo hi between) = absurd (clash (sym t ∙ h))
        where
          clash : ¬ (◌≡◌ {A = Run P (Result A Elapsed)} (done (err elapsed) v) (done (ok a) u))
          clash x = cc
