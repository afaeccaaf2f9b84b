-- ===== src/Runtime.antt =====
-- Futures over a clock, and the third-party code that drives them: tokio's `timeout` and `sleep`
-- and backon's `Retryable`, as src/robust_provider/provider.rs and subscription.rs call them.
-- `World` holds the clock and, as a ghost, the providers whose operation was started, newest first.
pub mod Laws
pub mod Calls
pub mod Within
pub mod Instance
use robust_provider.Prelude.{
  ℕ, ◌+◌, ◌≤◌, ◌≡◌, Bool, true, false, List, [], ◌∷◌, ◌++◌, length, if◌then◌else◌, leb,
}
use robust_provider.Errors.{Elapsed, elapsed}

-- Rust's `Result`.
pub data Result (A E : Type 0) : Type 0 where
  ok : A → Result A E
  err : E → Result A E

pub record World (P : Type 0) : Type 0 where
  pub now : ℕ
  pub calls : List P

-- A future that is run from some world completes, or never does.
pub data Run (P A : Type 0) : Type 0 where
  done : A → World P → Run P A
  hangs : World P → Run P A

abbrev pub Fut : Type 0 → Type 0 → Type 0
Fut P A = World P → Run P A

-- What a node does with one request: it answers after some time, or stays silent.
pub data Answer (A : Type 0) : Type 0 where
  answers : ℕ → A → Answer A
  silent : Answer A

module _ {P A : Type 0} where
  abbrev pub pure : A → Fut P A
  pure a w = done a w

  abbrev pub end_world : Run P A → World P
  end_world (done a w) = w
  end_world (hangs w) = w

  abbrev pub await_answer : Answer A → Fut P A
  await_answer (answers d a) w = done a (record w { now = w.now + d })
  await_answer silent w = hangs w

infixl 5 ◌>>=◌
abbrev pub ◌>>=◌ : {P A B : Type 0} → Fut P A → (A → Fut P B) → Fut P B
◌>>=◌ m f w = elim (m w) [ done a w' ↦ f a w' | hangs w' ↦ hangs w' ]

-- The third-party functions that the code calls, each a parameter.
pub record Runtime (P : Type 0) : Type 1 where
  -- How late a timer may fire.
  pub granularity : ℕ
  -- `tokio::time::timeout(duration, future)`.
  pub timeout : (A : Type 0) → ℕ → Fut P A → Fut P (Result A Elapsed)
  -- `tokio::time::sleep(duration)`.
  pub sleep : ℕ → Fut P (Unit {0})
  -- The delays of `ExponentialBuilder::default().with_max_times(n).with_min_delay(d)`.
  pub backoff : ℕ → ℕ → List ℕ
  -- The most that `ExponentialBuilder::default()` lets a delay grow to.
  pub max_delay : ℕ
  -- `operation.retry(delays).when(predicate).sleep(sleeper)`.
  pub retry :
      (A E : Type 0)
      → List ℕ
      → (E → Bool)
      → (ℕ → Fut P (Unit {0}))
      → Fut P (Result A E)
      → Fut P (Result A E)

-- The log of the later world extends that of the earlier.
abbrev pub Extends : {P : Type 0} → World P → World P → Type 0
Extends {P} w w' = (more : List P) × (w'.calls ≡ more ++ w.calls)

-- One round of backon's loop, with the delays that are left.
abbrev pub next_try :
    {P A E : Type 0}
    → (E → Bool)
    → (ℕ → Fut P (Unit {0}))
    → ℕ
    → Fut P (Result A E)
    → Result A E
    → Fut P (Result A E)
next_try when sleep d again (ok a) = pure (ok a)
next_try when sleep d again (err e) =
    let resumed = sleep d >>= λ _. again in if when e then resumed else pure (err e)

-- It had not completed before the deadline.
abbrev pub Late : {P A : Type 0} → ℕ → Run P A → Type 0
Late deadline (done a w) = deadline ≤ w.now
Late deadline (hangs w) = Unit

-- What `timeout` promises: the value of a future that completes in time, or `Elapsed` soon after
-- the deadline of one that does not; what the future did up to then stays done.
pub data Timely {P A : Type 0} (slack deadline : ℕ) (w : World P) (run : Run P A)
    (timed : Run P (Result A Elapsed)) : Type 0 where
  in_time :
      (a : A) (w' : World P)
      → run ≡ done a w'
      → timed ≡ done (ok a) w'
      → w'.now ≤ deadline + slack
      → Timely slack deadline w run timed
  expired :
      (w' : World P)
      → Late deadline run
      → timed ≡ done (err elapsed) w'
      → deadline ≤ w'.now
      → w'.now ≤ deadline + slack
      → (Extends w (end_world run) → Extends w w' × Extends w' (end_world run))
      → Timely slack deadline w run timed

abbrev pub EachAtLeast : ℕ → List ℕ → Type 0
EachAtLeast least [] = Unit
EachAtLeast least (d ∷ ds) = (least ≤ d) × EachAtLeast least ds

-- The documented behaviour of the third-party functions.
pub record RuntimeLaws {P : Type 0} (rt : Runtime P) : Type 1 where
  pub timeout_law :
      (A : Type 0) (d : ℕ) (f : Fut P A) (w : World P)
      → Timely rt.granularity (w.now + d) w (f w) (rt.timeout A d f w)
  pub sleep_law :
      (d : ℕ) (w : World P)
      → (w' : World P) × (rt.sleep d w ≡ done tt w') × (w.now + d ≤ w'.now) × (w'.calls ≡ w.calls)
  pub backoff_law : (n d : ℕ) → length (rt.backoff n d) ≡ n
  pub backoff_least : (n d : ℕ) → d ≤ rt.max_delay → EachAtLeast d (rt.backoff n d)
  pub retry_last :
      (A E : Type 0) (when : E → Bool) (f : Fut P (Result A E)) (w : World P)
      → rt.retry A E [] when rt.sleep f w ≡ f w
  pub retry_more :
      (A E : Type 0) (d : ℕ) (ds : List ℕ) (when : E → Bool) (f : Fut P (Result A E)) (w : World P)
      → rt.retry A E (d ∷ ds) when rt.sleep f w
        ≡ (f >>= next_try when rt.sleep d (rt.retry A E ds when rt.sleep f)) w
