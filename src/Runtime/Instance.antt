-- ===== src/Runtime/Instance.antt =====
-- A runtime with exact timers, by which the laws are seen to hold of something and tests are run.
use robust_provider.Prelude.{
  ℕ, zero, suc, ◌+◌, ◌*◌, ◌≤◌, ◌≡◌, refl, ap, Bool, List, [], ◌∷◌, length, arith, if◌then◌else◌,
  leb, leb→le, inl, inr, Bool-cases,
}
use robust_provider.Errors.{Elapsed, elapsed}
use robust_provider.Runtime.{
  World, Run, done, hangs, Fut, Result, ok, err, Runtime, RuntimeLaws, EachAtLeast, Timely, in_time,
  expired, next_try, ◌>>=◌,
}

-- Each delay twice the one before.
unfoldable pub doubling : ℕ → ℕ → List ℕ
doubling zero d = []
doubling (suc n) d = d ∷ doubling n (d * 2)

length-doubling : (n d : ℕ) → length (doubling n d) ≡ n
unfolding doubling
length-doubling zero d = refl
length-doubling (suc n) d = ap suc (length-doubling n (d * 2))

doubling-EachAtLeast : (n d e : ℕ) → d ≤ e → EachAtLeast d (doubling n e)
unfolding doubling
doubling-EachAtLeast zero d e h = tt
doubling-EachAtLeast (suc n) d e h = (h, doubling-EachAtLeast n d (e * 2) (omega arith))

module _ {P : Type 0} where
  unfoldable pub settle : {A : Type 0} → ℕ → Run P A → Run P (Result A Elapsed)
  settle deadline (done a w) =
      if leb w.now deadline then done (ok a) w else done (err elapsed) (record w { now = deadline })
  settle deadline (hangs w) = done (err elapsed) (record w { now = deadline })

  unfoldable pub retry_loop :
      {A E : Type 0}
      → List ℕ
      → (E → Bool)
      → (ℕ → Fut P (Unit {0}))
      → Fut P (Result A E)
      → Fut P (Result A E)
  retry_loop [] when sleep f = f
  retry_loop (d ∷ ds) when sleep f = f >>= next_try when sleep d (retry_loop ds when sleep f)

  settle-Timely :
      {A : Type 0} (deadline : ℕ) (w : World P) (run : Run P A)
      → Timely 0 deadline w run (settle deadline run)
  unfolding settle
  settle-Timely deadline w (done a w') = elim (Bool-cases (leb w'.now deadline)) [
    | inl h ↦ in_time a w' refl (rw h refl) (omega (arith, leb→le _ _ h))
    | inr h ↦
        expired (record w' { now = deadline }) (ground arith) (rw h refl) (omega arith)
          (omega arith) (λ (more, e). ((more, e), ([], refl)))
  ]
  settle-Timely deadline w (hangs w') =
      expired (record w' { now = deadline }) tt refl (omega arith) (omega arith)
        (λ (more, e). ((more, e), ([], refl)))

unfoldable pub simple_runtime : (P : Type 0) → Runtime P
unfolding settle retry_loop doubling
simple_runtime P = record {
  granularity = 0;
  timeout = λ A d f w. settle (w.now + d) (f w);
  sleep = λ d w. done tt (record w { now = w.now + d });
  backoff = doubling;
  max_delay = 60000;
  retry = λ A E. retry_loop;
}

pub simple_laws : (P : Type 0) → RuntimeLaws (simple_runtime P)
unfolding simple_runtime
simple_laws P = record {
  timeout_law = λ A d f w. settle-Timely (w.now + d) w (f w);
  sleep_law = λ d w. (record w { now = w.now + d }, refl, omega arith, refl);
  backoff_law = length-doubling;
  backoff_least = λ n d h. doubling-EachAtLeast n d d (omega arith);
  retry_last = λ A E when f w. refl;
  retry_more = λ A E d ds when f w. refl;
}
