-- ===== src/Provider/RetryLoop.antt =====
-- The retries of one provider, without the timeout around them: the `retry` chain in
-- `try_provider_with_timeout` of src/robust_provider/provider.rs.
use robust_provider.Prelude.{
  ℕ, suc, ◌≡◌, refl, List, [], ◌∷◌, ◌++◌, length, replicate, Bool, true, false, Bool-cases, inl,
  inr, ap, ◌∙◌,
}
use robust_provider.Errors.{RpcError}
use robust_provider.Runtime.{
  World, Run, done, hangs, Fut, Result, ok, err, Runtime, RuntimeLaws, next_try, ◌>>=◌,
}
use robust_provider.Runtime.Calls.{replicate-snoc}
use robust_provider.Provider.Attempts.{attempt-calls}
use robust_provider.Provider.{Operation, attempt}

-- An answer on which the retries stop.
abbrev pub Settles : {T A : Type 0} → (RpcError T → Bool) → Result A (RpcError T) → Type 0
Settles when (ok a) = Unit
Settles when (err e) = when e ≡ false

-- A value, or an error, that comes out of the retries is the provider's answer to the last call.
abbrev pub LastAnswer :
    {P T A : Type 0} → Operation P T A → P → Result A (RpcError T) → World P → Type 0
LastAnswer {P} operation provider r u =
    (reached : World P) × (attempt operation provider reached ≡ done r u)

-- An error that would be retried comes out only after `k` calls.
abbrev pub Exhausted :
    {P T A : Type 0}
    → (RpcError T → Bool)
    → P
    → ℕ
    → Result A (RpcError T)
    → World P
    → World P
    → Type 0
Exhausted when provider k (ok a) w u = Unit
Exhausted when provider k (err e) w u = when e ≡ true → u.calls ≡ replicate k provider ++ w.calls

pub attempt-done :
    {P T A : Type 0} (operation : Operation P T A) (provider : P) (w u : World P)
    (r : Result A (RpcError T))
    → attempt operation provider w ≡ done r u
    → u.calls ≡ provider ∷ w.calls
attempt-done operation provider w u r a = rw a at (attempt-calls operation provider w)

module _ {P T A : Type 0} {rt : Runtime P} (laws : RuntimeLaws rt) (when : RpcError T → Bool)
    (operation : Operation P T A) (provider : P) where
  next_try-Settles :
      (r : Result A (RpcError T)) (d : ℕ) (again : Fut P (Result A (RpcError T))) (u : World P)
      → Settles when r
      → next_try when rt.sleep d again r u ≡ done r u
  next_try-Settles (ok a) d again u s = refl
  next_try-Settles (err e) d again u s = rw s refl

  -- Such an answer is passed on at once, however many delays are left.
  pub retry-Settles :
      (ds : List ℕ) (r : Result A (RpcError T)) (w u : World P)
      → attempt operation provider w ≡ done r u
      → Settles when r
      → rt.retry A (RpcError T) ds when rt.sleep (attempt operation provider) w ≡ done r u
  retry-Settles [] r w u h s =
      laws.retry_last A (RpcError T) when (attempt operation provider) w ∙ h
  retry-Settles (d ∷ ds) r w u h s =
      rw (laws.retry_more A (RpcError T) d ds when (attempt operation provider) w)
        (rw (h, ◌>>=◌) (next_try-Settles r d _ u s))

  pub retry-hangs :
      (ds : List ℕ) (w u : World P)
      → attempt operation provider w ≡ hangs u
      → rt.retry A (RpcError T) ds when rt.sleep (attempt operation provider) w ≡ hangs u
  retry-hangs [] w u h = laws.retry_last A (RpcError T) when (attempt operation provider) w ∙ h
  retry-hangs (d ∷ ds) w u h =
      rw (laws.retry_more A (RpcError T) d ds when (attempt operation provider) w)
        (rw (h, ◌>>=◌) refl)

  Exhausted-step :
      (k : ℕ) (r : Result A (RpcError T)) (w v u : World P)
      → v.calls ≡ provider ∷ w.calls
      → Exhausted when provider k r v u
      → Exhausted when provider (suc k) r w u
  Exhausted-step k (ok a) w v u c x = tt
  Exhausted-step k (err e) w v u c x =
      λ t. x t ∙ (ap (◌++◌ (replicate k provider)) c ∙ replicate-snoc k provider w.calls)

  settled-ends :
      (k : ℕ) (s r : Result A (RpcError T)) (w v u : World P)
      → Settles when s
      → attempt operation provider w ≡ done s v
      → ◌≡◌ {A = Run P (Result A (RpcError T))} (done s v) (done r u)
      → LastAnswer operation provider r u × Exhausted when provider k r w u
  settled-ends k (ok b) r w v u final a h =
      let value : r ≡ ok b = cc in let world : u ≡ v = cc in rw (value, world) ((w, a), tt)
  settled-ends k (err e) r w v u final a h =
      let value : r ≡ err e = cc in let world : u ≡ v = cc in rw (value, world) ((w, a), λ t. cc)

  round-ends :
      (ds : List ℕ) (d : ℕ) (r : Result A (RpcError T)) (w u : World P)
      (run : Run P (Result A (RpcError T)))
      → ((v : World P)
          → rt.retry A (RpcError T) ds when rt.sleep (attempt operation provider) v ≡ done r u
          → LastAnswer operation provider r u × Exhausted when provider (suc (length ds)) r v u)
      → attempt operation provider w ≡ run
      → ((λ (_ : World P). run)
            >>= next_try when rt.sleep d
                (rt.retry A (RpcError T) ds when rt.sleep (attempt operation provider)))
          w
        ≡ done r u
      → LastAnswer operation provider r u × Exhausted when provider (suc (suc (length ds))) r w u
  round-ends ds d r w u (hangs v) ih a h = cc
  round-ends ds d r w u (done (ok b) v) ih a h =
      settled-ends (suc (suc (length ds))) (ok b) r w v u tt a h
  round-ends ds d r w u (done (err e) v) ih a h = elim (Bool-cases (when e)) [
    | inr final ↦
        settled-ends (suc (suc (length ds))) (err e) r w v u final a (rw (final, ◌>>=◌) at h)
    | inl again ↦
        let (v', slept, _, same) = laws.sleep_law d v in
        let (answer, last) = ih v' (rw (again, slept, ◌>>=◌) at h) in
        (
          answer,
          Exhausted-step (suc (length ds)) r w v' u
              (same ∙ attempt-done operation provider w v (err e) a) last,
        )
  ]

  pub retry-ends :
      (ds : List ℕ) (r : Result A (RpcError T)) (w u : World P)
      → rt.retry A (RpcError T) ds when rt.sleep (attempt operation provider) w ≡ done r u
      → LastAnswer operation provider r u × Exhausted when provider (suc (length ds)) r w u
  retry-ends [] r w u h =
      let a = rw (laws.retry_last A (RpcError T) when (attempt operation provider) w) at h in
      ((w, a), base r a)
    where
      base :
          (s : Result A (RpcError T))
          → attempt operation provider w ≡ done s u
          → Exhausted when provider 1 s w u
      base (ok b) a = tt
      base (err e) a = λ _. attempt-done operation provider w u (err e) a
  retry-ends (d ∷ ds) r w u h =
      round-ends ds d r w u (attempt operation provider w) (λ v. retry-ends ds r v u) refl
        (rw (laws.retry_more A (RpcError T) d ds when (attempt operation provider) w) at h)
