-- ===== src/Subscription/Loop.antt =====
-- The loop of `recv` of src/robust_provider/subscription.rs, for proofs by its rounds.
use robust_provider.Prelude.{ℕ, zero, suc, ◌≡◌, refl, sym, ◌∙◌, arith, Option, none, some}
use robust_provider.Errors.{Error}
use robust_provider.Errors.Classify.{RetryHints}
use robust_provider.Runtime.{World, Run, done, Result, Runtime, RuntimeLaws, ◌>>=◌}
use robust_provider.Subscription.Connect.{Subscription}
use robust_provider.Subscription.Recv.{returns, continues, Turn, recv_round, recv}
use robust_provider.Subscription.Round.{recv_round-ends}
use robust_provider.Subscription.{Feed}

module _ {P T : Type 0} (feed : Feed P T) (rt : Runtime P) (hints : RetryHints T) where
  -- The rounds of one call that go on.
  pub data Rounds : Subscription feed → World P → Subscription feed → World P → Type 0 where
    at_call : {s : Subscription feed} {w : World P} → Rounds s w s w
    goes_on :
        {s s' t : Subscription feed} {w u v : World P}
        → recv_round feed rt hints s w ≡ done (continues s') u
        → Rounds s' u t v
        → Rounds s w t v

module _ {P T : Type 0} (feed : Feed P T) {rt : Runtime P} (laws : RuntimeLaws rt)
    (hints : RetryHints T) where
  abbrev pub Received : Type 0
  Received = Run P (Option (Result feed.Header (Error T)) × Subscription feed)

  -- `recv` has returned a result.
  abbrev pub Returned : Received → Type 0
  Returned run =
      (result : Result feed.Header (Error T)) × (s' : Subscription feed) × (u : World P) × (run
        ≡ done (some result, s') u)

  -- What holds when the rounds have run out, holds of a round that returns, and passes from the rest
  -- of the rounds to one more, holds of `recv`.
  pub recv-by_rounds :
      (Good : ℕ → Subscription feed → World P → Received → Type 0)
      → ((s : Subscription feed) (w : World P) → Good zero s w (done (none, s) w))
      → ((rounds : ℕ) (s s' : Subscription feed) (w u : World P)
            (result : Result feed.Header (Error T))
          → recv_round feed rt hints s w ≡ done (returns result s') u
          → Good (suc rounds) s w (done (some result, s') u))
      → ((rounds : ℕ) (s s' : Subscription feed) (w u : World P) (rest : Received)
          → recv_round feed rt hints s w ≡ done (continues s') u
          → Good rounds s' u rest
          → Good (suc rounds) s w rest)
      → (rounds : ℕ) (s : Subscription feed) (w : World P)
      → Good rounds s w (recv feed rt hints rounds s w)
  unfolding recv
  recv-by_rounds Good out last more zero s w = out s w
  recv-by_rounds Good out last more (suc rounds) s w =
      let (_, _, _, _, _, (turn, u, h, _)) = recv_round-ends feed laws hints s w in
      go turn u h (λ s' u'. recv-by_rounds Good out last more rounds s' u')
    where
      go :
          (turn : Turn feed rt hints) (u : World P)
          → recv_round feed rt hints s w ≡ done turn u
          → ((s' : Subscription feed) (u' : World P)
              → Good rounds s' u' (recv feed rt hints rounds s' u'))
          → Good (suc rounds) s w (recv feed rt hints (suc rounds) s w)
      go (returns result s') u h rest = rw (h, ◌>>=◌) (last rounds s s' w u result h)
      go (continues s') u h rest =
          rw (h, ◌>>=◌) (more rounds s s' w u (recv feed rt hints rounds s' u) h (rest s' u))

  -- A run that returns what it is said to return, and one that has run out.
  pub same-Returned :
      {s s' : Subscription feed} {u v : World P} {result result' : Result feed.Header (Error T)}
      → ◌≡◌ {A = Received} (done (some result, s) v) (done (some result', s') u)
      → ◌≡◌ {A = Run P (Turn feed rt hints)}
          (done (returns result s) v)
          (done (returns result' s') v)
  same-Returned h = cc

  pub out-ne-Returned :
      {s s' : Subscription feed} {u v : World P} {result : Result feed.Header (Error T)}
      → ¬ (◌≡◌ {A = Received} (done (none, s) v) (done (some result, s') u))
  out-ne-Returned h = cc

  -- A call with one round that returns a result, returns it in that round.
  pub recv-once :
      (s s' : Subscription feed) (w u : World P) (result : Result feed.Header (Error T))
      → recv feed rt hints 1 s w ≡ done (some result, s') u
      → recv_round feed rt hints s w ≡ done (returns result s') u
  recv-once s s' w u result h =
      (recv-by_rounds
          (λ rounds s w run.
            (rounds ≡ 0 → run ≡ done (none, s) w)
            × (rounds ≡ 1
                → (result : Result feed.Header (Error T)) (s' : Subscription feed) (u : World P)
                → run ≡ done (some result, s') u
                → recv_round feed rt hints s w ≡ done (returns result s') u))
          (λ s w. (λ _. refl, λ one. absurd (omega arith)))
          (λ rounds s s' w u result r.
            (λ none_left. absurd (omega arith), λ _ result' s'' u' h. r ∙ cc))
          (λ rounds s s' w u rest r (out, _). (
            λ none_left. absurd (omega arith),
            λ one result' s'' u' h. absurd (out-ne-Returned (sym (out (omega arith)) ∙ h)),
          ))
          1 s w).1
        refl result s' u h
