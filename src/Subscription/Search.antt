-- ===== src/Subscription/Search.antt =====
-- The loop of `switch_to_fallback` of src/robust_provider/subscription.rs against
-- `try_fallback_providers_from` of src/robust_provider/provider.rs, which it repeats.
use robust_provider.Prelude.{ℕ, zero, suc, ◌+◌, ◌≡◌, refl, some, List, [], ◌∷◌, drop}
use robust_provider.Errors.{Error, FailoverError}
use robust_provider.Errors.Classify.{RetryHints}
use robust_provider.Errors.Convert.{error_from_failover}
use robust_provider.Runtime.{World, done, Fut, Result, ok, err, Runtime, RuntimeLaws, ◌>>=◌, pure}
use robust_provider.Provider.Attempts.{try_provider-Concluded}
use robust_provider.Provider.Failover.{drop-enumerate}
use robust_provider.Provider.{
  try_provider_with_timeout, try_each, enumerate, try_fallback_providers_from,
}
use robust_provider.Subscription.Connect.{
  Backend, Subscription, connect, switch_each, next_index, or_now, next_fallback,
}
use robust_provider.Subscription.{Feed}

module _ {P T : Type 0} (feed : Feed P T) where
  -- What the loop of `switch_to_fallback` makes of the outcome of a search of the fallbacks.
  abbrev pub settle_on :
      FailoverError T
      → Subscription feed
      → Result (Backend feed × ℕ) (FailoverError T)
      → Fut P (Result (Unit {0}) (Error T) × Subscription feed)
  settle_on last_error s (ok (backend, idx)) =
      pure (ok tt, record s { backend = backend; current_fallback_index = some idx })
  settle_on last_error s (err _) = pure (err (error_from_failover last_error), s)

  module _ {rt : Runtime P} (laws : RuntimeLaws rt) (hints : RetryHints T) where
    -- The loop searches the fallbacks as `try_fallback_providers_from` does.
    pub switch_each-try_each :
        (last_error e : FailoverError T) (s : Subscription feed) (ps : List P) (i : ℕ) (w : World P)
        → switch_each feed rt hints last_error s (enumerate i ps) w
          ≡ (try_each rt hints s.robust_provider (connect feed s.robust_provider) e (enumerate i ps)
                >>= settle_on last_error s)
              w
    unfolding switch_each try_each enumerate
    switch_each-try_each last_error e s [] i w = refl
    switch_each-try_each last_error e s (p ∷ ps) i w =
        let c =
          try_provider-Concluded laws hints s.robust_provider (connect feed s.robust_provider) p
            w in
        go c.result c.after c.ends (λ d u. switch_each-try_each last_error d s ps (suc i) u)
      where
        go :
            (r : Result (Backend feed) (FailoverError T)) (u : World P)
            → try_provider_with_timeout rt hints s.robust_provider
                (connect feed s.robust_provider)
                p
                w
              ≡ done r u
            → ((d : FailoverError T) (v : World P)
                → switch_each feed rt hints last_error s (enumerate (suc i) ps) v
                  ≡ (try_each rt hints s.robust_provider
                          (connect feed s.robust_provider)
                          d
                          (enumerate (suc i) ps)
                        >>= settle_on last_error s)
                      v)
            → switch_each feed rt hints last_error s (enumerate i (p ∷ ps)) w
              ≡ (try_each rt hints s.robust_provider
                      (connect feed s.robust_provider)
                      e
                      (enumerate i (p ∷ ps))
                    >>= settle_on last_error s)
                  w
        go (ok backend) u h later = rw (h, ◌>>=◌) refl
        go (err d) u h later = rw (h, ◌>>=◌) (later d u)

    -- After the primary provider, a switch does what `try_fallback_providers_from` does from the
    -- index after the present fallback, and takes the backend and the index that it finds; only the
    -- error, if there is none, is the one that led to the switch.
    pub next_fallback-try_fallback_providers_from :
        (e : FailoverError T) (s : Subscription feed) (w : World P)
        → next_fallback feed rt hints e s w
          ≡ (try_fallback_providers_from rt hints s.robust_provider
                  (connect feed s.robust_provider)
                  e
                  (next_index feed rt hints s.current_fallback_index)
                >>= settle_on e (record s {
                  last_reconnect_attempt = or_now feed rt hints s.last_reconnect_attempt w.now;
                }))
              w
    unfolding next_fallback try_fallback_providers_from
    next_fallback-try_fallback_providers_from e s w =
        rw
          (drop-enumerate (next_index feed rt hints s.current_fallback_index) zero
            s.robust_provider.fallback_providers)
          (switch_each-try_each e e
            (record s {
              last_reconnect_attempt = or_now feed rt hints s.last_reconnect_attempt w.now;
            })
            (drop (next_index feed rt hints s.current_fallback_index)
              s.robust_provider.fallback_providers)
            (next_index feed rt hints s.current_fallback_index + zero) w)
