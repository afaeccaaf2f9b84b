-- ===== src/Subscription/Switch.antt =====
-- What `switch_to_fallback` of src/robust_provider/subscription.rs does to a subscription, on every
-- branch.
use robust_provider.Prelude.{
  ℕ, zero, suc, ◌+◌, ◌≡◌, refl, Bool, true, Option, none, some, List, drop, length, arith,
  get_elem?, Bool-cases, inl, inr, false, ◌∙◌,
}
use native.Mathlib.Nat.{add-zero}
use robust_provider.Errors.{Error, FailoverError}
use robust_provider.Errors.Classify.{RetryHints}
use robust_provider.Errors.Convert.{error_from_failover}
use robust_provider.Runtime.{World, Run, done, Result, ok, err, Runtime, RuntimeLaws, ◌>>=◌}
use robust_provider.Runtime.Calls.{bind-done}
use robust_provider.Provider.Failover.{
  AllFail, FirstSuccess, Verdict, found, exhausted, try_each-Verdict, drop-enumerate,
  get_elem?-append, get_elem?-drop,
}
use robust_provider.Provider.{try_provider_with_timeout, try_each, enumerate}
use robust_provider.Subscription.Connect.{
  Backend, Subscription, connect, try_reconnect_to_primary, next_index, or_now, next_fallback,
  unless_reconnected, switch_to_fallback,
}
use robust_provider.Subscription.Reconnect.{
  EndsIn, Attempted, not_due, back, refused, try_reconnect-Attempted,
}
use robust_provider.Subscription.Search.{settle_on, switch_each-try_each}
use robust_provider.Subscription.{Feed, is_on_fallback}

-- The index of the first fallback after the present one.
abbrev pub index_after : Option ℕ → ℕ
index_after none = 0
index_after (some idx) = suc idx

module _ {P T : Type 0} (feed : Feed P T) {rt : Runtime P} (laws : RuntimeLaws rt)
    (hints : RetryHints T) where
  -- The fallbacks after the present provider.
  abbrev pub later_fallbacks : Subscription feed → List P
  later_fallbacks s =
      drop (index_after s.current_fallback_index) s.robust_provider.fallback_providers

  -- What a switch does before it asks the fallbacks: the world then, and the time that is noted as
  -- that of the last attempt. From the primary provider the time stays if there is one, and else is
  -- that of the switch. On a fallback the primary provider has been asked first and has refused, at
  -- that time.
  pub data Leaves (s : Subscription feed) (w : World P) : World P → ℕ → Type 0 where
    first_time : is_on_fallback s ≡ false → s.last_reconnect_attempt ≡ none → Leaves s w w w.now
    noted_before :
        (last : ℕ)
        → is_on_fallback s ≡ false
        → s.last_reconnect_attempt ≡ some last
        → Leaves s w w last
    primary_refused :
        (d : FailoverError T) (v : World P)
        → is_on_fallback s ≡ true
        → try_provider_with_timeout rt hints s.robust_provider
            (connect feed s.robust_provider)
            s.robust_provider.primary_provider
            w
          ≡ done (err d) v
        → Leaves s w v v.now

  -- Where a switch away from a failing backend ends, from one world to another.
  pub data Switched (e : FailoverError T) (s : Subscription feed) (w : World P)
      (r : Result (Unit {0}) (Error T)) (s' : Subscription feed) (u : World P) : Type 0 where
    to_primary :
        (backend : Backend feed)
        → is_on_fallback s ≡ true
        → try_provider_with_timeout rt hints s.robust_provider
            (connect feed s.robust_provider)
            s.robust_provider.primary_provider
            w
          ≡ done (ok backend) u
        → r ≡ ok tt
        → s' ≡ record s {
          backend = backend;
          current_fallback_index = none;
          last_reconnect_attempt = none;
        }
        → Switched e s w r s' u
    to_fallback :
        (backend : Backend feed) (idx last : ℕ) (v : World P)
        → Leaves s w v last
        → (found : FirstSuccess rt hints s.robust_provider
            (connect feed s.robust_provider)
            (later_fallbacks s)
            v
            e
            backend
            u)
        → idx ≡ index_after s.current_fallback_index + length found.front
        → get_elem? s.robust_provider.fallback_providers idx ≡ some found.provider
        → r ≡ ok tt
        → s' ≡ record s {
          backend = backend;
          current_fallback_index = some idx;
          last_reconnect_attempt = some last;
        }
        → Switched e s w r s' u
    none_left :
        (last : ℕ) (v : World P) (d : FailoverError T)
        → Leaves s w v last
        → AllFail rt hints s.robust_provider
            (connect feed s.robust_provider)
            (later_fallbacks s)
            v
            e
            u
            d
        → r ≡ err (error_from_failover e)
        → s' ≡ record s { last_reconnect_attempt = some last }
        → Switched e s w r s' u

  next_index-index_after : (index : Option ℕ) → next_index feed rt hints index ≡ index_after index
  next_index-index_after none = refl
  next_index-index_after (some idx) = omega arith

  pub or_now-some : (o : Option ℕ) (now : ℕ) → (t : ℕ) × (or_now feed rt hints o now ≡ some t)
  or_now-some none now = (now, refl)
  or_now-some (some t) now = (t, refl)

  next_fallback-Switched :
      (e : FailoverError T) (s : Subscription feed) (noted : Option ℕ) (last : ℕ) (w v : World P)
      → Leaves s w v last
      → or_now feed rt hints noted v.now ≡ some last
      → EndsIn feed
          (Switched e s w)
          (next_fallback feed rt hints e (record s { last_reconnect_attempt = noted }) v)
  unfolding next_fallback
  next_fallback-Switched e s noted last w v leaves kept =
      let start = index_after s.current_fallback_index in
      let self = s.robust_provider in
      rw
        (
          kept,
          next_index-index_after s.current_fallback_index,
          drop-enumerate start zero self.fallback_providers,
        )
        (rw
          (switch_each-try_each feed laws hints e e
            (record s { last_reconnect_attempt = some last }) (drop start self.fallback_providers)
            (start + zero) v)
          (go (
            try_each-Verdict rt hints self (connect feed self) laws (later_fallbacks s)
              (start + zero) v e)))
    where
      search : Run P (Result (Backend feed × ℕ) (FailoverError T))
      search =
          try_each rt hints s.robust_provider (connect feed s.robust_provider) e
            (enumerate (index_after s.current_fallback_index + zero) (later_fallbacks s)) v

      go :
          Verdict rt hints s.robust_provider
            (connect feed s.robust_provider)
            (later_fallbacks s)
            (index_after s.current_fallback_index + zero)
            v
            e
            search
          → EndsIn feed (Switched e s w) (
              ((λ (_ : World P). search)
                  >>= settle_on feed e (record s { last_reconnect_attempt = some last }))
                v)
      go (exhausted d u f r) = (
        err (error_from_failover e),
        record s { last_reconnect_attempt = some last },
        u,
        rw (r, ◌>>=◌) refl,
        none_left last v d leaves f refl refl,
      )
      go (found backend u f r) = (
        ok tt,
        record s {
          backend = backend;
          current_fallback_index =
              some (index_after s.current_fallback_index + zero + length f.front);
          last_reconnect_attempt = some last;
        },
        u,
        rw (r, ◌>>=◌) refl,
        to_fallback backend (index_after s.current_fallback_index + zero + length f.front) last v
            leaves f (omega arith)
            (rw add-zero (
              get_elem?-drop (index_after s.current_fallback_index) (length f.front)
                s.robust_provider.fallback_providers f.provider
                (rw f.listed (get_elem?-append f.front f.provider f.back))))
            refl refl,
      )

  after_attempt :
      (e : FailoverError T) (s : Subscription feed) (b : Bool) (s₁ : Subscription feed)
      (w u : World P)
      → is_on_fallback s ≡ true
      → Attempted feed laws hints true w s b s₁ u
      → EndsIn feed (Switched e s w) (unless_reconnected feed rt hints e (b, s₁) u)
  after_attempt e s b s₁ w u on (not_due (forced, _) no_b same still) = cc
  after_attempt e s b s₁ w u on (back backend asked x yes_b same) =
      rw yes_b (ok tt, s₁, u, refl, to_primary backend on x refl same)
  after_attempt e s b s₁ w u on (refused d asked x no_b same) =
      rw (no_b, same)
        (next_fallback-Switched e s (some u.now) u.now w u (primary_refused d u on x) refl)

  -- From the primary provider, with its own note of the last attempt or none.
  from_primary :
      (e : FailoverError T) (s : Subscription feed) (noted : Option ℕ) (w : World P)
      → is_on_fallback s ≡ false
      → s.last_reconnect_attempt ≡ noted
      → EndsIn feed
          (Switched e s w)
          (next_fallback feed rt hints e (record s { last_reconnect_attempt = noted }) w)
  from_primary e s none w off same =
      next_fallback-Switched e s none w.now w w (first_time off same) refl
  from_primary e s (some last) w off same =
      next_fallback-Switched e s (some last) last w w (noted_before last off same) refl

  -- A switch always comes to an end. On a fallback the primary provider is asked first, and the
  -- subscription moves to it if it accepts. Otherwise, or once it has refused, the fallbacks after
  -- the present one are asked in order: the subscription goes to the first that accepts it, those
  -- before it having refused; and if all refuse, the error is the one that led to the switch, and
  -- the subscription stays where it was. The time noted then is that at which the primary provider
  -- refused; or, from the primary provider, the one noted before or else that of the switch.
  pub switch_to_fallback-Switched :
      (e : FailoverError T) (s : Subscription feed) (w : World P)
      → EndsIn feed (Switched e s w) (switch_to_fallback feed rt hints e s w)
  unfolding switch_to_fallback
  switch_to_fallback-Switched e s w = elim (Bool-cases (is_on_fallback s)) [
    | inr off ↦ rw off (from_primary e s s.last_reconnect_attempt w off refl)
    | inl on ↦
        let (b, s₁, u, h, c) = try_reconnect-Attempted feed laws hints true s w in
        let (r, s', v, k, d) = after_attempt e s b s₁ w u on c in
        rw (on) (
          r,
          s',
          v,
          bind-done (try_reconnect_to_primary feed rt hints true s)
                (unless_reconnected feed rt hints e) w h
              ∙ k,
          d,
        )
  ]
