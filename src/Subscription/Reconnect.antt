-- ===== src/Subscription/Reconnect.antt =====
-- What `try_reconnect_to_primary` of src/robust_provider/subscription.rs does to a subscription, on
-- every branch.
use robust_provider.Prelude.{
  ℕ, ◌≡◌, refl, Bool, true, false, Option, none, some, Bool-cases, inl, inr, ◌⊎◌, ◌-◌, ◌<◌, ◌≤◌,
  arith,
}
use robust_provider.Errors.{FailoverError}
use robust_provider.Errors.Classify.{RetryHints}
use robust_provider.Runtime.{World, Run, done, Result, ok, err, Runtime, RuntimeLaws, ◌>>=◌}
use robust_provider.Provider.Attempts.{try_provider-Concluded}
use robust_provider.Provider.{try_provider_with_timeout}
use robust_provider.Subscription.Connect.{
  Backend, Subscription, connect, is_due, attempt_reconnect, try_reconnect_to_primary,
}
use robust_provider.Subscription.{Feed}

-- A future on subscriptions that completes with a change of the given kind, in the world that the
-- change tells of.
abbrev pub EndsIn :
    {P T : Type 0} (feed : Feed P T) {R : Type 0}
    → (R → Subscription feed → World P → Type 0)
    → Run P (R × Subscription feed)
    → Type 0
EndsIn {P} feed {R} Change run =
    (r : R) × (s' : Subscription feed) × (u : World P) × (run ≡ done (r, s') u) × Change r s' u

abbrev pub Ends :
    {P T : Type 0} (feed : Feed P T) {R : Type 0}
    → (R → Subscription feed → Type 0)
    → Run P (R × Subscription feed)
    → Type 0
Ends feed Change run = EndsIn feed (λ r s' _. Change r s') run

module _ {P T : Type 0} (feed : Feed P T) {rt : Runtime P} (laws : RuntimeLaws rt)
    (hints : RetryHints T) where
  -- A last attempt is noted, and `reconnect_interval` has passed since then.
  abbrev pub Due : Subscription feed → World P → Type 0
  Due s w =
      (last : ℕ) × (s.last_reconnect_attempt ≡ some last)
      × (s.robust_provider.reconnect_interval ≤ w.now - last)

  -- No attempt is noted, or it is not so long ago.
  abbrev pub NotDue : Subscription feed → World P → Type 0
  NotDue s w =
      (s.last_reconnect_attempt ≡ none)
      ⊎ ((last : ℕ) × (s.last_reconnect_attempt ≡ some last)
          × (w.now - last < s.robust_provider.reconnect_interval))

  -- What an attempt to reconnect to the primary provider, from one world to another, did.
  pub data Attempted (force : Bool) (w : World P) (s : Subscription feed) (b : Bool)
      (s' : Subscription feed) (u : World P) : Type 0 where
    not_due : (force ≡ false) × NotDue s w → b ≡ false → s' ≡ s → u ≡ w → Attempted force w s b s' u
    back :
        (backend : Backend feed)
        → (force ≡ true) ⊎ Due s w
        → try_provider_with_timeout rt hints s.robust_provider
            (connect feed s.robust_provider)
            s.robust_provider.primary_provider
            w
          ≡ done (ok backend) u
        → b ≡ true
        → s' ≡ record s {
          backend = backend;
          current_fallback_index = none;
          last_reconnect_attempt = none;
        }
        → Attempted force w s b s' u
    refused :
        (d : FailoverError T)
        → (force ≡ true) ⊎ Due s w
        → try_provider_with_timeout rt hints s.robust_provider
            (connect feed s.robust_provider)
            s.robust_provider.primary_provider
            w
          ≡ done (err d) u
        → b ≡ false
        → s' ≡ record s { last_reconnect_attempt = some u.now }
        → Attempted force w s b s' u

  is_due-Due :
      (s : Subscription feed) (w : World P) (noted : Option ℕ)
      → s.last_reconnect_attempt ≡ noted
      → is_due feed rt hints noted s.robust_provider.reconnect_interval w.now ≡ true
      → Due s w
  is_due-Due s w none same due = cc
  is_due-Due s w (some last) same due = (last, same, ground arith)

  is_due-NotDue :
      (s : Subscription feed) (w : World P) (noted : Option ℕ)
      → s.last_reconnect_attempt ≡ noted
      → is_due feed rt hints noted s.robust_provider.reconnect_interval w.now ≡ false
      → NotDue s w
  is_due-NotDue s w none same early = inl same
  is_due-NotDue s w (some last) same early = inr (last, same, ground arith)

  attempt-Attempted :
      (force : Bool) (s : Subscription feed) (w : World P)
      → (force ≡ true) ⊎ Due s w
      → EndsIn feed (Attempted force w s) (attempt_reconnect feed rt hints s w)
  attempt-Attempted force s w asked =
      let c =
        try_provider-Concluded laws hints s.robust_provider (connect feed s.robust_provider)
          s.robust_provider.primary_provider w in
      go c.result c.after c.ends
    where
      go :
          (r : Result (Backend feed) (FailoverError T)) (u : World P)
          → try_provider_with_timeout rt hints s.robust_provider
              (connect feed s.robust_provider)
              s.robust_provider.primary_provider
              w
            ≡ done r u
          → EndsIn feed (Attempted force w s) (attempt_reconnect feed rt hints s w)
      go (ok backend) u e = (
        true,
        record s {
          backend = backend;
          current_fallback_index = none;
          last_reconnect_attempt = none;
        },
        u,
        rw (e, ◌>>=◌) refl,
        back backend asked e refl refl,
      )
      go (err d) u e = (
        false,
        record s { last_reconnect_attempt = some u.now },
        u,
        rw (e, ◌>>=◌) refl,
        refused d asked e refl refl,
      )

  -- An attempt to reconnect always comes to an end. If it is not forced, and no attempt is noted or
  -- `reconnect_interval` has not passed since the noted one, it does nothing. Otherwise the primary
  -- provider is asked at once: if it accepts, the subscription moves to it, and is on no fallback and
  -- has no attempt noted; if it refuses, the time of the refusal is noted and no more.
  pub try_reconnect-Attempted :
      (force : Bool) (s : Subscription feed) (w : World P)
      → EndsIn feed (Attempted force w s) (try_reconnect_to_primary feed rt hints force s w)
  unfolding try_reconnect_to_primary
  try_reconnect-Attempted true s w = attempt-Attempted true s w (inl refl)
  try_reconnect-Attempted false s w =
      elim (Bool-cases (
        is_due feed rt hints s.last_reconnect_attempt s.robust_provider.reconnect_interval w.now)) [
          | inl due ↦
              rw due (
                attempt-Attempted false s w
                  (inr (is_due-Due s w s.last_reconnect_attempt refl due)))
          | inr early ↦ rw early (
            false,
            s,
            w,
            refl,
            not_due (refl, is_due-NotDue s w s.last_reconnect_attempt refl early) refl refl refl,
          )
        ]
