-- ===== src/Subscription/SwitchTime.antt =====
-- How long a switch to another provider takes in src/robust_provider/subscription.rs.
use robust_provider.Prelude.{
  ap, Bool-cases, inl, inr, ℕ, zero, suc, ◌+◌, ◌*◌, ◌≤◌, ◌≡◌, refl, Bool, true, false, List, [],
  ◌∷◌, drop, length, arith, ◌||◌,
}
use native.Mathlib.Nat.{mul-le-mul_right}
use robust_provider.Errors.{FailoverError}
use robust_provider.Errors.Classify.{RetryHints}
use robust_provider.Runtime.{World, done, Result, ok, err, Runtime, RuntimeLaws, ◌>>=◌}
use robust_provider.Runtime.Within.{
  Within, pure-Within, Within-mono, bind-Within, later-Within, if-Within,
}
use robust_provider.Provider.Attempts.{try_provider-Concluded}
use robust_provider.Provider.Failover.{drop-enumerate}
use robust_provider.Provider.{RobustProvider, Operation, try_provider_with_timeout, enumerate}
use robust_provider.Subscription.Connect.{
  Backend, Subscription, connect, is_due, reconnected, attempt_reconnect, try_reconnect_to_primary,
  switch_each, next_index, or_now, next_fallback, unless_reconnected, switch_to_fallback,
}
use robust_provider.Subscription.Reconnect.{
  Attempted, not_due, back, refused, try_reconnect-Attempted,
}
use robust_provider.Subscription.{Feed, is_on_fallback}

length-drop : {A : Type 0} (n : ℕ) (xs : List A) → length (drop n xs) ≤ length xs
length-drop zero xs = omega arith
length-drop (suc n) [] = omega arith
length-drop (suc n) (x ∷ xs) = omega (arith, length-drop n xs)

module _ {P T : Type 0} (feed : Feed P T) {rt : Runtime P} (laws : RuntimeLaws rt)
    (hints : RetryHints T) where
  -- The time of one provider, and of one wait for a message.
  abbrev pub share : RobustProvider P → ℕ
  share self = self.call_timeout + rt.granularity

  abbrev pub wait : RobustProvider P → ℕ
  wait self = self.subscription_timeout + rt.granularity

  try_provider-Within :
      {A : Type 0} (self : RobustProvider P) (operation : Operation P T A) (p : P) (w : World P)
      → Within (share self) w (try_provider_with_timeout rt hints self operation p w)
  try_provider-Within self operation p w =
      let c = try_provider-Concluded laws hints self operation p w in
      (c.result, c.after, c.ends, omega (arith, c.soon))

  reconnected-Within :
      (s : Subscription feed) (r : Result (Backend feed) (FailoverError T)) (w : World P)
      → Within 0 w (reconnected feed rt hints s r w)
  reconnected-Within s (ok backend) w = pure-Within 0 _ w
  reconnected-Within s (err e) w = pure-Within 0 _ w

  pub try_reconnect-Within :
      (force : Bool) (s : Subscription feed) (w : World P)
      → Within (share s.robust_provider) w (try_reconnect_to_primary feed rt hints force s w)
  unfolding try_reconnect_to_primary
  try_reconnect-Within force s w =
      if-Within (share s.robust_provider)
        (force
          || is_due feed rt hints s.last_reconnect_attempt s.robust_provider.reconnect_interval
              w.now)
        w (attempt_reconnect feed rt hints s w) (done (false, s) w)
        (Within-mono (share s.robust_provider + 0) (share s.robust_provider) w _ (omega arith) (
          bind-Within (share s.robust_provider) 0
            (try_provider_with_timeout rt hints s.robust_provider (connect feed s.robust_provider)
              s.robust_provider.primary_provider)
            (reconnected feed rt hints s) w
            (try_provider-Within s.robust_provider (connect feed s.robust_provider)
              s.robust_provider.primary_provider w)
            (reconnected-Within s)))
        (pure-Within (share s.robust_provider) (false, s) w)

  switch_each-Within :
      (e : FailoverError T) (s : Subscription feed) (ps : List P) (i : ℕ) (w : World P)
      → Within
          (length ps * share s.robust_provider)
          w
          (switch_each feed rt hints e s (enumerate i ps) w)
  unfolding switch_each enumerate
  switch_each-Within e s [] i w = pure-Within _ _ w
  switch_each-Within e s (p ∷ ps) i w =
      let (r, u, k, t) =
        try_provider-Within s.robust_provider (connect feed s.robust_provider) p w in
      Within-mono (share s.robust_provider + length ps * share s.robust_provider)
        (suc (length ps) * share s.robust_provider) w _ (grind arith)
        (go r u k t (switch_each-Within e s ps (suc i) u))
    where
      go :
          (r : Result (Backend feed) (FailoverError T)) (u : World P)
          → try_provider_with_timeout rt hints s.robust_provider
              (connect feed s.robust_provider)
              p
              w
            ≡ done r u
          → u.now ≤ w.now + share s.robust_provider
          → Within
              (length ps * share s.robust_provider)
              u
              (switch_each feed rt hints e s (enumerate (suc i) ps) u)
          → Within
              (share s.robust_provider + length ps * share s.robust_provider)
              w
              (switch_each feed rt hints e s (enumerate i (p ∷ ps)) w)
      go (ok backend) u k t later =
          rw (k, ◌>>=◌)
            (later-Within (share s.robust_provider) (length ps * share s.robust_provider) w u _ t
              (pure-Within _ _ u))
      go (err d) u k t later =
          rw (k, ◌>>=◌)
            (later-Within (share s.robust_provider) (length ps * share s.robust_provider) w u _ t
              later)

  -- The time that all the fallbacks have together, and with the primary provider.
  abbrev pub fallback_share : RobustProvider P → ℕ
  fallback_share self = length self.fallback_providers * share self

  abbrev pub switch_share : RobustProvider P → ℕ
  switch_share self = share self + fallback_share self

  Attempted-provider :
      (force : Bool) (mid : World P) (s s' : Subscription feed) (b : Bool) {u : World P}
      → Attempted feed laws hints force mid s b s' u
      → s'.robust_provider ≡ s.robust_provider
  Attempted-provider force mid s s' b (not_due _ _ e _) = rw e refl
  Attempted-provider force mid s s' b (back backend _ _ _ e) = rw e refl
  Attempted-provider force mid s s' b (refused _ _ _ _ e) = rw e refl

  next_fallback-Within :
      (e : FailoverError T) (s : Subscription feed) (w : World P)
      → Within (fallback_share s.robust_provider) w (next_fallback feed rt hints e s w)
  unfolding next_fallback
  next_fallback-Within e s w =
      let start = next_index feed rt hints s.current_fallback_index in
      let ps = s.robust_provider.fallback_providers in
      rw (drop-enumerate start zero ps) (
        Within-mono (length (drop start ps) * share s.robust_provider)
          (fallback_share s.robust_provider) w _
          (mul-le-mul_right (share s.robust_provider) (length-drop start ps))
          (switch_each-Within e
            (record s {
              last_reconnect_attempt = or_now feed rt hints s.last_reconnect_attempt w.now;
            })
            (drop start ps) (start + zero) w))

  pub switch_to_fallback-Within :
      (e : FailoverError T) (s : Subscription feed) (w : World P)
      → Within (switch_share s.robust_provider) w (switch_to_fallback feed rt hints e s w)
  unfolding switch_to_fallback
  switch_to_fallback-Within e s w = elim (Bool-cases (is_on_fallback s)) [
    | inr off ↦ rw off (
        Within-mono (fallback_share s.robust_provider) (switch_share s.robust_provider) w _
          (omega arith) (next_fallback-Within e s w))
    | inl on ↦
        let (b, s₁, u, h, k) = try_reconnect-Attempted feed laws hints true s w in
        let ((b', s₂), v, h', t) = try_reconnect-Within true s w in
        let same : u ≡ v = cc (h, h') in
        rw on (
          rw (h, ◌>>=◌)
            (later-Within (share s.robust_provider) (fallback_share s.robust_provider) w u _
              (rw (← same) at t) (after b s₁ u (Attempted-provider true w s s₁ b k))))
  ]
    where
      after :
          (b : Bool) (s₁ : Subscription feed) (u : World P)
          → s₁.robust_provider ≡ s.robust_provider
          → Within
              (fallback_share s.robust_provider)
              u
              (unless_reconnected feed rt hints e (b, s₁) u)
      after true s₁ u same = pure-Within _ _ u
      after false s₁ u same =
          Within-mono (fallback_share s₁.robust_provider) (fallback_share s.robust_provider) u _
            (omega (arith, ap fallback_share same)) (next_fallback-Within e s₁ u)
