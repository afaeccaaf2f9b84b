-- ===== src/Provider/CallLog.antt =====
-- Which providers a call with failover contacts, how often, and in which order.
use robust_provider.Prelude.{
  ℕ, suc, ◌+◌, ◌*◌, ◌≤◌, ◌≡◌, refl, List, [], ◌∷◌, ◌++◌, length, length-append, arith, ap, sym,
  append-nil, append_assoc, ◌∙◌,
}
use native.Mathlib.Nat.{le_trans, mul-le-mul_right}
use robust_provider.Errors.{FailoverError}
use robust_provider.Errors.Classify.{RetryHints}
use robust_provider.Runtime.{World, Run, done, Result, ok, err, Runtime, RuntimeLaws}
use robust_provider.Runtime.Calls.{Repeats, Repeats-length}
use robust_provider.Provider.Attempts.{try_provider-Concluded}
use robust_provider.Provider.Failover.{AllFail}
use robust_provider.Provider.Outcome.{
  all_providers, Outcome, succeeded, failed, try_operation-Outcome,
}
use robust_provider.Provider.{
  RobustProvider, Operation, try_provider_with_timeout, try_operation_with_failover,
}

-- `w'` follows `w` by a row of at most `most` calls for each of the providers, in their order, and
-- each row takes at most `limit`.
abbrev pub Walk : {P : Type 0} → ℕ → ℕ → List P → World P → World P → Type 0
Walk most limit [] w w' = w' ≡ w
Walk {P} most limit (p ∷ ps) w w' =
    (u : World P) × Repeats most p w u × (u.now ≤ w.now + limit) × Walk most limit ps u w'

Walk-snoc :
    {P : Type 0} (most limit : ℕ) (ps : List P) (p : P) (w u w' : World P)
    → Walk most limit ps w u
    → Repeats most p u w'
    → w'.now ≤ u.now + limit
    → Walk most limit (ps ++ p ∷ []) w w'
Walk-snoc {P} most limit [] p w u w' e r t =
    (w', rw e at r, omega (arith, ap (λ (x : World P). x.now) e), refl)
Walk-snoc most limit (q ∷ ps) p w u w' (v, s, c, more) r t =
    (v, s, c, Walk-snoc most limit ps p v u w' more r t)

pub Walk-bounds :
    {P : Type 0} (most limit : ℕ) (ps : List P) (w w' : World P)
    → Walk most limit ps w w'
    → (w'.now ≤ w.now + length ps * limit) × (length w'.calls ≤ length w.calls + length ps * most)
Walk-bounds {P} most limit [] w w' e = (
  omega (arith, ap (λ (x : World P). x.now) e),
  omega (arith, ap (λ (x : World P). length x.calls) e),
)
Walk-bounds most limit (p ∷ ps) w w' (u, r, t, more) =
    let (h, k) = Walk-bounds most limit ps u w' more in
    let n = Repeats-length most p w u r in (grind arith, grind arith)

module _ {P T A : Type 0} {rt : Runtime P} (laws : RuntimeLaws rt) (hints : RetryHints T)
    (self : RobustProvider P) (operation : Operation P T A) where
  -- The time that one provider has at most.
  abbrev pub share : ℕ
  share = self.call_timeout + rt.granularity

  try_provider-row :
      (p : P) (w u : World P) (r : Result A (FailoverError T))
      → try_provider_with_timeout rt hints self operation p w ≡ done r u
      → Repeats (suc self.max_retries) p w u × (u.now ≤ w.now + share)
  try_provider-row p w u r h =
      let c = try_provider-Concluded laws hints self operation p w in
      let e : c.after ≡ u = cc (c.ends) in
      (rw e at (c.few), omega (arith, c.soon, ap (λ (x : World P). x.now) e))

  AllFail-Walk :
      (ps : List P) (w w' : World P) (e d : FailoverError T)
      → AllFail rt hints self operation ps w e w' d
      → Walk (suc self.max_retries) share ps w w'
  AllFail-Walk [] w w' e d (same, _) = same
  AllFail-Walk (p ∷ ps) w w' e d (d', u, h, more) =
      let (r, t) = try_provider-row p w u (err d') h in (u, r, t, AllFail-Walk ps u w' d' d more)

  -- The providers that a call contacts are the first ones of primary and fallbacks, with no gap; all
  -- of them, if the call fails.
  pub record Contacts (r : Result A (FailoverError T)) (w w' : World P) : Type 0 where
    pub asked : List P
    pub unasked : List P
    pub in_order : all_providers self ≡ asked ++ unasked
    pub walk : Walk (suc self.max_retries) share asked w w'
    pub complete : (d : FailoverError T) → r ≡ err d → unasked ≡ []

  Outcome-Contacts :
      (w w' : World P) (e : FailoverError T) (r : Result A (FailoverError T))
      (run : Run P (Result A (FailoverError T)))
      → run ≡ done r w'
      → Outcome rt hints self operation w e run
      → Contacts r w w'
  Outcome-Contacts w w' e r run h (failed d u f g) = record {
    asked = all_providers self;
    unasked = [];
    in_order = sym (append-nil _);
    walk = let same : u ≡ w' = cc in rw same at (AllFail-Walk (all_providers self) w u e d f);
    complete = λ _ _. refl;
  }
  Outcome-Contacts w w' e r run h (succeeded v u s g) = record {
    asked = s.front ++ s.provider ∷ [];
    unasked = s.back;
    in_order = s.listed ∙ sym (append_assoc s.front (s.provider ∷ []) s.back);
    walk =
        let same : u ≡ w' = cc in
        let (row, t) = try_provider-row s.provider s.reached u (ok v) s.succeeds in
        rw same at (
          Walk-snoc (suc self.max_retries) share s.front s.provider w s.reached u
            (AllFail-Walk s.front w s.reached e s.last s.failed) row t);
    complete = λ d f. cc;
  }

  -- What is certain of every call with failover.
  pub record Completes (w : World P) : Type 0 where
    pub result : Result A (FailoverError T)
    pub after : World P
    pub ends : try_operation_with_failover rt hints self operation w ≡ done result after
    pub contacts : Contacts result w after
    pub soon : after.now ≤ w.now + length (all_providers self) * share
    pub few :
        length after.calls ≤ length w.calls + length (all_providers self) * suc self.max_retries

  Contacts-bounds :
      (r : Result A (FailoverError T)) (w w' : World P)
      → Contacts r w w'
      → (w'.now ≤ w.now + length (all_providers self) * share)
        × (length w'.calls ≤ length w.calls + length (all_providers self) * suc self.max_retries)
  Contacts-bounds r w w' c =
      let (t, n) = Walk-bounds (suc self.max_retries) share c.asked w w' c.walk in
      (le_trans t (le-add w.now share), le_trans n (le-add (length w.calls) (suc self.max_retries)))
    where
      part : length c.asked ≤ length (all_providers self)
      part = omega (arith, ap length c.in_order, length-append c.asked c.unasked)

      le-add : (k m : ℕ) → k + length c.asked * m ≤ k + length (all_providers self) * m
      le-add k m = omega (arith, mul-le-mul_right m part)

  -- A call with failover comes to a result, whatever the nodes answer or fail to answer. It contacts
  -- an initial part of primary and fallbacks, in that order, and every one if it fails; each of them
  -- at most `max_retries` + 1 times in a row, and for the call timeout at most, but for the lateness
  -- of a timer. So the time of the whole call is bounded by the number of providers times that.
  pub try_operation-Completes : (w : World P) → Completes w
  try_operation-Completes w =
      go (try_operation-Outcome rt hints self operation laws w FailoverError.closed)
    where
      finish :
          (r : Result A (FailoverError T)) (u : World P)
          → try_operation_with_failover rt hints self operation w ≡ done r u
          → Outcome rt hints self operation w FailoverError.closed
              (try_operation_with_failover rt hints self operation w)
          → Completes w
      finish r u g o =
          let c = Outcome-Contacts w u FailoverError.closed r _ g o in
          let (t, n) = Contacts-bounds r w u c in
          record { result = r; after = u; ends = g; contacts = c; soon = t; few = n }

      go :
          Outcome rt hints self operation w FailoverError.closed
            (try_operation_with_failover rt hints self operation w)
          → Completes w
      go (failed d u f g) = finish (err d) u g (failed d u f g)
      go (succeeded v u s g) = finish (ok v) u g (succeeded v u s g)
