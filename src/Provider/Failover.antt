-- ===== src/Provider/Failover.antt =====
-- The order of failover: `try_operation_with_failover` and `try_fallback_providers_from` of
-- src/robust_provider/provider.rs against "the first provider that succeeds, else the last error".
use robust_provider.Prelude.{
  ℕ, zero, suc, ◌+◌, ◌≤◌, ◌≡◌, refl, List, [], ◌∷◌, ◌++◌, length, arith, drop, get_elem?, some, ap,
  ◌∙◌,
}
use robust_provider.Errors.{FailoverError}
use robust_provider.Errors.Classify.{RetryHints}
use robust_provider.Runtime.{World, Run, done, Result, ok, err, Runtime, RuntimeLaws, ◌>>=◌}
use native.Mathlib.Nat.{zero-add, suc-add, add-zero}
use robust_provider.Provider.Attempts.{try_provider-Concluded}
use robust_provider.Provider.{
  RobustProvider, Operation, try_provider_with_timeout, enumerate, try_each,
  try_fallback_providers_from,
}

pub drop-enumerate :
    {P : Type 0} (n i : ℕ) (ps : List P) → drop n (enumerate i ps) ≡ enumerate (n + i) (drop n ps)
unfolding enumerate
drop-enumerate zero i ps = ap (λ k. enumerate k ps) (omega arith)
drop-enumerate (suc n) i [] = refl
drop-enumerate (suc n) i (p ∷ ps) =
    rw (drop-enumerate n (suc i) ps) (ap (λ k. enumerate k (drop n ps)) (omega arith))

pub get_elem?-append :
    {P : Type 0} (front : List P) (p : P) (back : List P)
    → get_elem? (front ++ p ∷ back) (length front) ≡ some p
get_elem?-append [] p back = refl
get_elem?-append (x ∷ front) p back = get_elem?-append front p back

pub get_elem?-drop :
    {P : Type 0} (n j : ℕ) (ps : List P) (p : P)
    → get_elem? (drop n ps) j ≡ some p
    → get_elem? ps (n + j) ≡ some p
get_elem?-drop zero j ps p h = rw zero-add h
get_elem?-drop (suc n) j [] p h = ground arith
get_elem?-drop (suc n) j (x ∷ ps) p h = rw suc-add (get_elem?-drop n j ps p h)

module _ {P T A : Type 0} (rt : Runtime P) (hints : RetryHints T) (self : RobustProvider P)
    (operation : Operation P T A) where
  -- All of the providers fail, one after the other, and the last of them with `e'`; if there is
  -- none, the error is the one before, `e`.
  abbrev pub AllFail : List P → World P → FailoverError T → World P → FailoverError T → Type 0
  AllFail [] w e w' e' = (w' ≡ w) × (e' ≡ e)
  AllFail (p ∷ ps) w e w' e' =
      (d : FailoverError T) × (u : World P) × (try_provider_with_timeout rt hints self operation p w
        ≡ done (err d) u)
      × AllFail ps u d w' e'

  -- The first provider of the list that succeeds, after all before it have failed.
  pub record FirstSuccess (ps : List P) (w : World P) (e : FailoverError T) (value : A)
      (w' : World P) : Type 0 where
    pub front : List P
    pub provider : P
    pub back : List P
    pub listed : ps ≡ front ++ provider ∷ back
    pub last : FailoverError T
    pub reached : World P
    pub failed : AllFail front w e reached last
    pub succeeds :
        try_provider_with_timeout rt hints self operation provider reached ≡ done (ok value) w'

  -- What a search of the providers `ps`, the first of which has the index `i`, comes to.
  pub data Verdict (ps : List P) (i : ℕ) (w : World P) (e : FailoverError T)
      (run : Run P (Result (A × ℕ) (FailoverError T))) : Type 0 where
    found :
        (value : A) (w' : World P) (s : FirstSuccess ps w e value w')
        → run ≡ done (ok (value, i + length s.front)) w'
        → Verdict ps i w e run
    exhausted :
        (d : FailoverError T) (w' : World P)
        → AllFail ps w e w' d
        → run ≡ done (err d) w'
        → Verdict ps i w e run

  Verdict-cons :
      (p : P) (ps : List P) (i : ℕ) (w u : World P) (e d : FailoverError T)
      (run : Run P (Result (A × ℕ) (FailoverError T)))
      → try_provider_with_timeout rt hints self operation p w ≡ done (err d) u
      → Verdict ps (suc i) u d run
      → Verdict (p ∷ ps) i w e run
  Verdict-cons p ps i w u e d run h (found value w' s r) =
      found value w'
        (record {
          front = p ∷ s.front;
          provider = s.provider;
          back = s.back;
          listed = ap (◌∷◌ p) s.listed;
          last = s.last;
          reached = s.reached;
          failed = (d, u, h, s.failed);
          succeeds = s.succeeds;
        })
        (r ∙ ap (λ (k : ℕ). done (ok (value, k)) w') (omega arith))
  Verdict-cons p ps i w u e d run h (exhausted d' w' f r) = exhausted d' w' (d, u, h, f) r

  module _ (laws : RuntimeLaws rt) where
    pub try_each-Verdict :
        (ps : List P) (i : ℕ) (w : World P) (e : FailoverError T)
        → Verdict ps i w e (try_each rt hints self operation e (enumerate i ps) w)
    unfolding try_each enumerate
    try_each-Verdict [] i w e = exhausted e w (refl, refl) refl
    try_each-Verdict (p ∷ ps) i w e =
        let c = try_provider-Concluded laws hints self operation p w in
        go c.result c.after c.ends (λ u d. try_each-Verdict ps (suc i) u d)
      where
        go :
            (r : Result A (FailoverError T)) (u : World P)
            → try_provider_with_timeout rt hints self operation p w ≡ done r u
            → ((v : World P) (d : FailoverError T)
                → Verdict ps
                    (suc i)
                    v
                    d
                    (try_each rt hints self operation d (enumerate (suc i) ps) v))
            → Verdict (p ∷ ps) i w e (try_each rt hints self operation e (enumerate i (p ∷ ps)) w)
        go (ok value) u h later =
            found value u
              (record {
                front = [];
                provider = p;
                back = ps;
                listed = refl;
                last = e;
                reached = w;
                failed = (refl, refl);
                succeeds = h;
              })
              (rw (h, ◌>>=◌) (ap (λ (k : ℕ). done (ok (value, k)) u) (omega arith)))
        go (err d) u h later = rw (h, ◌>>=◌) (Verdict-cons p ps i w u e d _ h (later u d))

    -- The search from an index on tries the fallback providers from there on, in their order, and
    -- ends with the first that succeeds, or with the error of the last.
    pub try_fallback-Verdict :
        (e : FailoverError T) (start : ℕ) (w : World P)
        → Verdict
            (drop start self.fallback_providers)
            start
            w
            e
            (try_fallback_providers_from rt hints self operation e start w)
    unfolding try_fallback_providers_from
    try_fallback-Verdict e start w =
        rw (drop-enumerate start zero self.fallback_providers, add-zero start)
          (try_each-Verdict (drop start self.fallback_providers) start w e)

    -- An index that comes back is at least the one that the search started from, and names the
    -- provider whose answer comes with it.
    pub try_fallback-index :
        (e : FailoverError T) (start : ℕ) (w : World P) (value : A) (i : ℕ) (w' : World P)
        → try_fallback_providers_from rt hints self operation e start w ≡ done (ok (value, i)) w'
        → (start ≤ i)
          × (provider : P) × (reached : World P) × (get_elem? self.fallback_providers i
              ≡ some provider)
          × (try_provider_with_timeout rt hints self operation provider reached
              ≡ done (ok value) w')
    try_fallback-index e start w value i w' h = go (try_fallback-Verdict e start w)
      where
        go :
            Verdict
              (drop start self.fallback_providers)
              start
              w
              e
              (try_fallback_providers_from rt hints self operation e start w)
            → (start ≤ i)
              × (provider : P) × (reached : World P) × (get_elem? self.fallback_providers i
                  ≡ some provider)
              × (try_provider_with_timeout rt hints self operation provider reached
                  ≡ done (ok value) w')
        go (exhausted d u f r) = cc
        go (found v u s r) =
            let same_value : v ≡ value = cc in
            let same_index : i ≡ start + length s.front = cc in
            let same_world : u ≡ w' = cc in
            (
              omega arith,
              s.provider,
              s.reached,
              rw same_index (
                  get_elem?-drop start (length s.front) self.fallback_providers s.provider
                    (rw s.listed (get_elem?-append s.front s.provider s.back))),
              rw (← same_value, ← same_world) s.succeeds,
            )
