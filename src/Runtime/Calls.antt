-- ===== src/Runtime/Calls.antt =====
-- The log of calls: how one world's log extends another's.
use robust_provider.Prelude.{
  ℕ, zero, suc, ◌+◌, ◌≤◌, ◌≡◌, refl, sym, ap, ◌∙◌, List, [], ◌∷◌, ◌++◌, append_assoc, arith, length,
  length-append, length-replicate, replicate,
}
use mathlib.Core.List.{append_cancel_right}
use robust_provider.Runtime.{World, Extends, Fut, Run, done, hangs, pure, ◌>>=◌}

module _ {P : Type 0} where
  -- `w'` follows `w` by at most `k` calls, all of them of the provider `p`.
  abbrev pub Repeats : ℕ → P → World P → World P → Type 0
  Repeats k p w w' = (j : ℕ) × (j ≤ k) × (w'.calls ≡ replicate j p ++ w.calls)

  pub Repeats-Extends : (k : ℕ) (p : P) (w w' : World P) → Repeats k p w w' → Extends w w'
  Repeats-Extends k p w w' (j, _, e) = (replicate j p, e)

  pub Repeats-mono :
      (k n : ℕ) (p : P) (w w' : World P) → k ≤ n → Repeats k p w w' → Repeats n p w w'
  Repeats-mono k n p w w' h (j, b, e) = (j, omega arith, e)

  pub Repeats-length :
      (k : ℕ) (p : P) (w w' : World P) → Repeats k p w w' → length w'.calls ≤ k + length w.calls
  Repeats-length k p w w' (j, b, e) =
      omega (arith, ap length e, length-append (replicate j p) w.calls, length-replicate j p)

  pub replicate-snoc :
      (j : ℕ) (p : P) (old : List P) → replicate j p ++ (p ∷ old) ≡ p ∷ (replicate j p ++ old)
  replicate-snoc zero p old = refl
  replicate-snoc (suc j) p old = ap (◌∷◌ p) (replicate-snoc j p old)

  -- One call, and then at most `k` more.
  pub Repeats-step :
      (k : ℕ) (p : P) (w mid w' : World P)
      → mid.calls ≡ p ∷ w.calls
      → Repeats k p mid w'
      → Repeats (suc k) p w w'
  Repeats-step k p w mid w' m (j, b, e) =
      (suc j, omega arith, e ∙ (ap (◌++◌ (replicate j p)) m ∙ replicate-snoc j p w.calls))

  replicate-split :
      (k : ℕ) (p : P) (front back : List P)
      → replicate k p ≡ front ++ back
      → back ≡ replicate (length back) p
  replicate-split k p [] back e =
      sym e ∙ ap (λ n. replicate n p) (sym (length-replicate k p) ∙ ap length e)
  replicate-split zero p (x ∷ front) back e = ground arith
  replicate-split (suc k) p (x ∷ front) back e = replicate-split k p front back (ground arith)

  -- A world that lies between the two ends of such a row of calls is reached by a part of it.
  pub Repeats-between :
      (k : ℕ) (p : P) (w mid w' : World P)
      → Repeats k p w w'
      → Extends w mid
      → Extends mid w'
      → Repeats k p w mid
  Repeats-between k p w mid w' (j, b, e) (more, m) (rest, r) = (
    length more,
    omega (arith, ap length split, length-append rest more, length-replicate j p),
    m ∙ ap (λ (xs : List P). xs ++ w.calls) (replicate-split j p rest more split),
  )
    where
      split : replicate j p ≡ rest ++ more
      split =
          append_cancel_right (replicate j p) (rest ++ more) w.calls
            (sym e ∙ (r ∙ (ap (◌++◌ rest) m ∙ sym (append_assoc rest more w.calls))))

-- A future that completes hands its value on.
pub bind-done :
    {P A B : Type 0} (m : Fut P A) (f : A → Fut P B) (w : World P) {a : A} {u : World P}
    → m w ≡ done a u
    → (m >>= f) w ≡ f a u
bind-done m f w e = rw (e, ◌>>=◌) refl

-- A chain that completes has a first part that does.
pub bind-ends :
    {P A B : Type 0} (m : Fut P A) (f : A → Fut P B) (w : World P) (b : B) (u : World P)
    → (m >>= f) w ≡ done b u
    → (a : A) × (v : World P) × (m w ≡ done a v) × (f a v ≡ done b u)
bind-ends {P} {A} {B} m f w b u h = go (m w) refl h
  where
    go :
        (r : Run P A)
        → m w ≡ r
        → ((λ (_ : World P). r) >>= f) w ≡ done b u
        → (a : A) × (v : World P) × (m w ≡ done a v) × (f a v ≡ done b u)
    go (done a v) e k = (a, v, e, k)
    go (hangs v) e k = cc

-- Handing a value on unchanged adds nothing.
pub bind-pure : {P A : Type 0} (m : Fut P A) (w : World P) → (m >>= pure) w ≡ m w
bind-pure {P} {A} m w = go (m w) refl
  where
    go : (run : Run P A) → m w ≡ run → (m >>= pure) w ≡ m w
    go (done a u) h = rw (h, ◌>>=◌) refl
    go (hangs u) h = rw (h, ◌>>=◌) refl
