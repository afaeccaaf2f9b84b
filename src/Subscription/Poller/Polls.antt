-- ===== src/Subscription/Poller/Polls.antt =====
-- What polls of the poller's stream give, which the task of src/robust_provider/subscription.rs is
-- measured by.
use robust_provider.Prelude.{
  ℕ, suc, ◌+◌, ◌≡◌, refl, sym, ap, ◌∙◌, arith, Option, none, some, List, [], ◌++◌, append_assoc,
}

module _ {BlockHash Stream : Type 0} (next : Stream → Option (List BlockHash) × Stream) where
  -- So many polls have given these hashes, and left the stream there.
  pub data Polls (stream : Stream) : ℕ → List BlockHash → Stream → Type 0 where
    unpolled : Polls stream 0 [] stream
    polled :
        {n : ℕ} {hashes more : List BlockHash} {now : Stream}
        → Polls stream n hashes now
        → (next now).0 ≡ some more
        → Polls stream (suc n) (hashes ++ more) (next now).1

  -- The stream gives these hashes in so many polls, and then ends.
  pub data Gives : Stream → ℕ → List BlockHash → Type 0 where
    over : {stream : Stream} → (next stream).0 ≡ none → Gives stream 0 []
    gives :
        {stream : Stream} {n : ℕ} {more rest : List BlockHash}
        → (next stream).0 ≡ some more
        → Gives (next stream).1 n rest
        → Gives stream (suc n) (more ++ rest)

  -- The stream that a poll gives hashes for has not ended, and goes on after them.
  Gives-polled :
      {now : Stream} {n : ℕ} {more all : List BlockHash}
      → (next now).0 ≡ some more
      → Gives now n all
      → (k : ℕ) × (rest : List BlockHash) × Gives (next now).1 k rest
        × (n ≡ suc k)
        × (all ≡ more ++ rest)
  Gives-polled e (over ended) = absurd (clash e ended)
    where
      clash : {o : Option (List BlockHash)} {x : List BlockHash} → o ≡ some x → ¬ (o ≡ none)
      clash p q = cc
  Gives-polled {now = now} e (gives {n = n} {more = more} {rest = rest} e' later) =
      (n, rest, later, refl, ap (λ (xs : List BlockHash). xs ++ rest) (same e' e))
    where
      same : {o : Option (List BlockHash)} {x y : List BlockHash} → o ≡ some x → o ≡ some y → x ≡ y
      same p q = cc

  -- What is left of a stream that ends.
  pub Gives-rest :
      {stream now : Stream} {n k : ℕ} {hashes all : List BlockHash}
      → Polls stream n hashes now
      → Gives stream k all
      → (left : ℕ) × (rest : List BlockHash) × Gives now left rest
        × (k ≡ n + left)
        × (all ≡ hashes ++ rest)
  Gives-rest {k = k} {all = all} unpolled given = (k, all, given, omega arith, refl)
  Gives-rest (polled {hashes = hashes} {more = more} before e) given =
      let (left, rest, after, count, whole) = Gives-rest before given in
      let (left', rest', after', count', whole') = Gives-polled e after in
      (
        left',
        rest',
        after',
        omega arith,
        whole ∙ (ap (◌++◌ hashes) whole' ∙ sym (append_assoc hashes more rest')),
      )

  -- A stream that has ended gives nothing more.
  pub Gives-over :
      {stream : Stream} {n : ℕ} {all : List BlockHash}
      → (next stream).0 ≡ none
      → Gives stream n all
      → all ≡ []
  Gives-over e (over ended) = refl
  Gives-over e (gives e' later) = absurd (clash e e')
    where
      clash : {o : Option (List BlockHash)} {x : List BlockHash} → o ≡ none → ¬ (o ≡ some x)
      clash p q = cc
