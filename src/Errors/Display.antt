-- ===== src/Errors/Display.antt =====
-- The texts of the errors: the `#[error]` attributes of src/robust_provider/errors.rs. alloy's text of
-- an `RpcError` is a parameter.
use robust_provider.Prelude.{
  ℕ, zero, suc, ◌+◌, ◌-◌, ◌*◌, ◌≤◌, ◌≡◌, refl, sym, ap, ◌∙◌, arith, [], ◌∷◌, ◌++◌, Message, codes,
  ◌==◌, if◌then◌else◌,
}
use Prim.Native.Nat.{◌/◌, ◌%◌}
use mathlib.Core.List.{append_cancel_left}
use robust_provider.Errors.{RpcError, Error, FailoverError}
use robust_provider.Errors.Convert.{error_from_failover}
use robust_provider.Errors.Surface.{IsMissingBlock, same_error, error_from_failover-same_error}

-- The decimal digits of a positive number before those that are there.
digits : ℕ → ℕ → Message → Message
digits zero n out = out
digits (suc rounds) n out =
    let rest = digits rounds (n / 10) ((b'0' + n % 10) ∷ out) in if n == 0 then out else rest

-- `{0}` on a `u64`.
unfoldable pub decimal : ℕ → Message
unfolding digits
decimal n = if n == 0 then b'0' ∷ [] else digits n n []

-- The number that digits stand for, after those of `n`.
value : ℕ → Message → ℕ
value n [] = n
value n (c ∷ text) = value (n * 10 + (c - b'0')) text

value-digits :
    (rounds n : ℕ) (out : Message) → n ≤ rounds → value 0 (digits rounds n out) ≡ value n out
unfolding digits value
value-digits zero n out h = let over : n ≡ 0 = omega arith in rw over refl
value-digits (suc rounds) n out h =
    ground (arith, value-digits rounds (n / 10) ((b'0' + n % 10) ∷ out))

value-decimal : (n : ℕ) → value 0 (decimal n) ≡ n
unfolding decimal value
value-decimal n = ground (arith, value-digits n n [])

decimal-Injective : (m n : ℕ) → decimal m ≡ decimal n → m ≡ n
decimal-Injective m n same = sym (value-decimal m) ∙ (ap (value 0) same ∙ value-decimal n)

letter : ℕ → Message → ℕ
letter i [] = 0
letter zero (c ∷ text) = c
letter (suc i) (c ∷ text) = letter i text

-- Two letters by which the texts differ.
mark : Message → ℕ
unfolding letter
mark text = letter 0 text * 256 + letter 13 text

module _ {T : Type 0} (rpc_text : RpcError T → Message) where
  unfoldable pub display : Error T → Message
  display Error.timeout = codes "Operation timed out"
  display (Error.rpc_error e) =
      codes "RPC call failed after exhausting all retry attempts: " ++ rpc_text e
  display Error.block_not_found = codes "Block not found"
  display Error.closed = codes "Subscription channel closed"
  display (Error.lagged count) = codes "Subscription lagged behind by: " ++ decimal count

  unfoldable pub display_failover : FailoverError T → Message
  display_failover FailoverError.closed = codes "Subscription channel closed"
  display_failover FailoverError.timeout = codes "Operation timed out"
  display_failover (FailoverError.rpc_error e) =
      codes "RPC call failed after exhausting all retry attempts: " ++ rpc_text e

  display_failover-same_error : (e : FailoverError T) → display_failover e ≡ display (same_error e)
  unfolding display display_failover
  display_failover-same_error FailoverError.closed = refl
  display_failover-same_error FailoverError.timeout = refl
  display_failover-same_error (FailoverError.rpc_error e) = refl

  -- What the caller is told is what the call came to, unless a block is missing.
  error_from_failover-display :
      (e : FailoverError T)
      → ¬ IsMissingBlock e
      → display (error_from_failover e) ≡ display_failover e
  error_from_failover-display e h =
      ap display (error_from_failover-same_error e h) ∙ sym (display_failover-same_error e)

  -- The same error, as far as alloy's texts tell RPC errors apart.
  abbrev pub Alike : Error T → Error T → Type 0
  Alike Error.timeout Error.timeout = Unit
  Alike (Error.rpc_error e) (Error.rpc_error e') = rpc_text e ≡ rpc_text e'
  Alike Error.block_not_found Error.block_not_found = Unit
  Alike Error.closed Error.closed = Unit
  Alike (Error.lagged m) (Error.lagged n) = m ≡ n
  Alike _ _ = ⊥

  -- The text of an error tells which error it is: of two with the same text both are of the same
  -- kind, with the same count of messages missed, or with RPC errors that alloy writes alike.
  pub display-Alike : (e e' : Error T) → display e ≡ display e' → Alike e e'
  unfolding display mark
  display-Alike Error.timeout Error.timeout h = tt
  display-Alike (Error.rpc_error e) (Error.rpc_error e') h =
      append_cancel_left (codes "RPC call failed after exhausting all retry attempts: ")
        (rpc_text e) (rpc_text e') h
  display-Alike Error.block_not_found Error.block_not_found h = tt
  display-Alike Error.closed Error.closed h = tt
  display-Alike (Error.lagged m) (Error.lagged n) h =
      decimal-Injective m n
        (append_cancel_left (codes "Subscription lagged behind by: ") (decimal m) (decimal n) h)
  display-Alike e e' h = absurd (omega (arith, ap mark h))
