-- ===== src/Subscription/Poller/Outcomes.antt =====
-- What the outcomes of a subscription of src/robust_provider/subscription.rs on HTTP tell of the hashes that
-- its calls of `recv` took.
use robust_provider.Prelude.{none, ◌≡◌, Option, some, List, [], ◌∷◌, inl, inr, ◌⊎◌, Bool-cases}
use robust_provider.Errors.{
  RpcError, error_resp, null_resp, unsupported_feature, transport, other, Error, FailoverError,
}
use robust_provider.Errors.Classify.{RetryHints, is_block_not_found}
use robust_provider.Errors.Convert.{error_from_failover}
use robust_provider.Runtime.{ok, err, Runtime, RuntimeLaws}
use robust_provider.Provider.{RobustProvider}
use robust_provider.Subscription.Calls.{Outcome}
use robust_provider.Subscription.Poller.Channel.{Channel}
use robust_provider.Subscription.Poller.Joined.{Passed, Missed, Fetched, Tells}
use robust_provider.Subscription.Poller.Task.{System}
use robust_provider.Subscription.Stay.{passed}
use robust_provider.Subscription.Round.{cause}
use robust_provider.Subscription.{Feed}

module _ {P T : Type 0} (feed : Feed P T) (rt : Runtime P) (hints : RetryHints T) where
  -- The errors with which a hash may have been taken, and those with which none may.
  abbrev pub CanTake : Error T → Type 0
  CanTake Error.timeout = Unit
  CanTake (Error.rpc_error e) = Unit
  CanTake Error.block_not_found = Unit
  CanTake Error.closed = ⊥
  CanTake (Error.lagged count) = ⊥

  abbrev pub CanTakeNone : Error T → Type 0
  CanTakeNone Error.timeout = Unit
  CanTakeNone (Error.rpc_error e) = ⊥
  CanTakeNone Error.block_not_found = ⊥
  CanTakeNone Error.closed = Unit
  CanTakeNone (Error.lagged count) = ⊥

  -- The outcomes account for the hashes, in order: each header is that of the block of the next
  -- hash; an RPC error and `BlockNotFound` take the next hash, `Closed` none, and `Timeout` or a call
  -- that was dropped takes it or not.
  pub data Accounts (self : RobustProvider P)
      : List (Option (Outcome feed rt hints)) → List feed.BlockHash → Type 0 where
    nothing : Accounts self [] []
    header_of :
        {header : feed.Header} {hash : feed.BlockHash}
        {results : List (Option (Outcome feed rt hints))} {hashes : List feed.BlockHash}
        → Fetched feed rt hints self hash header
        → Accounts self results hashes
        → Accounts self (some (ok header) ∷ results) (hash ∷ hashes)
    failed_at :
        {e : Error T} (hash : feed.BlockHash) {results : List (Option (Outcome feed rt hints))}
        {hashes : List feed.BlockHash}
        → CanTake e
        → Accounts self results hashes
        → Accounts self (some (err e) ∷ results) (hash ∷ hashes)
    failed :
        {e : Error T} {results : List (Option (Outcome feed rt hints))}
        {hashes : List feed.BlockHash}
        → CanTakeNone e
        → Accounts self results hashes
        → Accounts self (some (err e) ∷ results) hashes
    dropped_at :
        (hash : feed.BlockHash) {results : List (Option (Outcome feed rt hints))}
        {hashes : List feed.BlockHash}
        → Accounts self results hashes
        → Accounts self (none ∷ results) (hash ∷ hashes)
    dropped :
        {results : List (Option (Outcome feed rt hints))} {hashes : List feed.BlockHash}
        → Accounts self results hashes
        → Accounts self (none ∷ results) hashes

  -- The error of a failed call is not one of the channel.
  rpc_error-CanTake : (e : RpcError T) → CanTake (error_from_failover (FailoverError.rpc_error e))
  unfolding error_from_failover
  rpc_error-CanTake (error_resp payload) =
      elim (Bool-cases (is_block_not_found payload.code payload.message)) [
        | inl missing ↦ rw missing tt
        | inr other_error ↦ rw other_error tt
      ]
  rpc_error-CanTake null_resp = tt
  rpc_error-CanTake (unsupported_feature name) = tt
  rpc_error-CanTake (transport kind) = tt
  rpc_error-CanTake (other text) = tt

module _ {P T : Type 0} (feed : Feed P T) {rt : Runtime P} (laws : RuntimeLaws rt)
    (hints : RetryHints T) {Stream : Type 0} {next : Stream → Option (List feed.BlockHash) × Stream}
    {mpsc : Channel feed.BlockHash} (stream : Stream) (self : RobustProvider P) where
  -- Whatever a wait comes to, one hash came at most.
  pub outcome-Missed :
      (s t : System next mpsc) (res : Outcome feed rt hints)
      → Tells feed rt hints next mpsc stream self res s t
      → Missed feed rt hints next mpsc stream s t
  outcome-Missed s t (ok header) (hash, came, _) = inr (hash, came)
  outcome-Missed s t (err Error.timeout) told = told
  outcome-Missed s t (err (Error.rpc_error e)) (hash, came, _, _) = inr (hash, came)
  outcome-Missed s t (err Error.block_not_found) (hash, came, _, _) = inr (hash, came)
  outcome-Missed s t (err Error.closed) (same, _) = inl same
  outcome-Missed s t (err (Error.lagged count)) told = absurd told

  -- An error that is returned took the next hash, or none.
  pub failed-Missed :
      (s t : System next mpsc) (e e' : Error T)
      → e ≡ passed feed laws hints (cause e') e'
      → Tells feed rt hints next mpsc stream self (err e') s t
      → (Passed feed rt hints next mpsc stream s t × CanTake feed rt hints e)
        ⊎ ((t.received ≡ s.received) × CanTakeNone feed rt hints e)
  unfolding error_from_failover
  failed-Missed s t e Error.closed same (none_came, _) = inr (none_came, rw same tt)
  failed-Missed s t e Error.timeout same (inl none_came) = inr (none_came, rw same tt)
  failed-Missed s t e Error.timeout same (inr passed_one) = inl (passed_one, rw same tt)
  failed-Missed s t e (Error.rpc_error x) same (hash, came, _, _) =
      inl ((hash, came), rw same (rpc_error-CanTake feed rt hints x))
  failed-Missed s t e Error.block_not_found same (hash, came, _, _) = inl ((hash, came), rw same tt)
  failed-Missed s t e (Error.lagged count) same told = absurd told
