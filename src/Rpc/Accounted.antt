-- ===== src/Rpc/Accounted.antt =====
-- What a result of an RPC method of src/robust_provider/provider.rs tells of the providers' answers.
use robust_provider.Prelude.{
  ◌+◌, ◌≤◌, ◌≡◌, refl, ap, ◌⊎◌, inl, inr, Option, none, some, List, [], ◌∷◌, ◌++◌, Bool-cases, true,
  false,
}
use robust_provider.Errors.{
  ErrorPayload, RpcError, error_resp, null_resp, unsupported_feature, transport, other, Error,
  FailoverError,
}
use robust_provider.Errors.Classify.{RetryHints, is_block_not_found}
use robust_provider.Errors.Convert.{error_from_failover}
use robust_provider.Errors.Laws.{is_block_not_found_iff}
use robust_provider.Errors.Spec.{BlockNotFound}
use robust_provider.Errors.Surface.{IsMissingBlock}
use robust_provider.Runtime.{World, done, Result, ok, err, Runtime, RuntimeLaws}
use robust_provider.Provider.Failover.{AllFail, FirstSuccess}
use robust_provider.Provider.Outcome.{all_providers}
use robust_provider.Provider.Retries.{Meaning, try_provider-Meaning}
use robust_provider.Provider.RetryLoop.{LastAnswer}
use robust_provider.Provider.{RobustProvider, Operation, try_provider_with_timeout}

module _ {P T : Type 0} (rt : Runtime P) (hints : RetryHints T) (self : RobustProvider P) where
  module _ {A : Type 0} (method : Operation P T A) where
    -- One of the providers answered so to its last call.
    abbrev pub Answered : Result A (RpcError T) → World P → Type 0
    Answered r u =
        (front back : List P) × (provider : P) × (all_providers self ≡ front ++ provider ∷ back)
        × LastAnswer method provider r u

    -- The last of the providers did.
    abbrev pub AnsweredLast : Result A (RpcError T) → World P → Type 0
    AnsweredLast r u =
        (front : List P) × (provider : P) × (all_providers self ≡ front ++ provider ∷ [])
        × LastAnswer method provider r u

    -- The last of the providers had the call timeout, and did not come to a result.
    abbrev pub TimedOut : World P → Type 0
    TimedOut u =
        (front : List P) × (provider : P) × (reached : World P) × (all_providers self
          ≡ front ++ provider ∷ [])
        × (try_provider_with_timeout rt hints self method provider reached
            ≡ done (err FailoverError.timeout) u)
        × (reached.now + self.call_timeout ≤ u.now)

    -- What an error tells of the last provider.
    abbrev pub AccountsFor : Error T → World P → Type 0
    AccountsFor Error.timeout u = TimedOut u
    AccountsFor (Error.rpc_error e) u =
        AnsweredLast (err e) u × ¬ IsMissingBlock (FailoverError.rpc_error e)
    AccountsFor Error.block_not_found u =
        (payload : ErrorPayload) × AnsweredLast (err (error_resp payload)) u
        × BlockNotFound payload.code payload.message
    AccountsFor Error.closed u = ⊥
    AccountsFor (Error.lagged count) u = ⊥

    abbrev pub Accounted : Result A (Error T) → World P → Type 0
    Accounted (ok value) u = Answered (ok value) u
    Accounted (err e) u = AccountsFor e u

  -- The same for a method whose answer `None` is reported as a missing block.
  abbrev pub AccountedOr :
      {A : Type 0} → Operation P T (Option A) → Result A (Error T) → World P → Type 0
  AccountedOr method (ok value) u = Answered method (ok (some value)) u
  AccountedOr method (err Error.block_not_found) u =
      Answered method (ok none) u ⊎ AccountsFor method Error.block_not_found u
  AccountedOr method (err Error.timeout) u = AccountsFor method Error.timeout u
  AccountedOr method (err (Error.rpc_error e)) u = AccountsFor method (Error.rpc_error e) u
  AccountedOr method (err Error.closed) u = ⊥
  AccountedOr method (err (Error.lagged count)) u = ⊥

module _ {P T A : Type 0} {rt : Runtime P} (laws : RuntimeLaws rt) (hints : RetryHints T)
    (self : RobustProvider P) (method : Operation P T A) where
  -- The last provider of those that fail, and its error.
  AllFail-last :
      (p : P) (ps : List P) (w u : World P) (e d : FailoverError T)
      → AllFail rt hints self method (p ∷ ps) w e u d
      → (front : List P) × (provider : P) × (reached : World P) × (p ∷ ps ≡ front ++ provider ∷ [])
        × (try_provider_with_timeout rt hints self method provider reached ≡ done (err d) u)
  AllFail-last p [] w u e d (d', v, h, (world, same)) = ([], p, w, refl, rw (world, same) h)
  AllFail-last p (q ∷ ps) w u e d (d', v, h, rest) =
      let (front, provider, reached, listed, h') = AllFail-last q ps v u d' d rest in
      (p ∷ front, provider, reached, ap (◌∷◌ p) listed, h')

  not_response-ne-missing :
      (e : RpcError T)
      → ((payload : ErrorPayload) → ¬ (e ≡ error_resp payload))
      → ¬ IsMissingBlock (FailoverError.rpc_error e)
  not_response-ne-missing e differs (payload, same, _) = differs payload cc

  rpc_error-AccountsFor :
      (e : RpcError T) (u : World P)
      → AnsweredLast rt hints self method (err e) u
      → AccountsFor rt hints self method (error_from_failover (FailoverError.rpc_error e)) u
  unfolding error_from_failover
  rpc_error-AccountsFor null_resp u last = (last, not_response-ne-missing null_resp (λ p x. cc))
  rpc_error-AccountsFor (unsupported_feature name) u last =
      (last, not_response-ne-missing (unsupported_feature name) (λ p x. cc))
  rpc_error-AccountsFor (transport kind) u last =
      (last, not_response-ne-missing (transport kind) (λ p x. cc))
  rpc_error-AccountsFor (other text) u last =
      (last, not_response-ne-missing (other text) (λ p x. cc))
  rpc_error-AccountsFor (error_resp payload) u last =
      elim (Bool-cases (is_block_not_found payload.code payload.message)) [
        | inl missing ↦
            rw missing
              (payload, last, (is_block_not_found_iff payload.code payload.message).0 missing)
        | inr found ↦ rw found (last, found-ne-missing payload found)
      ]
    where
      found-ne-missing :
          (payload : ErrorPayload)
          → is_block_not_found payload.code payload.message ≡ false
          → ¬ IsMissingBlock {T = T} (FailoverError.rpc_error (error_resp payload))
      found-ne-missing payload found (payload', same, missing) =
          let here : payload ≡ payload' = cc in
          let named : is_block_not_found payload.code payload.message ≡ true =
            rw here ((is_block_not_found_iff payload'.code payload'.message).1 missing) in
          cc

  pub error-AccountsFor :
      (w u : World P) (e d : FailoverError T)
      → AllFail rt hints self method (all_providers self) w e u d
      → AccountsFor rt hints self method (error_from_failover d) u
  unfolding error_from_failover
  error-AccountsFor w u e d all =
      let (front, provider, reached, listed, h) =
        AllFail-last self.primary_provider self.fallback_providers w u e d all in
      go d front provider reached listed h
        (try_provider-Meaning laws hints self method provider reached (err d) u h)
        (rpc_error-AccountsFor)
    where
      go :
          (d : FailoverError T) (front : List P) (provider : P) (reached : World P)
          → all_providers self ≡ front ++ provider ∷ []
          → try_provider_with_timeout rt hints self method provider reached ≡ done (err d) u
          → Meaning laws hints self method provider reached (err d) u
          → ((e : RpcError T) (u : World P)
              → AnsweredLast rt hints self method (err e) u
              → AccountsFor rt hints self method
                  (error_from_failover (FailoverError.rpc_error e))
                  u)
          → AccountsFor rt hints self method (error_from_failover d) u
      go FailoverError.closed front provider reached listed h told rpc = absurd told
      go FailoverError.timeout front provider reached listed h told rpc =
          (front, provider, reached, listed, h, told)
      go (FailoverError.rpc_error e) front provider reached listed h (last, _) rpc =
          rpc e u (front, provider, listed, last)

  pub first-Answered :
      (w u : World P) (e : FailoverError T) (value : A)
      → FirstSuccess rt hints self method (all_providers self) w e value u
      → Answered rt hints self method (ok value) u
  first-Answered w u e value first = (
    first.front,
    first.back,
    first.provider,
    first.listed,
    try_provider-Meaning laws hints self method first.provider first.reached (ok value) u
        first.succeeds,
  )
