-- ===== src/Rpc.antt =====
-- The wrappers that the macro `robust_rpc!` of src/macros/rpc.rs generates, and the one method of
-- src/robust_provider/provider.rs that is written out by hand, `estimate_eip1559_fees_with`.
pub mod Account
pub mod Block
pub mod Call
pub mod Fee
pub mod Log
pub mod Network
pub mod Transaction
pub mod Laws
pub mod Fees
pub mod FeeBranches
pub mod Lookups
pub mod Open
pub mod Accounted
pub mod Provenance
mod Tests
use robust_provider.Prelude.{
  ℕ, zero, suc, Message, codes, Bool, true, false, not, Option, none, some, List, [], ◌∷◌, ◌==◌,
  if◌then◌else◌,
}
use robust_provider.Errors.{RpcError, null_resp, unsupported_feature, Error, FailoverError}
use robust_provider.Errors.Classify.{RetryHints}
use robust_provider.Errors.Convert.{error_from_failover, error_from_rpc}
use robust_provider.Runtime.{World, Fut, Result, ok, err, Runtime, pure, ◌>>=◌}
use robust_provider.Provider.{RobustProvider, Operation, try_operation_with_failover}

module _ {T A : Type 0} where
  -- `result.map_err(Error::from)`.
  unfoldable pub unwrap : Result A (FailoverError T) → Result A (Error T)
  unwrap (ok value) = ok value
  unwrap (err e) = err (error_from_failover e)

  -- `result?.ok_or(Error::…)`.
  unfoldable pub unwrap_or : Error T → Result (Option A) (FailoverError T) → Result A (Error T)
  unwrap_or missing (ok (some value)) = ok value
  unwrap_or missing (ok none) = err missing
  unwrap_or missing (err e) = err (error_from_failover e)

module _ {P T A : Type 0} (rt : Runtime P) (hints : RetryHints T) (self : RobustProvider P) where
  -- `robust_rpc!(fn method(…) -> A)`.
  unfoldable pub robust_rpc : Operation P T A → Fut P (Result A (Error T))
  robust_rpc method = do
    result ← try_operation_with_failover rt hints self method
    pure (unwrap result)

  -- `robust_rpc!(fn method(…) -> A; or missing)`.
  unfoldable pub robust_rpc_or : Error T → Operation P T (Option A) → Fut P (Result A (Error T))
  robust_rpc_or missing method = do
    result ← try_operation_with_failover rt hints self method
    pure (unwrap_or missing result)

-- What `estimate_eip1559_fees_with` uses of alloy: two RPC methods, and what it reads of their
-- results.
pub record FeeApi (P T : Type 0) : Type 1 where
  pub FeeHistory : Type 0
  pub Block : Type 0
  pub Rewards : Type 0
  pub Estimation : Type 0
  -- `get_fee_history(EIP1559_FEE_ESTIMATION_PAST_BLOCKS, Latest, &[…PERCENTILE])`.
  pub get_fee_history : Operation P T FeeHistory
  -- `get_block_by_number(Latest)`.
  pub get_latest_block : Operation P T (Option Block)
  pub latest_block_base_fee : FeeHistory → Option ℕ
  pub reward : FeeHistory → Option Rewards
  pub no_rewards : Rewards
  pub base_fee_per_gas : Block → Option ℕ

-- `Some(base_fee) if base_fee != 0`.
abbrev pub usable_fee : Option ℕ → Option ℕ
usable_fee none = none
usable_fee (some fee) = if fee == 0 then none else some fee

module _ {T : Type 0} where
  -- A missing latest block is reported the way alloy does.
  abbrev pub null_if_missing : Error T → Error T
  null_if_missing Error.block_not_found = error_from_rpc null_resp
  null_if_missing (Error.rpc_error e) = Error.rpc_error e
  null_if_missing Error.timeout = Error.timeout
  null_if_missing Error.closed = Error.closed
  null_if_missing (Error.lagged n) = Error.lagged n

module _ {P T : Type 0} (rt : Runtime P) (hints : RetryHints T) (self : RobustProvider P)
    (api : FeeApi P T) where
  open api use {
    FeeHistory, Block, Rewards, Estimation, get_fee_history, get_latest_block,
    latest_block_base_fee, reward, no_rewards, base_fee_per_gas,
  }

  -- `ok_or(RpcError::UnsupportedFeature("eip1559"))?`.
  abbrev pub or_unsupported : Option ℕ → Result ℕ (Error T)
  or_unsupported (some fee) = ok fee
  or_unsupported none = err (error_from_rpc (unsupported_feature (codes "eip1559")))

  abbrev pub block_base_fee : Result Block (Error T) → Result ℕ (Error T)
  block_base_fee (err e) = err (null_if_missing e)
  block_base_fee (ok block) = or_unsupported (base_fee_per_gas block)

  -- The two arms of the `match` on `fee_history.latest_block_base_fee()`.
  abbrev pub fee_or_latest : Option ℕ → Fut P (Result ℕ (Error T))
  fee_or_latest (some fee) = pure (ok fee)
  fee_or_latest none = do
    block ← robust_rpc_or rt hints self Error.block_not_found get_latest_block
    pure (block_base_fee block)

  unfoldable pub base_fee : FeeHistory → Fut P (Result ℕ (Error T))
  base_fee history = fee_or_latest (usable_fee (latest_block_base_fee history))

  -- `fee_history.reward.unwrap_or_default()`.
  abbrev pub or_default : Option Rewards → Rewards
  or_default (some r) = r
  or_default none = no_rewards

  abbrev pub with_fee :
      (ℕ → Rewards → Estimation) → FeeHistory → Result ℕ (Error T) → Result Estimation (Error T)
  with_fee estimate history (err e) = err e
  with_fee estimate history (ok base_fee_per_gas) =
      ok (estimate base_fee_per_gas (or_default (reward history)))

  abbrev pub with_history :
      (ℕ → Rewards → Estimation) → Result FeeHistory (Error T) → Fut P (Result Estimation (Error T))
  with_history estimate (err e) = pure (err e)
  with_history estimate (ok history) = do
    fee ← base_fee history
    pure (with_fee estimate history fee)

  unfoldable pub estimate_eip1559_fees_with :
      (ℕ → Rewards → Estimation) → Fut P (Result Estimation (Error T))
  estimate_eip1559_fees_with estimate = do
    fee_history ← robust_rpc rt hints self get_fee_history
    with_history estimate fee_history
