-- ===== src/Rpc/Log.antt =====
-- The wrappers about logs and filters in src/robust_provider/provider.rs, one for each `robust_rpc!`.
use robust_provider.Prelude.{ℕ, Bool, List}
use robust_provider.Errors.{Error}
use robust_provider.Errors.Classify.{RetryHints}
use robust_provider.Runtime.{Fut, Result, Runtime}
use robust_provider.Provider.{RobustProvider, Operation}
use robust_provider.Rpc.{robust_rpc}

-- alloy's methods of the same names on a provider, and the types that they speak of.
pub record LogApi (P T : Type 0) : Type 1 where
  pub Filter : Type 0
  pub Log : Type 0
  pub get_logs : Filter → Operation P T (List Log)
  pub get_filter_logs : ℕ → Operation P T (List Log)
  pub get_filter_changes : (Response : Type 0) → ℕ → Operation P T (List Response)
  pub new_filter : Filter → Operation P T ℕ
  pub new_block_filter : Operation P T ℕ
  pub new_pending_transactions_filter : Bool → Operation P T ℕ
  pub uninstall_filter : ℕ → Operation P T Bool

module _ {P T : Type 0} (rt : Runtime P) (hints : RetryHints T) (self : RobustProvider P)
    (api : LogApi P T) where
  unfoldable pub get_logs : api.Filter → Fut P (Result (List api.Log) (Error T))
  get_logs filter = robust_rpc rt hints self (api.get_logs filter)

  unfoldable pub get_filter_logs : ℕ → Fut P (Result (List api.Log) (Error T))
  get_filter_logs filter_id = robust_rpc rt hints self (api.get_filter_logs filter_id)

  unfoldable pub get_filter_changes :
      (Response : Type 0) → ℕ → Fut P (Result (List Response) (Error T))
  get_filter_changes Response filter_id =
      robust_rpc rt hints self (api.get_filter_changes Response filter_id)

  unfoldable pub new_filter : api.Filter → Fut P (Result ℕ (Error T))
  new_filter filter = robust_rpc rt hints self (api.new_filter filter)

  unfoldable pub new_block_filter : Fut P (Result ℕ (Error T))
  new_block_filter = robust_rpc rt hints self api.new_block_filter

  unfoldable pub new_pending_transactions_filter : Bool → Fut P (Result ℕ (Error T))
  new_pending_transactions_filter full =
      robust_rpc rt hints self (api.new_pending_transactions_filter full)

  unfoldable pub uninstall_filter : ℕ → Fut P (Result Bool (Error T))
  uninstall_filter id = robust_rpc rt hints self (api.uninstall_filter id)
