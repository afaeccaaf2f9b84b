-- ===== src/Rpc/Account.antt =====
-- The wrappers about accounts in src/robust_provider/provider.rs, one for each `robust_rpc!`.
use robust_provider.Prelude.{ℕ, List}
use robust_provider.Errors.{Error}
use robust_provider.Errors.Classify.{RetryHints}
use robust_provider.Runtime.{Fut, Result, Runtime}
use robust_provider.Provider.{RobustProvider, Operation}
use robust_provider.Rpc.{robust_rpc}

-- alloy's methods of the same names on a provider, and the types that they speak of.
pub record AccountApi (P T : Type 0) : Type 1 where
  pub Address : Type 0
  pub AccountInfo : Type 0
  pub TrieAccount : Type 0
  pub Bytes : Type 0
  pub StorageKey : Type 0
  pub AccountProofResponse : Type 0
  pub StorageValue : Type 0
  pub get_accounts : Operation P T (List Address)
  pub get_account_info : Address → Operation P T AccountInfo
  pub get_account : Address → Operation P T TrieAccount
  pub get_balance : Address → Operation P T ℕ
  pub get_code_at : Address → Operation P T Bytes
  pub get_proof : Address → List StorageKey → Operation P T AccountProofResponse
  pub get_storage_at : Address → ℕ → Operation P T StorageValue
  pub get_transaction_count : Address → Operation P T ℕ

module _ {P T : Type 0} (rt : Runtime P) (hints : RetryHints T) (self : RobustProvider P)
    (api : AccountApi P T) where
  unfoldable pub get_accounts : Fut P (Result (List api.Address) (Error T))
  get_accounts = robust_rpc rt hints self api.get_accounts

  unfoldable pub get_account_info : api.Address → Fut P (Result api.AccountInfo (Error T))
  get_account_info address = robust_rpc rt hints self (api.get_account_info address)

  unfoldable pub get_account : api.Address → Fut P (Result api.TrieAccount (Error T))
  get_account address = robust_rpc rt hints self (api.get_account address)

  unfoldable pub get_balance : api.Address → Fut P (Result ℕ (Error T))
  get_balance address = robust_rpc rt hints self (api.get_balance address)

  unfoldable pub get_code_at : api.Address → Fut P (Result api.Bytes (Error T))
  get_code_at address = robust_rpc rt hints self (api.get_code_at address)

  unfoldable pub get_proof :
      api.Address → List api.StorageKey → Fut P (Result api.AccountProofResponse (Error T))
  get_proof address keys = robust_rpc rt hints self (api.get_proof address keys)

  unfoldable pub get_storage_at : api.Address → ℕ → Fut P (Result api.StorageValue (Error T))
  get_storage_at address key = robust_rpc rt hints self (api.get_storage_at address key)

  unfoldable pub get_transaction_count : api.Address → Fut P (Result ℕ (Error T))
  get_transaction_count address = robust_rpc rt hints self (api.get_transaction_count address)
