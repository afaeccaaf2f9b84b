-- ===== src/Rpc/FeeBranches.antt =====
-- `estimate_eip1559_fees_with` of src/robust_provider/provider.rs on every branch.
use robust_provider.Prelude.{ℕ, ◌≡◌, ◌≢◌, refl, ◌⊎◌, Option, none, some, codes}
use robust_provider.Errors.{Error, unsupported_feature, null_resp}
use robust_provider.Errors.Classify.{RetryHints}
use robust_provider.Errors.Convert.{error_from_rpc}
use robust_provider.Runtime.{World, done, Result, ok, err, Runtime, RuntimeLaws, ◌>>=◌}
use robust_provider.Provider.{RobustProvider}
use robust_provider.Rpc.Fees.{usable_fee-none, usable_fee-some}
use robust_provider.Rpc.Provenance.{robust_rpc-Accounted, robust_rpc_or-AccountedOr}
use robust_provider.Rpc.{
  robust_rpc, robust_rpc_or, FeeApi, base_fee, usable_fee, estimate_eip1559_fees_with, or_default,
  with_history,
}

module _ {P T : Type 0} (rt : Runtime P) (hints : RetryHints T) (self : RobustProvider P)
    (api : FeeApi P T) where
  open api use {
    FeeHistory, Block, Rewards, Estimation, get_fee_history, get_latest_block,
    latest_block_base_fee, base_fee_per_gas, reward,
  }

  -- The fee history has come, and its base fee is none or zero, so the latest block is asked for.
  abbrev pub AsksBlock : World P → FeeHistory → World P → Type 0
  AsksBlock w history v =
      (robust_rpc rt hints self get_fee_history w ≡ done (ok history) v)
      × ((latest_block_base_fee history ≡ none) ⊎ (latest_block_base_fee history ≡ some 0))

  -- What the method does, by the outcomes of its two calls.
  pub data Estimates (estimate : ℕ → Rewards → Estimation) (w u : World P)
      : Result Estimation (Error T) → Type 0 where
    no_history :
        (e : Error T)
        → robust_rpc rt hints self get_fee_history w ≡ done (err e) u
        → Estimates estimate w u (err e)
    by_history :
        (history : FeeHistory) (fee : ℕ)
        → robust_rpc rt hints self get_fee_history w ≡ done (ok history) u
        → latest_block_base_fee history ≡ some fee
        → fee ≢ 0
        → Estimates estimate w u (ok (estimate fee (or_default rt hints self api (reward history))))
    by_block :
        (history : FeeHistory) (v : World P) (block : Block) (fee : ℕ)
        → AsksBlock w history v
        → robust_rpc_or rt hints self Error.block_not_found get_latest_block v ≡ done (ok block) u
        → base_fee_per_gas block ≡ some fee
        → Estimates estimate w u (ok (estimate fee (or_default rt hints self api (reward history))))
    unsupported :
        (history : FeeHistory) (v : World P) (block : Block)
        → AsksBlock w history v
        → robust_rpc_or rt hints self Error.block_not_found get_latest_block v ≡ done (ok block) u
        → base_fee_per_gas block ≡ none
        → Estimates estimate w u (err (Error.rpc_error (unsupported_feature (codes "eip1559"))))
    missing_block :
        (history : FeeHistory) (v : World P)
        → AsksBlock w history v
        → robust_rpc_or rt hints self Error.block_not_found get_latest_block v
          ≡ done (err Error.block_not_found) u
        → Estimates estimate w u (err (Error.rpc_error null_resp))
    no_block :
        (history : FeeHistory) (v : World P) (e : Error T)
        → AsksBlock w history v
        → robust_rpc_or rt hints self Error.block_not_found get_latest_block v ≡ done (err e) u
        → e ≢ Error.block_not_found
        → Estimates estimate w u (err e)

module _ {P T : Type 0} {rt : Runtime P} (laws : RuntimeLaws rt) (hints : RetryHints T)
    (self : RobustProvider P) (api : FeeApi P T) where
  open api use {
    FeeHistory, Block, Rewards, Estimation, get_fee_history, get_latest_block,
    latest_block_base_fee, base_fee_per_gas, reward,
  }

  -- A run that ends as one of the branches.
  abbrev pub EndsEstimate :
      (ℕ → Rewards → Estimation) → World P → World P → Result FeeHistory (Error T) → Type 0
  EndsEstimate estimate w v r =
      (e : Result Estimation (Error T)) × (u : World P) × (with_history rt hints self api estimate r
          v
        ≡ done e u)
      × Estimates rt hints self api estimate w u e

  by_latest-Ends :
      (estimate : ℕ → Rewards → Estimation) (history : FeeHistory) (w v u : World P)
      (r : Result Block (Error T))
      → usable_fee (latest_block_base_fee history) ≡ none
      → AsksBlock rt hints self api w history v
      → robust_rpc_or rt hints self Error.block_not_found get_latest_block v ≡ done r u
      → EndsEstimate estimate w v (ok history)
  unfolding base_fee error_from_rpc
  by_latest-Ends estimate history w v u (err Error.block_not_found) unusable asks h =
      (_, u, rw (unusable, h, ◌>>=◌) refl, missing_block history v asks h)
  by_latest-Ends estimate history w v u (err Error.timeout) unusable asks h =
      (_, u, rw (unusable, h, ◌>>=◌) refl, no_block history v Error.timeout asks h (λ x. cc))
  by_latest-Ends estimate history w v u (err (Error.rpc_error e)) unusable asks h =
      (_, u, rw (unusable, h, ◌>>=◌) refl, no_block history v (Error.rpc_error e) asks h (λ x. cc))
  by_latest-Ends estimate history w v u (err Error.closed) unusable asks h =
      (_, u, rw (unusable, h, ◌>>=◌) refl, no_block history v Error.closed asks h (λ x. cc))
  by_latest-Ends estimate history w v u (err (Error.lagged n)) unusable asks h =
      (_, u, rw (unusable, h, ◌>>=◌) refl, no_block history v (Error.lagged n) asks h (λ x. cc))
  by_latest-Ends estimate history w v u (ok block) unusable asks h =
      go (base_fee_per_gas block) refl
    where
      go : (fee : Option ℕ) → base_fee_per_gas block ≡ fee → EndsEstimate estimate w v (ok history)
      go none priced =
          (_, u, rw (unusable, h, priced, ◌>>=◌) refl, unsupported history v block asks h priced)
      go (some fee) priced =
          (_, u, rw (unusable, h, priced, ◌>>=◌) refl, by_block history v block fee asks h priced)

  with_history-Ends :
      (estimate : ℕ → Rewards → Estimation) (w v : World P) (r : Result FeeHistory (Error T))
      → robust_rpc rt hints self get_fee_history w ≡ done r v
      → EndsEstimate estimate w v r
  unfolding base_fee
  with_history-Ends estimate w v (err e) h = (err e, v, refl, no_history e h)
  with_history-Ends estimate w v (ok history) h =
      go (usable_fee (latest_block_base_fee history)) refl
    where
      go :
          (o : Option ℕ)
          → usable_fee (latest_block_base_fee history) ≡ o
          → EndsEstimate estimate w v (ok history)
      go none unusable =
          let (r, u, e, _) = robust_rpc_or-AccountedOr laws hints self get_latest_block v in
          by_latest-Ends estimate history w v u r unusable
            (h, usable_fee-none rt hints self api (latest_block_base_fee history) unusable) e
      go (some fee) usable =
          let (listed, positive) =
            usable_fee-some rt hints self api (latest_block_base_fee history) fee usable in
          (_, v, rw (usable, ◌>>=◌) refl, by_history history fee h listed positive)

  -- The method always comes to a result. An estimate is the estimator's, from the rewards of the fee
  -- history and from the base fee that the history gives or, if it gives none or zero, the latest
  -- block. An error is that of the call for the history or for that block, with a missing block as
  -- alloy's `NullResp`; or `UnsupportedFeature`, when the block has no base fee.
  pub estimate_eip1559_fees_with-Estimates :
      (estimate : ℕ → Rewards → Estimation) (w : World P)
      → (r : Result Estimation (Error T)) × (u : World P) × (estimate_eip1559_fees_with rt hints
            self api estimate w
          ≡ done r u)
        × Estimates rt hints self api estimate w u r
  unfolding estimate_eip1559_fees_with
  estimate_eip1559_fees_with-Estimates estimate w =
      let (r, v, h, _) = robust_rpc-Accounted laws hints self get_fee_history w in
      let (e, u, ends, told) = with_history-Ends estimate w v r h in
      (e, u, rw (h, ◌>>=◌) ends, told)
