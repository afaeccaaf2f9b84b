-- ===== src/Rpc/Fees.antt =====
-- `estimate_eip1559_fees_with` of src/robust_provider/provider.rs.
use robust_provider.Prelude.{ℕ, ◌≡◌, ◌≢◌, refl, ◌⊎◌, inl, inr, Option, none, some, arith, ap₂, ◌∙◌}
use robust_provider.Errors.{Error}
use robust_provider.Errors.Classify.{RetryHints}
use robust_provider.Errors.Convert.{error_from_rpc}
use robust_provider.Runtime.{World, done, Result, ok, err, Runtime, pure}
use robust_provider.Runtime.Calls.{bind-ends}
use robust_provider.Provider.{RobustProvider}
use robust_provider.Rpc.{
  robust_rpc, robust_rpc_or, FeeApi, base_fee, block_base_fee, usable_fee,
  estimate_eip1559_fees_with, or_unsupported, fee_or_latest, with_fee, or_default, with_history,
}

module _ {P T : Type 0} (rt : Runtime P) (hints : RetryHints T) (self : RobustProvider P)
    (api : FeeApi P T) where
  open api use {
    FeeHistory, Block, Rewards, Estimation, get_fee_history, get_latest_block,
    latest_block_base_fee, base_fee_per_gas, reward,
  }

  -- Where the base fee comes from: the fee history, if it has one that is not zero, and otherwise
  -- the latest block, which is fetched with failover.
  pub data Source (history : FeeHistory) (fee : ℕ) (v u : World P) : Type 0 where
    from_history :
        latest_block_base_fee history ≡ some fee → fee ≢ 0 → u ≡ v → Source history fee v u
    from_block :
        (block : Block)
        → ((latest_block_base_fee history ≡ none) ⊎ (latest_block_base_fee history ≡ some 0))
        → robust_rpc_or rt hints self Error.block_not_found get_latest_block v ≡ done (ok block) u
        → base_fee_per_gas block ≡ some fee
        → Source history fee v u

  pub usable_fee-none : (o : Option ℕ) → usable_fee o ≡ none → (o ≡ none) ⊎ (o ≡ some 0)
  usable_fee-none none h = inl refl
  usable_fee-none (some fee) h = inr (ground arith)

  pub usable_fee-some :
      (o : Option ℕ) (fee : ℕ) → usable_fee o ≡ some fee → (o ≡ some fee) × (fee ≢ 0)
  usable_fee-some none fee h = ground arith
  usable_fee-some (some n) fee h = ground arith

  or_unsupported-ok :
      (o : Option ℕ) (fee : ℕ) → or_unsupported rt hints self api o ≡ ok fee → o ≡ some fee
  or_unsupported-ok none fee h = cc
  or_unsupported-ok (some f) fee h = cc

  block_base_fee-ok :
      (r : Result Block (Error T)) (fee : ℕ)
      → block_base_fee rt hints self api r ≡ ok fee
      → (block : Block) × (r ≡ ok block) × (base_fee_per_gas block ≡ some fee)
  block_base_fee-ok (err e) fee h = cc
  block_base_fee-ok (ok block) fee h = (block, refl, or_unsupported-ok _ fee h)

  fee_or_latest-Source :
      (history : FeeHistory) (o : Option ℕ) (fee : ℕ) (v u : World P)
      → usable_fee (latest_block_base_fee history) ≡ o
      → fee_or_latest rt hints self api o v ≡ done (ok fee) u
      → Source history fee v u
  fee_or_latest-Source history none fee v u n h =
      let (r, x, fetched, e) =
        bind-ends (robust_rpc_or rt hints self Error.block_not_found get_latest_block)
          (λ block. pure (block_base_fee rt hints self api block)) v (ok fee) u h in
      let shown : block_base_fee rt hints self api r ≡ ok fee = cc in
      let same : x ≡ u = cc in
      let (block, is_block, priced) = block_base_fee-ok r fee shown in
      from_block block (usable_fee-none _ n)
        (fetched ∙ ap₂ (λ (a : Result Block (Error T)) (y : World P). done a y) is_block same)
        priced
  fee_or_latest-Source history (some f) fee v u s h = given f (usable_fee-some _ f s) (cc) (cc)
    where
      given :
          (f : ℕ)
          → (latest_block_base_fee history ≡ some f) × (f ≢ 0)
          → f ≡ fee
          → u ≡ v
          → Source history fee v u
      given f (listed, positive) same still =
          from_history (rw (← same) listed) (rw (← same) positive) still

  block_base_fee-ne-missing :
      (r : Result Block (Error T)) → block_base_fee rt hints self api r ≢ err Error.block_not_found
  unfolding error_from_rpc
  block_base_fee-ne-missing (ok block) h = or_unsupported-ne-missing (base_fee_per_gas block) h
    where
      or_unsupported-ne-missing :
          (o : Option ℕ) → or_unsupported rt hints self api o ≢ err Error.block_not_found
      or_unsupported-ne-missing none h = cc
      or_unsupported-ne-missing (some f) h = cc
  block_base_fee-ne-missing (err Error.block_not_found) h = cc
  block_base_fee-ne-missing (err (Error.rpc_error e)) h = cc
  block_base_fee-ne-missing (err Error.timeout) h = cc
  block_base_fee-ne-missing (err Error.closed) h = cc
  block_base_fee-ne-missing (err (Error.lagged n)) h = cc

  fee_or_latest-ne-missing :
      (o : Option ℕ) (v u : World P)
      → fee_or_latest rt hints self api o v ≢ done (err Error.block_not_found) u
  fee_or_latest-ne-missing (some fee) v u h = cc
  fee_or_latest-ne-missing none v u h =
      let (r, x, fetched, e) =
        bind-ends (robust_rpc_or rt hints self Error.block_not_found get_latest_block)
          (λ block. pure (block_base_fee rt hints self api block)) v (err Error.block_not_found) u
          h in
      block_base_fee-ne-missing r (cc)

  with_fee-ok :
      (estimate : ℕ → Rewards → Estimation) (history : FeeHistory) (r : Result ℕ (Error T))
      (e : Estimation)
      → with_fee rt hints self api estimate history r ≡ ok e
      → (fee : ℕ) × (r ≡ ok fee)
        × (e ≡ estimate fee (or_default rt hints self api (reward history)))
  with_fee-ok estimate history (err x) e h = cc
  with_fee-ok estimate history (ok fee) e h = (fee, refl, cc)

  -- The base fee of an estimate is the fee history's, if it has one that is not zero, and otherwise
  -- the latest block's.
  abbrev pub Estimated : (ℕ → Rewards → Estimation) → World P → World P → Estimation → Type 0
  Estimated estimate w u e =
      (history : FeeHistory) × (v : World P) × (fee : ℕ) × (robust_rpc rt hints self get_fee_history
          w
        ≡ done (ok history) v)
      × Source history fee v u
      × (e ≡ estimate fee (or_default rt hints self api (reward history)))

  with_history-Estimated :
      (estimate : ℕ → Rewards → Estimation) (r : Result FeeHistory (Error T)) (w v u : World P)
      (e : Estimation)
      → robust_rpc rt hints self get_fee_history w ≡ done r v
      → with_history rt hints self api estimate r v ≡ done (ok e) u
      → Estimated estimate w u e
  unfolding base_fee
  with_history-Estimated estimate (err x) w v u e f h = cc
  with_history-Estimated estimate (ok history) w v u e f h =
      let (r, x, priced, k) =
        bind-ends (base_fee rt hints self api history)
          (λ fee. pure (with_fee rt hints self api estimate history fee)) v (ok e) u h in
      let shown : with_fee rt hints self api estimate history r ≡ ok e = cc in
      let same : x ≡ u = cc in
      let (fee, is_fee, value) = with_fee-ok estimate history r e shown in
      (
        history,
        v,
        fee,
        f,
        fee_or_latest-Source history _ fee v u refl
            (priced ∙ ap₂ (λ (a : Result ℕ (Error T)) (y : World P). done a y) is_fee same),
        value,
      )

  -- An estimate is the estimator's, from the rewards of the fee history and from the base fee that
  -- the history gives or, if it gives none or zero, the latest block.
  pub estimate_eip1559_fees_with-Estimated :
      (estimate : ℕ → Rewards → Estimation) (w u : World P) (e : Estimation)
      → estimate_eip1559_fees_with rt hints self api estimate w ≡ done (ok e) u
      → Estimated estimate w u e
  unfolding estimate_eip1559_fees_with
  estimate_eip1559_fees_with-Estimated estimate w u e h =
      let (r, v, f, k) =
        bind-ends (robust_rpc rt hints self get_fee_history)
          (with_history rt hints self api estimate) w (ok e) u h in
      with_history-Estimated estimate r w v u e f k

  -- The base fee of an estimate is never reported as `BlockNotFound`, though the latest block may be
  -- missing.
  pub base_fee-ne-missing :
      (history : FeeHistory) (v u : World P)
      → base_fee rt hints self api history v ≢ done (err Error.block_not_found) u
  unfolding base_fee
  base_fee-ne-missing history v u h = fee_or_latest-ne-missing _ v u h
