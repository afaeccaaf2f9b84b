-- ===== src/Builder/Conversion.antt =====
-- The conversions of src/robust_provider/provider_conversion.rs. alloy's `RootProvider::connect`, the
-- provider types that wrap a root provider, and reqwest's `Url` are parameters.
use robust_provider.Prelude.{Message}
use robust_provider.Errors.{RpcError, Error}
use robust_provider.Errors.Convert.{error_from_rpc}
use robust_provider.Runtime.{Fut, Result, ok, err, pure, ◌>>=◌}
use robust_provider.Provider.{RobustProvider}
use robust_provider.Builder.{ProviderFuture, IntoRootProvider, new, build}

-- What the conversions use of alloy and reqwest.
pub record Alloy (P T : Type 0) : Type 1 where
  pub Url : Type 0
  pub FillProvider : Type 0
  pub CacheProvider : Type 0
  pub DynProvider : Type 0
  pub CallBatchProvider : Type 0
  -- `RootProvider::connect(s)` and `url.as_str()`.
  pub connect : Message → Fut P (Result P (RpcError T))
  pub as_str : Url → Message
  -- `provider.root().to_owned()` for each wrapper.
  pub fill_root : FillProvider → P
  pub cache_root : CacheProvider → P
  pub dyn_root : DynProvider → P
  pub call_batch_root : CallBatchProvider → P

module _ {P T : Type 0} (alloy : Alloy P T) where
  -- `Ok(result?)` on the error of a connection.
  abbrev pub connected : Result P (RpcError T) → Result P (Error T)
  connected (ok provider) = ok provider
  connected (err e) = err (error_from_rpc e)

  -- `Ok(RootProvider::connect(s).await?)`.
  unfoldable pub connect_to : Message → ProviderFuture P T
  connect_to s = do provider ← alloy.connect s; pure (connected provider)

  abbrev pub root_provider : IntoRootProvider P T P
  root_provider = record { into_root_provider = λ self. pure (ok self) }

  abbrev pub str : IntoRootProvider P T Message
  str = record { into_root_provider = connect_to }

  abbrev pub url : IntoRootProvider P T alloy.Url
  url = record { into_root_provider = λ self. connect_to (alloy.as_str self) }

  abbrev pub fill_provider : IntoRootProvider P T alloy.FillProvider
  fill_provider = record { into_root_provider = λ self. pure (ok (alloy.fill_root self)) }

  abbrev pub cache_provider : IntoRootProvider P T alloy.CacheProvider
  cache_provider = record { into_root_provider = λ self. pure (ok (alloy.cache_root self)) }

  abbrev pub dyn_provider : IntoRootProvider P T alloy.DynProvider
  dyn_provider = record { into_root_provider = λ self. pure (ok (alloy.dyn_root self)) }

  abbrev pub call_batch_provider : IntoRootProvider P T alloy.CallBatchProvider
  call_batch_provider = record {
    into_root_provider = λ self. pure (ok (alloy.call_batch_root self));
  }

-- The trait `IntoRobustProvider` for the type `F`.
pub record IntoRobustProvider (P T F : Type 0) : Type 0 where
  pub into_robust_provider : F → Fut P (Result (RobustProvider P) (Error T))

module _ {P T : Type 0} where
  abbrev pub robust_provider_itself : IntoRobustProvider P T (RobustProvider P)
  robust_provider_itself = record { into_robust_provider = λ self. pure (ok self) }

  -- The other implementations all build with the default settings.
  abbrev pub with_defaults : {F : Type 0} → IntoRootProvider P T F → IntoRobustProvider P T F
  with_defaults conversion = record { into_robust_provider = λ self. build conversion (new self) }
