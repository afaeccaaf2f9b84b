-- ===== src/Provider/Accessors.antt =====
-- What a robust provider tells of its settings: the accessors of src/robust_provider/provider.rs.
use robust_provider.Prelude.{ℕ, List}
use robust_provider.Provider.{RobustProvider}

module _ {P : Type 0} where
  unfoldable pub primary : RobustProvider P → P
  primary self = self.primary_provider

  unfoldable pub fallback_providers : RobustProvider P → List P
  fallback_providers self = self.fallback_providers

  unfoldable pub call_timeout : RobustProvider P → ℕ
  call_timeout self = self.call_timeout

  unfoldable pub max_retries : RobustProvider P → ℕ
  max_retries self = self.max_retries

  unfoldable pub min_delay : RobustProvider P → ℕ
  min_delay self = self.min_delay
