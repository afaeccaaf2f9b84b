-- ===== src/Fixtures.antt =====
-- The data that the tests of the components share: three nodes behind src/robust_provider/provider.rs.
use robust_provider.Prelude.{ℕ, ◌==◌, ◌∷◌, [], true, false, codes, if◌then◌else◌}
use robust_provider.Errors.{ErrorPayload, error_resp}
use robust_provider.Errors.Classify.{RetryHints}
use robust_provider.Errors.Geth.{default_error_code}
use robust_provider.Runtime.{World, answers, silent, ok, err}
use robust_provider.Provider.{RobustProvider, Operation}

abbrev pub hints : RetryHints (Unit {0})
hints = record { payload_is_retry_err = λ _. false; transport_is_retry_err = λ _. true }

abbrev pub start : World ℕ
start = record { now = 5; calls = [] }

-- The primary provider is node 1, the fallbacks are 2 and 3.
abbrev pub provider : RobustProvider ℕ
provider = record {
  primary_provider = 1;
  fallback_providers = 2 ∷ 3 ∷ [];
  call_timeout = 1000;
  subscription_timeout = 2000;
  max_retries = 2;
  min_delay = 10;
  reconnect_interval = 100;
  subscription_buffer_capacity = 8;
  poll_interval = 50;
  allow_http_subscriptions = true;
}

abbrev pub alone : RobustProvider ℕ
alone = record provider { fallback_providers = [] }

abbrev pub header_not_found : ErrorPayload
header_not_found = record { code = default_error_code; message = codes "header not found" }

abbrev pub invalid_range : ErrorPayload
invalid_range = record { code = default_error_code; message = codes "invalid block range params" }

-- Node 1 is silent, node 2 does not know the block, and node 3 answers.
abbrev pub ask : {A : Type 0} → A → Operation ℕ (Unit {0}) A
ask value node w =
    if node == 1
    then silent
    else if node == 2
    then answers 4 (err (error_resp header_not_found))
    else answers 7 (ok value)

abbrev pub number : Operation ℕ (Unit {0}) ℕ
number = ask 42
