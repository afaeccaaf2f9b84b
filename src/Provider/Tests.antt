-- ===== src/Provider/Tests.antt =====
-- Tests of src/robust_provider/provider.rs, by the theorems at concrete inputs: node 1 is silent,
-- node 2 does not know the block, and node 3 answers.
use robust_provider.Prelude.{ℕ, ◌≡◌, refl, ◌∷◌, [], arith, one_of, length, leb, if◌then◌else◌}
use robust_provider.Fixtures.{hints, start, provider, header_not_found, number}
use robust_provider.Errors.{error_resp, transport, FailoverError}
use robust_provider.Errors.Classify.{is_block_not_found, is_retryable_error, should_retry}
use robust_provider.Errors.Geth
use robust_provider.Errors.Convert.{failover_from_rpc}
use robust_provider.Runtime.{World, done, answers, ok, err}
use robust_provider.Runtime.Instance.{simple_runtime, simple_laws, settle, retry_loop, doubling}
use robust_provider.Provider.{
  Operation, attempt, retried, try_provider_with_timeout, try_operation_with_failover,
}
use robust_provider.Provider.CallLog.{Completes, try_operation-Completes}
use robust_provider.Provider.Outcome.{Outcome, try_operation-Outcome}
use robust_provider.Provider.Spacing.{Spaced, try_provider-Spaced}
use robust_provider.Provider.Retries.{Meaning, try_provider-Meaning, try_provider-first_answer}

try_operation-Outcome_example :
    Outcome
      (simple_runtime ℕ)
      hints
      provider
      number
      start
      FailoverError.closed
      (try_operation_with_failover (simple_runtime ℕ) hints provider number start)
try_operation-Outcome_example =
    try_operation-Outcome (simple_runtime ℕ) hints provider number (simple_laws ℕ) start
      FailoverError.closed

try_operation-Completes_example : Completes (simple_laws ℕ) hints provider number start
try_operation-Completes_example =
    try_operation-Completes (simple_laws ℕ) hints provider number start

-- What node 3 leaves.
abbrev answered : World ℕ
answered = record { now = 12; calls = 3 ∷ [] }

try_provider-Meaning_example :
    Meaning (simple_laws ℕ) hints provider number 3 start (ok 42) answered
unfolding try_provider_with_timeout retried simple_runtime settle retry_loop doubling attempt
try_provider-Meaning_example =
    try_provider-Meaning (simple_laws ℕ) hints provider number 3 start (ok 42) answered refl

try_provider-first_answer_example :
    try_provider_with_timeout (simple_runtime ℕ) hints provider number 2 start
    ≡ done
        (err (FailoverError.rpc_error (error_resp header_not_found)))
        (record { now = 9; calls = 2 ∷ [] })
unfolding should_retry is_retryable_error is_block_not_found Geth.is_block_not_found one_of
    failover_from_rpc
try_provider-first_answer_example =
    try_provider-first_answer (simple_laws ℕ) hints provider number 2 start
      (err (error_resp header_not_found)) 4 refl refl (omega arith)

-- The node fails twice, and then answers.
abbrev flaky : Operation ℕ (Unit {0}) ℕ
flaky node w = if leb (length w.calls) 2 then answers 4 (err (transport tt)) else answers 4 (ok 9)

abbrev recovered : World ℕ
recovered = record { now = 47; calls = 3 ∷ 3 ∷ 3 ∷ [] }

try_provider-Spaced_example : Spaced flaky 3 10 2 start recovered
unfolding try_provider_with_timeout retried simple_runtime settle retry_loop doubling attempt
    should_retry
try_provider-Spaced_example =
    try_provider-Spaced (simple_laws ℕ) hints provider flaky 3 start recovered (ok 9) (omega arith)
      refl (λ x. cc)
