-- ===== src/Errors/Spec.antt =====
-- What the classification of src/robust_provider/errors.rs promises, as relations that name the
-- shapes of the clients' messages and not the tests that the code makes.
use robust_provider.Prelude.{ℤ, Message, codes, Among, ◌≡◌, ◌++◌}
use robust_provider.Errors.Geth.{
  default_error_code, missing_block_messages, filter_messages, default_filter_messages,
}
use robust_provider.Errors.Geth
use robust_provider.Errors.Besu.{unknown_block_error_code}
use robust_provider.Errors.Anvil

pub data BlockNotFound (code : ℤ) (message : Message) : Type 0 where
  geth_named :
      code ≡ default_error_code → Among message missing_block_messages → BlockNotFound code message
  -- "block {number} not found", for any text between the two ends.
  geth_tracer :
      (number : Message)
      → code ≡ default_error_code
      → message ≡ codes "block" ++ (number ++ codes "not found")
      → BlockNotFound code message
  besu_unknown :
      code ≡ unknown_block_error_code → message ≡ codes "Unknown block" → BlockNotFound code message
  anvil_range :
      (front rest : Message)
      → code ≡ Anvil.invalid_params_error_code
      → message ≡ front ++ (codes "BlockOutOfRangeError" ++ rest)
      → BlockNotFound code message

pub data InvalidLogFilter (code : ℤ) (message : Message) : Type 0 where
  default_code :
      code ≡ default_error_code
      → Among message (filter_messages ++ default_filter_messages)
      → InvalidLogFilter code message
  invalid_params :
      code ≡ Geth.invalid_params_error_code
      → Among message filter_messages
      → InvalidLogFilter code message
