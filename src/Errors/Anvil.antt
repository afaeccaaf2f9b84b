-- ===== src/Errors/Anvil.antt =====
-- `mod anvil` of src/robust_provider/errors.rs.
use robust_provider.Prelude.{
  ℤ, negsuc, int_eq, Message, codes, contains, Bool, false, not, if◌then◌else◌,
}

abbrev pub invalid_params_error_code : ℤ
invalid_params_error_code = negsuc 32601

unfoldable pub is_block_not_found : ℤ → Message → Bool
is_block_not_found code message =
    if not (int_eq code invalid_params_error_code)
    then false
    else contains message (codes "BlockOutOfRangeError")
