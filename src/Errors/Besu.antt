-- ===== src/Errors/Besu.antt =====
-- `mod besu` of src/robust_provider/errors.rs.
use robust_provider.Prelude.{ℤ, negsuc, int_eq, Message, codes, text_eq, Bool, ◌&&◌}

abbrev pub unknown_block_error_code : ℤ
unknown_block_error_code = negsuc 39000

unfoldable pub is_block_not_found : ℤ → Message → Bool
is_block_not_found code message =
    int_eq code unknown_block_error_code && text_eq message (codes "Unknown block")
