-- ===== src/Errors/Geth.antt =====
-- `mod geth` of src/robust_provider/errors.rs.
use robust_provider.Prelude.{
  ℤ, negsuc, int_eq, Message, codes, one_of, starts_with, ends_with, Bool, false, ◌&&◌, ◌||◌, not,
  List, [], ◌∷◌, if◌then◌else◌,
}

abbrev pub default_error_code : ℤ
default_error_code = negsuc 31999

abbrev pub invalid_params_error_code : ℤ
invalid_params_error_code = negsuc 32601

abbrev pub missing_block_messages : List Message
missing_block_messages =
    codes "pending block is not available"
    ∷ codes "finalized block not found"
    ∷ codes "safe block not found"
    ∷ codes "earliest header not found"
    ∷ codes "finalized header not found"
    ∷ codes "safe header not found"
    ∷ codes "header not found"
    ∷ codes "header for hash not found"
    ∷ []

unfoldable pub is_block_not_found : ℤ → Message → Bool
is_block_not_found code message =
    if not (int_eq code default_error_code)
    then false
    else one_of message missing_block_messages
      || (starts_with message (codes "block") && ends_with message (codes "not found"))

-- The messages that go with either code.
abbrev pub filter_messages : List Message
filter_messages =
    codes "invalid block range params"
    ∷ codes "block range extends beyond current head block"
    ∷ codes "can't specify fromBlock/toBlock with blockHash"
    ∷ codes "pending logs are not supported"
    ∷ []

-- The messages that go with the default code only.
abbrev pub default_filter_messages : List Message
default_filter_messages =
    codes "unknown block"
    ∷ codes "exceed max topics"
    ∷ codes "exceed max addresses or topics per search position"
    ∷ codes "filter not found"
    ∷ []

unfoldable pub is_invalid_log_filter : ℤ → Message → Bool
is_invalid_log_filter code message =
    ((int_eq code default_error_code || int_eq code invalid_params_error_code)
      && one_of message filter_messages)
    || (int_eq code default_error_code && one_of message default_filter_messages)
