-- ===== src/Ovpn/Error.antt =====
-- shared/src/ovpn/error.rs, and the limits of shared/src/ovpn/mod.rs. The message text of a
-- refused argument is not kept.
use thisconnect.Prelude.{ℕ, ◌*◌, Option, none, some}
use thisconnect.Prelude.Text.{Text}

pub data ValidationError : Type 0 where
  file_too_large : ℕ → ℕ → ValidationError
  line_too_long : ℕ → ℕ → ValidationError
  nul_byte : ℕ → ValidationError
  unterminated_quote : ℕ → ValidationError
  too_many_arguments : ℕ → ℕ → ValidationError
  too_many_directives : ℕ → ValidationError
  too_many_inline_blocks : ℕ → ValidationError
  inline_block_too_large : ℕ → Text → ℕ → ValidationError
  unterminated_inline_block : ℕ → Text → ValidationError
  unexpected_inline_close : ℕ → Text → ValidationError
  forbidden_inline_tag : ℕ → Text → ValidationError
  duplicate_inline_tag : ℕ → Text → ValidationError
  nested_inline_block : ℕ → Text → ValidationError
  forbidden_directive : ℕ → Text → Text → ValidationError
  unknown_directive : ℕ → Text → ValidationError
  invalid_argument : ℕ → Text → ValidationError
  unsafe_argument : ℕ → Text → ValidationError
  empty_profile missing_remote : ValidationError

abbrev pub max_file_bytes : ℕ
max_file_bytes = 256 * 1024

abbrev pub max_directives : ℕ
max_directives = 256

abbrev pub max_line_bytes : ℕ
max_line_bytes = 4096

abbrev pub max_inline_bytes : ℕ
max_inline_bytes = 128 * 1024

abbrev pub max_inline_blocks : ℕ
max_inline_blocks = 16

abbrev pub max_args : ℕ
max_args = 16

-- `ValidationError::line`
unfoldable pub line : ValidationError → Option ℕ
line (line_too_long l max) = some l
line (nul_byte l) = some l
line (unterminated_quote l) = some l
line (too_many_arguments l max) = some l
line (unterminated_inline_block l tag) = some l
line (unexpected_inline_close l tag) = some l
line (nested_inline_block l tag) = some l
line (inline_block_too_large l tag max) = some l
line (forbidden_inline_tag l tag) = some l
line (forbidden_directive l name reason) = some l
line (unknown_directive l name) = some l
line (invalid_argument l name) = some l
line (unsafe_argument l name) = some l
line _ = none

-- `ValidationError::directive`
unfoldable pub directive : ValidationError → Option Text
directive (forbidden_directive l name reason) = some name
directive (unknown_directive l name) = some name
directive (invalid_argument l name) = some name
directive (unsafe_argument l name) = some name
directive (unterminated_inline_block l tag) = some tag
directive (unexpected_inline_close l tag) = some tag
directive (nested_inline_block l tag) = some tag
directive (inline_block_too_large l tag max) = some tag
directive (forbidden_inline_tag l tag) = some tag
directive (duplicate_inline_tag l tag) = some tag
directive _ = none
