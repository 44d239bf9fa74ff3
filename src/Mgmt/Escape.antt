-- ===== src/Mgmt/Escape.antt =====
-- daemon/src/mgmt/escape.rs: parameters as openvpn's configuration lexer reads them back.
pub mod Framing
use thisconnect.Prelude.{
  ◌>>=◌, ◌>>◌, ℕ, ◌+◌, ◌-◌, Bool, not, ◌||◌, List, [], ◌∷◌, ◌++◌, ltb, ◌==◌, if◌then◌else◌, Result,
  ok, err, is_empty, all, any,
}
use thisconnect.Prelude.Text.{Text, is_ascii_alphanumeric, byte_len}

-- `MgmtError` of mgmt/mod.rs, less those that only the socket raises.
pub data MgmtError : Type 0 where
  line_too_long : ℕ → MgmtError
  forbidden_control_char invalid_verb missing_dev : MgmtError
  invalid_challenge : Text → MgmtError

-- `MAX_LINE_BYTES` of mgmt/mod.rs
abbrev pub max_line_bytes : ℕ
max_line_bytes = 900

-- The bytes looked for are ASCII, and no other character's encoding holds an ASCII byte, so a test
-- on bytes is the test on characters.
abbrev pub is_framing_hazard : ℕ → Bool
is_framing_hazard c = c == b'\n' || c == b'\r' || c == 0

abbrev pub is_verb_byte : ℕ → Bool
is_verb_byte c = is_ascii_alphanumeric c || c == b'-' || c == b'_'

-- one turn of the fold: what is pushed for a character
unfoldable pub escape_char : ℕ → Text
escape_char ch = if ch == b'"' || ch == b'\\' then b'\\' ∷ ch ∷ [] else ch ∷ []

unfoldable pub escape_body : Text → Text
unfolding escape_char
escape_body [] = []
escape_body (ch ∷ rest) = escape_char ch ++ escape_body rest

unfoldable pub escape_param : Text → Result MgmtError Text
unfolding escape_body
escape_param raw =
    if any is_framing_hazard raw
    then err forbidden_control_char
    else ok (b'"' ∷ (escape_body raw ++ b'"' ∷ []))

unfoldable pub check_line_length : Text → Result MgmtError Unit
check_line_length line =
    if ltb max_line_bytes (byte_len line)
    then err (line_too_long (byte_len line))
    else if any is_framing_hazard line
    then err forbidden_control_char
    else ok tt

-- the `try_fold` over the parameters
unfoldable pub append_params : Text → List Text → Result MgmtError Text
append_params acc [] = ok acc
append_params acc (param ∷ rest) = do
  escaped ← escape_param param
  append_params (acc ++ (b' ' ∷ escaped)) rest

unfoldable pub build_command : Text → List Text → Result MgmtError Text
build_command verb params =
    if is_empty verb || not (all is_verb_byte verb)
    then err invalid_verb
    else (do line ← append_params verb params; check_line_length line; ok line)
