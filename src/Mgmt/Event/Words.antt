-- ===== src/Mgmt/Event/Words.antt =====
-- `InfoMsg::parse` and `UpDown::parse` of daemon/src/mgmt/event.rs.
use thisconnect.Prelude.{none, some, if◌then◌else◌}
use thisconnect.Prelude.Text.{Text, codes, text_eq, strip_prefix, trim}
use thisconnect.Prelude.Split.{split_once}
use thisconnect.Mgmt.Event.Types.{InfoMsg, UpDown, cr_text, up, down, env_begin, env_end, env}

-- `InfoMsg::parse`
unfoldable pub parse_info_msg : Text → InfoMsg
unfolding strip_prefix
parse_info_msg payload = elim (strip_prefix (codes "CR_TEXT:") payload) [
  | some text ↦ cr_text text
  | none ↦ InfoMsg.other payload
]

-- the `_` arm of `UpDown::parse`
unfoldable pub parse_bare_updown : Text → UpDown
unfolding trim text_eq
parse_bare_updown payload =
    let word = trim payload in
    if text_eq word (codes "UP")
    then up
    else if text_eq word (codes "DOWN")
    then down
    else UpDown.other word

unfoldable pub parse_env : Text → Text → UpDown
unfolding split_once text_eq
parse_env payload entry =
    if text_eq entry (codes "END")
    then env_end
    else if text_eq entry (codes "BEGIN")
    then env_begin
    else elim (split_once b'=' entry) [
      | some (key, value) ↦ env key value
      | none ↦ UpDown.other payload
    ]

-- `UpDown::parse`
unfoldable pub parse_updown : Text → UpDown
unfolding parse_env parse_bare_updown split_once text_eq
parse_updown payload = elim (split_once b',' payload) [
  | none ↦ parse_bare_updown payload
  | some (word, entry) ↦
      if text_eq word (codes "ENV") then parse_env payload entry else parse_bare_updown payload
]
