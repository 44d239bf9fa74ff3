-- ===== src/Mgmt/Event.antt =====
-- daemon/src/mgmt/event.rs: the notifications of openvpn. Parsing is total.
mod Types
mod Fields
mod Password
mod Words
pub use Types.*
unfoldable pub use Fields.{
  parse_state, is_connected, parse_hold, parse_bytecount, parse_need, parse_log, field_at,
  state_from,
}
unfoldable pub use Password.{
  split_quoted, extract_quoted, parse_password_need, parse_verification_failed, parse_password,
}
unfoldable pub use Words.{parse_info_msg, parse_bare_updown, parse_env, parse_updown}
use thisconnect.Prelude.{◌-◌, none, some, [], if◌then◌else◌}
use thisconnect.Prelude.Text.{Text, codes, text_eq, strip_prefix}
use thisconnect.Prelude.Split.{split_once}

-- the `match` on the tag in `Event::parse`
unfoldable pub parse_tagged : Text → Text → Event
unfolding parse_state parse_hold parse_password parse_log parse_bytecount parse_updown
    parse_info_msg parse_need text_eq
parse_tagged tag payload =
    if text_eq tag (codes "INFO")
    then info payload
    else if text_eq tag (codes "STATE")
    then elim (parse_state payload) [ none ↦ unknown tag payload | some s ↦ state s ]
    else if text_eq tag (codes "HOLD")
    then parse_hold payload
    else if text_eq tag (codes "PASSWORD")
    then password (parse_password payload)
    else if text_eq tag (codes "LOG")
    then log (parse_log payload)
    else if text_eq tag (codes "BYTECOUNT")
    then elim (parse_bytecount payload) [ none ↦ unknown tag payload | some e ↦ e ]
    else if text_eq tag (codes "UPDOWN")
    then updown (parse_updown payload)
    else if text_eq tag (codes "FATAL")
    then fatal payload
    else if text_eq tag (codes "INFOMSG")
    then info_msg (parse_info_msg payload)
    else if text_eq tag (codes "NEED-OK")
    then parse_need need_ok (unknown tag payload) payload
    else if text_eq tag (codes "NEED-STR")
    then parse_need need_str (unknown tag payload) payload
    else unknown tag payload

-- `Event::parse`
unfoldable pub parse : Text → Event
unfolding parse_tagged strip_prefix split_once
parse line =
    let body : Text = elim (strip_prefix (codes ">") line) [ none ↦ line | some rest ↦ rest ] in
    elim (split_once b':' body) [
      | none ↦ parse_tagged body []
      | some (tag, payload) ↦ parse_tagged tag payload
    ]
