-- ===== src/Mgmt/Event/Password.antt =====
-- `PasswordEvent::parse` of daemon/src/mgmt/event.rs.
use thisconnect.Prelude.{Option, none, some, [], ◌++◌, if◌then◌else◌, Result, ok, err}
use thisconnect.Prelude.Text.{Text, codes, strip_prefix, starts_with, trim_start, trim, contains}
use thisconnect.Prelude.Split.{split_once, rsplit_once, split_once_text}
use thisconnect.Mgmt.Challenge.{StaticChallenge, DynamicChallenge, parse_static, parse_dynamic}
use thisconnect.Mgmt.Event.Types.{PasswordEvent, need, verification_failed, auth_token}
use thisconnect.Mgmt.Escape.{MgmtError}

-- `split_quoted`
unfoldable pub split_quoted : Text → Text × Text
unfolding trim_start strip_prefix split_once
split_quoted input =
    let trimmed = trim_start input in
    elim (strip_prefix (codes "'") trimmed) [
      | none ↦ ([], trimmed)
      | some rest ↦ elim (split_once b'\'' rest) [ none ↦ ([], trimmed) | some parts ↦ parts ]
    ]

-- `extract_quoted`: from behind the first quote up to the last one
unfoldable pub extract_quoted : Text → Option Text
unfolding split_once rsplit_once
extract_quoted input = elim (split_once b'\'' input) [
  | none ↦ none
  | some (_, rest) ↦ elim (rsplit_once b'\'' rest) [ none ↦ none | some (front, _) ↦ some front ]
]

abbrev need_from : Text → Text → Option StaticChallenge → PasswordEvent
need_from kind want challenge =
    need kind (contains want (codes "username")) (contains want (codes "password")) challenge

unfoldable pub parse_password_need : Text → PasswordEvent
unfolding split_quoted split_once_text parse_static contains
parse_password_need rest =
    let (kind, tail) = split_quoted rest in
    elim (split_once_text (codes "SC:") tail) [
      | some (want, sc) ↦ need_from kind want (parse_static (codes "SC:" ++ sc))
      | none ↦ need_from kind tail none
    ]

abbrev ok_of : Result MgmtError DynamicChallenge → Option DynamicChallenge
ok_of (ok d) = some d
ok_of (err e) = none

unfoldable pub parse_verification_failed : Text → PasswordEvent
unfolding split_quoted extract_quoted parse_dynamic
parse_verification_failed rest =
    let (kind, tail) = split_quoted rest in
    let reason = extract_quoted tail in
    verification_failed kind reason
      (elim reason [ none ↦ none | some value ↦ ok_of (parse_dynamic value) ])

-- `PasswordEvent::parse`
unfoldable pub parse_password : Text → PasswordEvent
unfolding parse_password_need parse_verification_failed strip_prefix starts_with trim
parse_password payload = elim (strip_prefix (codes "Need ") payload) [
  | some rest ↦ parse_password_need rest
  | none ↦ elim (strip_prefix (codes "Verification Failed:") payload) [
    | some rest ↦ parse_verification_failed (trim rest)
    | none ↦
        if starts_with (codes "Auth-Token:") payload
        then auth_token
        else PasswordEvent.other payload
  ]
]
