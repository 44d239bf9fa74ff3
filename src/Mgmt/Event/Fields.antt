-- ===== src/Mgmt/Event/Fields.antt =====
-- The notifications of daemon/src/mgmt/event.rs that are lists of fields.
use thisconnect.Prelude.{
  ℕ, Bool, Option, none, some, List, [], ◌∷◌, if◌then◌else◌, drop, get_elem?, is_empty,
}
use thisconnect.Prelude.Text.{Text, codes, text_eq, trim}
use thisconnect.Prelude.Split.{split_once, rsplit_once, split, parse_unsigned, parse_i64, u64_max}
use thisconnect.Mgmt.Challenge.{splitn}
use thisconnect.Mgmt.Event.Types.{StateEvent, LogEvent, Event, hold, byte_count}

abbrev non_empty : Text → Option Text
non_empty t = if is_empty t then none else some t

-- the closure `at`
unfoldable pub field_at : List Text → ℕ → Option Text
unfolding trim
field_at fields i = elim (get_elem? fields i) [ none ↦ none | some v ↦ non_empty (trim v) ]

unfoldable pub state_from : List Text → Option StateEvent
unfolding field_at parse_i64
state_from fields = elim (field_at fields 1) [
  | none ↦ none
  | some name ↦ some (record {
    time = elim (field_at fields 0) [ none ↦ none | some v ↦ parse_i64 v ];
    name = name;
    description = field_at fields 2;
    local_v4 = field_at fields 3;
    remote_addr = field_at fields 4;
    remote_port = field_at fields 5;
    local_addr = field_at fields 6;
    local_port = field_at fields 7;
    local_v6 = field_at fields 8;
  })
]

-- `StateEvent::parse`
unfoldable pub parse_state : Text → Option StateEvent
unfolding state_from split
parse_state payload = state_from (split b',' payload)

unfoldable pub is_connected : StateEvent → Bool
unfolding text_eq
is_connected s = text_eq s.name (codes "CONNECTED")

unfoldable pub parse_hold : Text → Event
unfolding rsplit_once parse_unsigned trim
parse_hold payload = elim (rsplit_once b':' payload) [
  | none ↦ hold payload none
  | some (message, tail) ↦ elim (parse_unsigned u64_max (trim tail)) [
    | some seconds ↦ hold message (some seconds)
    | none ↦ hold payload none
  ]
]

unfoldable pub parse_bytecount : Text → Option Event
unfolding split_once parse_unsigned trim
parse_bytecount payload = elim (split_once b',' payload) [
  | none ↦ none
  | some (raw_in, raw_out) ↦ elim (parse_unsigned u64_max (trim raw_in)) [
    | none ↦ none
    | some bytes_in ↦ elim (parse_unsigned u64_max (trim raw_out)) [
      | none ↦ none
      | some bytes_out ↦ some (byte_count bytes_in bytes_out)
    ]
  ]
]

-- `parse_need`, with what its two callers make of the parts
unfoldable pub parse_need : (Text → Text → Event) → Event → Text → Event
unfolding split_once
parse_need make otherwise payload = elim (split_once b':' payload) [
  | none ↦ otherwise
  | some (kind, message) ↦ make kind message
]

abbrev first_or_empty : List Text → Text
first_or_empty [] = []
first_or_empty (x ∷ xs) = x

-- `LogEvent::parse`
unfoldable pub parse_log : Text → LogEvent
unfolding splitn parse_i64 trim
parse_log payload =
    let fields = splitn 3 b',' payload in
    record {
      time = parse_i64 (trim (first_or_empty fields));
      flags = first_or_empty (drop 1 fields);
      text = first_or_empty (drop 2 fields);
    }
