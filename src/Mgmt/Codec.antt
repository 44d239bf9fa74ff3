-- ===== src/Mgmt/Codec.antt =====
-- daemon/src/mgmt/codec.rs: line framing, and the reply of the one command in flight. The lossy
-- decoding of a line is the standard library's; it is any function `decode` here.
pub mod Chunks
pub mod Replies
mod Examples
use thisconnect.Prelude.{
  ℕ, ◌+◌, Option, none, some, List, [], ◌∷◌, ◌++◌, map, ltb, ◌==◌, if◌then◌else◌, Result, ok, err,
  length,
}
use thisconnect.Prelude.Text.{Text, Bytes, codes, text_eq, strip_prefix, starts_with}
use thisconnect.Mgmt.Escape.{MgmtError, line_too_long}
use thisconnect.Mgmt.Event
use thisconnect.Mgmt.Event.{Event}

-- `MAX_INBOUND_LINE_BYTES` of mgmt/mod.rs
abbrev pub max_inbound_line_bytes : ℕ
max_inbound_line_bytes = 8192

pub record LineSplitter : Type 0 where
  pub buffered : Bytes

abbrev pub empty : LineSplitter
empty = record { buffered = [] }

abbrev pub onto_parts : ℕ → List Bytes × Bytes → List Bytes × Bytes
onto_parts b ([], rest) = ([], b ∷ rest)
onto_parts b (l ∷ ls, rest) = ((b ∷ l) ∷ ls, rest)

abbrev pub new_line : List Bytes × Bytes → List Bytes × Bytes
new_line (ls, rest) = ([] ∷ ls, rest)

-- the `while let` loop: the pieces before each line feed, and what is behind the last one
unfoldable pub split_lines : Bytes → List Bytes × Bytes
split_lines [] = ([], [])
split_lines (b ∷ bs) =
    let parts = split_lines bs in if b == b'\n' then new_line parts else onto_parts b parts

-- the slice that `decode_line` decodes: less one carriage return at the end
unfoldable pub trim_cr : Bytes → Bytes
trim_cr [] = []
trim_cr (b ∷ []) = if b == b'\r' then [] else b ∷ []
trim_cr (b ∷ c ∷ bs) = b ∷ trim_cr (c ∷ bs)

module _ (decode : Bytes → Text) where
  abbrev pub decode_line : Bytes → Text
  decode_line raw = decode (trim_cr raw)

  -- `LineSplitter::push`
  unfoldable pub push : LineSplitter → Bytes → Result MgmtError (LineSplitter × List Text)
  push s chunk =
      let (ls, rest) = split_lines (s.buffered ++ chunk) in
      if ltb max_inbound_line_bytes (length rest)
      then err (line_too_long (length rest))
      else ok (record { buffered = rest }, map decode_line ls)

pub data Frame : Type 0 where
  event : Event → Frame
  success error data_line : Text → Frame
  end : Frame

unfoldable pub classify : Text → Frame
unfolding starts_with strip_prefix text_eq
classify line =
    if starts_with (codes ">") line
    then event (Event.parse line)
    else elim (strip_prefix (codes "SUCCESS: ") line) [
      | some text ↦ success text
      | none ↦ elim (strip_prefix (codes "ERROR: ") line) [
        | some text ↦ error text
        | none ↦ if text_eq line (codes "END") then end else data_line line
      ]
    ]

pub data ReplyStatus : Type 0 where
  success error end : ReplyStatus

pub record CommandReply : Type 0 where
  pub status : ReplyStatus
  pub text : Text
  pub body : List Text

pub record ReplyAccumulator : Type 0 where
  pub body : List Text

abbrev pub fresh : ReplyAccumulator
fresh = record { body = [] }

abbrev pub finish : ReplyAccumulator → ReplyStatus → Text → CommandReply
finish a status text = record { status = status; text = text; body = a.body }

-- `ReplyAccumulator::accept`
unfoldable pub accept : ReplyAccumulator → Frame → ReplyAccumulator × Option CommandReply
accept a (event e) = (a, none)
accept a (data_line l) = (record { body = a.body ++ l ∷ [] }, none)
accept a (Frame.success text) = (fresh, some (finish a ReplyStatus.success text))
accept a (Frame.error text) = (fresh, some (finish a ReplyStatus.error text))
accept a Frame.end = (fresh, some (finish a ReplyStatus.end []))
