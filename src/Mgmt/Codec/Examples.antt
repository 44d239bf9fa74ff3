-- ===== src/Mgmt/Codec/Examples.antt =====
-- A greeting cut in the middle of a line, and a reply with a notification inside.
use thisconnect.Prelude.{◌≤◌, ◌≡◌, refl, false, List, [], ◌∷◌, ◌++◌, map, ◌==◌, ok, length, any}
use thisconnect.Prelude.Text.{Text, Bytes, codes, is_ascii_alphanumeric, byte_len}
use thisconnect.Mgmt.Escape.{build_command, append_params, escape_param, check_line_length}
use thisconnect.Mgmt.Escape.Framing.{IsSent, build_command-IsSent}
use thisconnect.Mgmt.Event
use thisconnect.Mgmt.Codec.{
  LineSplitter, empty, split_lines, trim_cr, decode_line, push, Frame, event, data_line, classify,
  ReplyStatus, fresh,
}
use thisconnect.Mgmt.Codec.Chunks.{joined, chunks_do_not_matter, joined-push}
use thisconnect.Mgmt.Codec.Replies.{replies, replies-body, replies-keep}

abbrev same : Bytes → Text
same b = b

abbrev pieces : List Bytes
pieces = codes ">IN" ∷ codes "FO:ready\r\nSUCC" ∷ codes "ESS: done\r\nEN" ∷ []

abbrev left_over : LineSplitter
left_over = record { buffered = codes "EN" }

abbrev both_lines : List Text
both_lines = codes ">INFO:ready" ∷ codes "SUCCESS: done" ∷ []

chunks_do_not_matter_example :
    (push same empty (codes ">INFO:ready\r\nSUCCESS: done\r\nEN") ≡ ok (left_over, both_lines))
    × (length left_over.buffered ≤ 8192)
    × (any (λ b. b == b'\n') left_over.buffered ≡ false)
chunks_do_not_matter_example =
    chunks_do_not_matter same empty (codes ">IN")
      (codes "FO:ready\r\nSUCC" ∷ codes "ESS: done\r\nEN" ∷ []) left_over both_lines
      (unfold push split_lines trim_cr in refl)

joined-push_example :
    (raw : List Bytes) × (codes ">IN" ∷ [] ≡ map (decode_line same) raw)
    × (joined raw (codes "EN") ≡ codes ">IN\r\nEN")
joined-push_example =
    joined-push same empty (codes ">IN\r\nEN") left_over (codes ">IN" ∷ [])
      (unfold push split_lines trim_cr in refl)

abbrev body : List Frame
body =
    data_line (codes "OpenVPN 2.6")
    ∷ event (Event.Event.info (codes "noise"))
    ∷ data_line (codes "Management 5")
    ∷ []

replies-body_example :
    replies fresh (body ++ Frame.end ∷ [])
    ≡ record {
      status = ReplyStatus.end;
      text = [];
      body = codes "OpenVPN 2.6" ∷ codes "Management 5" ∷ [];
    }
      ∷ replies fresh []
replies-body_example = replies-body body Frame.end [] refl refl

replies-keep_example :
    replies fresh (data_line (codes "OpenVPN 2.6") ∷ data_line (codes "Management 5") ∷ [])
    ≡ replies fresh body
replies-keep_example = replies-keep fresh body

-- A password with a space at its end, a quote and a comment sign.
abbrev secret : Text
secret = codes "a\"b# "

abbrev sent : Text
sent = codes "password \"Auth\" \"a\\\"b# \""

build_command-IsSent_example : IsSent (codes "password") (codes "Auth" ∷ secret ∷ []) sent
build_command-IsSent_example =
    build_command-IsSent (codes "password") (codes "Auth" ∷ secret ∷ []) sent (
      unfold build_command append_params escape_param check_line_length byte_len
        is_ascii_alphanumeric in
      refl)

classify_fatal : classify (codes ">FATAL:gone") ≡ event (Event.Event.fatal (codes "gone"))
unfolding classify Event.parse
classify_fatal = refl
