-- ===== src/Mgmt/Codec/Replies.antt =====
-- `ReplyAccumulator::accept` of daemon/src/mgmt/codec.rs over a stream of frames.
use thisconnect.Prelude.{
  arith, ◌≡◌, refl, ap, ◌∙◌, Bool, true, false, not, Option, none, some, List, [], ◌∷◌, ◌++◌,
  append-nil, append_assoc, any, keep,
}
use thisconnect.Prelude.Text.{Text}
use thisconnect.Mgmt.Codec.{
  Frame, event, data_line, ReplyStatus, CommandReply, ReplyAccumulator, fresh, accept,
}

abbrev push_reply : Option CommandReply → List CommandReply → List CommandReply
push_reply none rs = rs
push_reply (some r) rs = r ∷ rs

-- The replies that a stream of frames completes, in order.
unfoldable pub replies : ReplyAccumulator → List Frame → List CommandReply
unfolding accept
replies a [] = []
replies a (f ∷ fs) = let (a', done) = accept a f in push_reply done (replies a' fs)

abbrev pub is_event : Frame → Bool
is_event (event e) = true
is_event _ = false

abbrev pub is_terminal : Frame → Bool
is_terminal (event e) = false
is_terminal (data_line l) = false
is_terminal _ = true

abbrev pub data_lines : List Frame → List Text
data_lines [] = []
data_lines (data_line l ∷ fs) = l ∷ data_lines fs
data_lines (_ ∷ fs) = data_lines fs

abbrev pub status_of : Frame → ReplyStatus
status_of (Frame.success t) = ReplyStatus.success
status_of (Frame.error t) = ReplyStatus.error
status_of _ = ReplyStatus.end

abbrev pub text_of : Frame → Text
text_of (Frame.success t) = t
text_of (Frame.error t) = t
text_of _ = []

replies_terminal :
    (a : ReplyAccumulator) (f : Frame) (fs : List Frame)
    → is_terminal f ≡ true
    → replies a (f ∷ fs)
      ≡ record { status = status_of f; text = text_of f; body = a.body } ∷ replies fresh fs
unfolding replies
replies_terminal a (event e) fs h = cc
replies_terminal a (data_line l) fs h = cc
replies_terminal a (Frame.success t) fs h = refl
replies_terminal a (Frame.error t) fs h = refl
replies_terminal a Frame.end fs h = refl

replies-body_from :
    (a : ReplyAccumulator) (body : List Frame) (f : Frame) (rest : List Frame)
    → any is_terminal body ≡ false
    → is_terminal f ≡ true
    → replies a (body ++ f ∷ rest)
      ≡ record { status = status_of f; text = text_of f; body = a.body ++ data_lines body }
        ∷ replies fresh rest
unfolding replies
replies-body_from a [] f rest h k = rw append-nil (replies_terminal a f rest k)
replies-body_from a (event e ∷ body) f rest h k = replies-body_from a body f rest h k
replies-body_from a (data_line l ∷ body) f rest h k =
    replies-body_from (record { body = a.body ++ l ∷ [] }) body f rest h k
    ∙ ap
        (λ (t : List Text).
          record { status = status_of f; text = text_of f; body = t } ∷ replies fresh rest)
        (append_assoc a.body (l ∷ []) (data_lines body))
replies-body_from a (Frame.success t ∷ body) f rest h k = cc
replies-body_from a (Frame.error t ∷ body) f rest h k = cc
replies-body_from a (Frame.end ∷ body) f rest h k = cc

-- From a fresh accumulator, the first terminal frame completes a reply with that frame's status and
-- text, whose lines are exactly the data lines before it, in order, however many notifications are
-- interleaved with them; what follows starts afresh.
pub replies-body :
    (body : List Frame) (f : Frame) (rest : List Frame)
    → any is_terminal body ≡ false
    → is_terminal f ≡ true
    → replies fresh (body ++ f ∷ rest)
      ≡ record { status = status_of f; text = text_of f; body = data_lines body }
        ∷ replies fresh rest
replies-body body f rest h k = replies-body_from fresh body f rest h k

-- Notifications never reach a reply: the replies are those of the stream without them.
pub replies-keep :
    (a : ReplyAccumulator) (fs : List Frame)
    → replies a (keep (λ f. not (is_event f)) fs) ≡ replies a fs
unfolding replies
replies-keep a [] = refl
replies-keep a (event e ∷ fs) = replies-keep a fs
replies-keep a (data_line l ∷ fs) = replies-keep (record { body = a.body ++ l ∷ [] }) fs
replies-keep a (Frame.success t ∷ fs) = ground (arith, replies-keep fresh fs)
replies-keep a (Frame.error t ∷ fs) = ground (arith, replies-keep fresh fs)
replies-keep a (Frame.end ∷ fs) = ground (arith, replies-keep fresh fs)
