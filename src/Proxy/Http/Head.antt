-- ===== src/Proxy/Http/Head.antt =====
-- How proxy/src/http.rs reads the head of a request: as many reads as it takes to see the empty
-- line that ends it.
pub mod Terminator
pub mod Whole
pub mod Bounded
use thisconnect.Prelude.{
  ℕ, suc, ◌+◌, Option, none, some, List, [], ◌∷◌, ◌++◌, ltb, leb, if◌then◌else◌, Result, ok, err,
  length, take, drop, is_empty,
}
use thisconnect.Prelude.Text.{Bytes, codes, starts_with}
use thisconnect.Proxy.Http.{malformed, head_too_large, broken_io, max_head_bytes}
use thisconnect.Proxy.Http.Client.{AtEnd, closed, silent, broken, Stop, failed, elapsed, Talk}

abbrev pub terminator : Bytes
terminator = b'\r' ∷ b'\n' ∷ b'\r' ∷ b'\n' ∷ []

-- `windows(4).position(..)`
unfoldable pub position_of : Bytes → Option ℕ
unfolding starts_with
position_of [] = none
position_of (c ∷ cs) =
    let later = position_of cs in
    if starts_with terminator (c ∷ cs)
    then some 0
    else elim later [ none ↦ none | some i ↦ some (suc i) ]

unfoldable pub find_terminator : Bytes → Option ℕ
unfolding position_of
find_terminator buf = if ltb (length buf) 4 then none else position_of buf

pub record RawHead : Type 0 where
  pub head : Bytes
  pub pending : Bytes

abbrev pub at_end_error : AtEnd → Stop
at_end_error closed = failed (malformed (codes "closed before end of request head"))
at_end_error silent = elapsed
at_end_error broken = failed broken_io

-- what is done before the next read: the head is there, or it is too long, or neither
unfoldable pub checked : Bytes → Option (Result Stop RawHead)
unfolding find_terminator
checked buf = elim (find_terminator buf) [
  | some end ↦ some (ok (record { head = take end buf; pending = drop (end + 4) buf }))
  | none ↦ if leb max_head_bytes (length buf) then some (err (failed head_too_large)) else none
]

-- the loop, over what each read yields; no bytes mean that the client has closed its side
unfoldable pub read_more : Bytes → List Bytes → AtEnd → Result Stop RawHead × List Bytes
unfolding checked
read_more buf [] at_end = elim (checked buf) [
  | some r ↦ (r, [])
  | none ↦ (err (at_end_error at_end), [])
]
read_more buf (chunk ∷ chunks) at_end = elim (checked buf) [
  | some r ↦ (r, chunk ∷ chunks)
  | none ↦
      if is_empty chunk
      then (err (at_end_error closed), chunks)
      else read_more (buf ++ chunk) chunks at_end
]

unfoldable pub read_head : Talk RawHead
unfolding read_more
read_head w = let (r, rest) = read_more [] w.reads w.at_end in (r, record w { reads = rest })
