-- ===== src/Proxy/Http/Head/Bounded.antt =====
-- How much `read_head` of proxy/src/http.rs reads at most.
use thisconnect.Prelude.{
  ℕ, ◌+◌, ◌-◌, ◌≤◌, ◌≡◌, some, List, [], ◌∷◌, ◌++◌, arith, Result, length, length-append,
}
use thisconnect.Prelude.Text.{Bytes}
use thisconnect.Proxy.Http.{max_head_bytes}
use thisconnect.Proxy.Http.Client.{Client, AtEnd, Stop}
use thisconnect.Proxy.Http.Head.{RawHead, checked, read_more, read_head}
use thisconnect.Proxy.Http.Head.Whole.{
  found, too_large, unfinished, Checked_cases, read_more-decided, read_more-next,
}

-- What is left of the reads where no more than a number of them were made.
abbrev LeavesAll : ℕ → List Bytes → Result Stop RawHead × List Bytes → Type 0
LeavesAll n chunks after = length chunks ≤ length (after.1) + n

decided-LeavesAll :
    (n : ℕ) (buf : Bytes) (chunks : List Bytes) (at_end : AtEnd) (r : Result Stop RawHead)
    → checked buf ≡ some r
    → LeavesAll n chunks (read_more buf chunks at_end)
decided-LeavesAll n buf chunks at_end r c =
    rw (read_more-decided buf chunks at_end r c) (omega arith)

read_more-LeavesAll :
    (buf : Bytes) (chunks : List Bytes) (at_end : AtEnd)
    → LeavesAll (max_head_bytes - length buf) chunks (read_more buf chunks at_end)
read_more-LeavesAll buf [] at_end = omega arith
read_more-LeavesAll buf ([] ∷ chunks) at_end = elim (Checked_cases buf) [
  | found e k c ↦ decided-LeavesAll _ buf ([] ∷ chunks) at_end _ c
  | too_large k l c ↦ decided-LeavesAll _ buf ([] ∷ chunks) at_end _ c
  | unfinished k l c ↦ rw (read_more-next buf [] chunks at_end c) (omega (arith, l))
]
read_more-LeavesAll buf ((x ∷ chunk) ∷ chunks) at_end = elim (Checked_cases buf) [
  | found e k c ↦ decided-LeavesAll _ buf ((x ∷ chunk) ∷ chunks) at_end _ c
  | too_large k l c ↦ decided-LeavesAll _ buf ((x ∷ chunk) ∷ chunks) at_end _ c
  | unfinished k l c ↦ rw (read_more-next buf (x ∷ chunk) chunks at_end c) (
      omega (
        arith,
        l,
        length-append {0} buf (x ∷ chunk),
        read_more-LeavesAll (buf ++ (x ∷ chunk)) chunks at_end,
      ))
]

-- `read_head` ends for every client, and after at most 8192 reads that came back, whether it
-- returns a head or an error.
pub read_head-ends : (w : Client) → length w.reads ≤ length ((read_head w).1).reads + max_head_bytes
unfolding read_head
read_head-ends w = read_more-LeavesAll [] w.reads w.at_end
