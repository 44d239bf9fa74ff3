-- ===== src/Proxy/Socks5/Limiter.antt =====
-- The throttle of failed authentications in proxy/src/socks5.rs. A time is a number of
-- nanoseconds; tokens are counted in twelve-thousand-millionths, of which one nanosecond gives
-- one (5 tokens in 60 seconds), so that the source's floating-point numbers are exact here. The
-- map is an association list.
pub mod Bounded
mod Ranked
pub mod Spared
pub mod Throttles
use thisconnect.Prelude.{
  ℕ, zero, suc, ◌+◌, ◌-◌, ◌*◌, ◌^◌, min, Bool, true, false, not, ◌&&◌, Option, none, some, List, [],
  ◌∷◌, ltb, leb, if◌then◌else◌, is_some, length, keep,
}
use thisconnect.Prelude.Text.{text_eq}
use thisconnect.Net.{IpAddr, v4, v6}

-- one token
abbrev pub token : ℕ
token = 12 * 10 ^ 9

-- `AUTH_FAILURE_BURST`
abbrev pub burst : ℕ
burst = 5 * token

abbrev pub max_tracked_peers : ℕ
max_tracked_peers = 4096

pub record Bucket : Type 0 where
  pub tokens : ℕ
  pub updated : ℕ

unfoldable pub full : ℕ → Bucket
full now = record { tokens = burst; updated = now }

unfoldable pub refilled : Bucket → ℕ → Bucket
refilled b now = record { tokens = min (b.tokens + (now - b.updated)) burst; updated = now }

unfoldable pub consumed : Bucket → Bucket
consumed b = record { tokens = b.tokens - token; updated = b.updated }

unfoldable pub same_ip : IpAddr → IpAddr → Bool
unfolding text_eq
same_ip (v4 a) (v4 b) = text_eq a b
same_ip (v6 a) (v6 b) = text_eq a b
same_ip _ _ = false

abbrev pub Buckets : Type 0
Buckets = List (IpAddr × Bucket)

-- `buckets.get(&peer)`
unfoldable pub find_bucket : IpAddr → Buckets → Option Bucket
unfolding same_ip
find_bucket peer [] = none
find_bucket peer ((p, b) ∷ rest) =
    let later = find_bucket peer rest in if same_ip p peer then some b else later

-- `buckets.insert(peer, next)`: in place of the entry that is there
unfoldable pub insert : IpAddr → Bucket → Buckets → Buckets
unfolding same_ip
insert peer next [] = (peer, next) ∷ []
insert peer next ((p, b) ∷ rest) =
    let later = insert peer next rest in if same_ip p peer then (p, next) ∷ rest else (p, b) ∷ later

-- `buckets.remove(&peer)`
unfoldable pub remove : IpAddr → Buckets → Buckets
unfolding same_ip
remove peer [] = []
remove peer ((p, b) ∷ rest) =
    let later = remove peer rest in if same_ip p peer then rest else (p, b) ∷ later

-- `max_by` takes the last of equal maxima.
unfoldable pub most_refilled : ℕ → Buckets → Option (IpAddr × ℕ)
unfolding refilled
most_refilled now [] = none
most_refilled now ((p, b) ∷ rest) =
    let here = (refilled b now).tokens in
    elim (most_refilled now rest) [
      | none ↦ some (p, here)
      | some (q, there) ↦ if ltb there here then some (p, here) else some (q, there)
    ]

-- `buckets.retain(..)`
unfoldable pub retain : ℕ → Buckets → Buckets
unfolding refilled
retain now bs = keep (λ x. ltb (refilled x.1 now).tokens burst) bs

-- the `while` loop; it takes one turn for each entry at most
unfoldable pub evict : ℕ → ℕ → Buckets → Buckets
unfolding most_refilled remove
evict zero now bs = bs
evict (suc fuel) now bs =
    if leb max_tracked_peers (length bs)
    then elim (most_refilled now bs) [ none ↦ bs | some (p, _) ↦ evict fuel now (remove p bs) ]
    else bs

unfoldable pub has_capacity_at : IpAddr → ℕ → Buckets → Bool
unfolding find_bucket refilled
has_capacity_at peer now bs = elim (find_bucket peer bs) [
  | none ↦ true
  | some b ↦ leb token (refilled b now).tokens
]

unfoldable pub next_bucket : IpAddr → ℕ → Buckets → Bucket
unfolding find_bucket refilled full consumed
next_bucket peer now bs =
    consumed (elim (find_bucket peer bs) [ none ↦ full now | some b ↦ refilled b now ])

-- the entries that are left where the map is full and the peer is new
unfoldable pub make_room : IpAddr → ℕ → Buckets → Buckets
unfolding retain evict find_bucket
make_room peer now bs =
    if leb max_tracked_peers (length bs) && not (is_some (find_bucket peer bs))
    then evict (length bs) now (retain now bs)
    else bs

unfoldable pub record_failure_at : IpAddr → ℕ → Buckets → Buckets
unfolding next_bucket make_room insert
record_failure_at peer now bs = insert peer (next_bucket peer now bs) (make_room peer now bs)
