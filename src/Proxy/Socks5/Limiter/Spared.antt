-- ===== src/Proxy/Socks5/Limiter/Spared.antt =====
-- Which peers the throttle of proxy/src/socks5.rs forgets when another one fails.
use thisconnect.Prelude.{
  if◌then◌else◌, ℕ, zero, suc, ◌≤◌, ◌<◌, ◌≡◌, refl, sym, ap, subst, ◌∙◌, ◌⊎◌, inl, inr, Bool, true,
  false, not, ◌&&◌, Option, none, some, [], ◌∷◌, arith, ltb, leb, Bool-cases, is_some, length, keep,
  some-injective, length-keep-le,
}
use thisconnect.Net.{IpAddr}
use thisconnect.Proxy.Socks5.Limiter.{
  max_tracked_peers, burst, Bucket, refilled, same_ip, Buckets, find_bucket, insert, remove,
  most_refilled, retain, evict, next_bucket, make_room, record_failure_at,
}
use thisconnect.Proxy.Socks5.Limiter.Bounded.{length-remove, most_refilled-Known}
use thisconnect.Proxy.Socks5.Limiter.Ranked.{same_peer, IsOutranked, evicts_another}

pub find_bucket-insert_other :
    (p q : IpAddr) (b : Bucket) (bs : Buckets)
    → same_ip q p ≡ false
    → find_bucket p (insert q b bs) ≡ find_bucket p bs
unfolding find_bucket insert
find_bucket-insert_other p q b [] h = rw h refl
find_bucket-insert_other p q b ((k, c) ∷ bs) h = elim (Bool-cases (same_ip k q)) [
  | inl same ↦
      let differs : same_ip k p ≡ false = rw (same_peer k q same) h in
      rw (same, if◌then◌else◌) (rw (differs, if◌then◌else◌) refl)
  | inr other ↦ rw (other, if◌then◌else◌) (rw (find_bucket-insert_other p q b bs h) refl)
]

find_bucket-remove_other :
    (p q : IpAddr) (bs : Buckets)
    → same_ip q p ≡ false
    → find_bucket p (remove q bs) ≡ find_bucket p bs
unfolding find_bucket remove
find_bucket-remove_other p q [] h = refl
find_bucket-remove_other p q ((k, c) ∷ bs) h = elim (Bool-cases (same_ip k q)) [
  | inl same ↦
      let differs : same_ip k p ≡ false = rw (same_peer k q same) h in
      rw (same, if◌then◌else◌) (rw (differs, if◌then◌else◌) refl)
  | inr other ↦ rw (other, if◌then◌else◌) (rw (find_bucket-remove_other p q bs h) refl)
]

find_bucket-keep :
    (p : IpAddr) (f : IpAddr × Bucket → Bool) (b : Bucket) (bs : Buckets)
    → ((k : IpAddr) → f (k, b) ≡ true)
    → find_bucket p bs ≡ some b
    → find_bucket p (keep f bs) ≡ some b
unfolding find_bucket
find_bucket-keep p f b [] h e = cc
find_bucket-keep p f b ((k, c) ∷ bs) h e = elim (Bool-cases (same_ip k p)) [
  | inl same ↦
      let here = some-injective (rw (same, if◌then◌else◌) at e) in
      let kept : f (k, c) ≡ true = subst (λ d. f (k, d) ≡ true) (sym here) (h k) in
      rw (kept, if◌then◌else◌) (rw (same, if◌then◌else◌) (ap some here))
  | inr other ↦
      let later = find_bucket-keep p f b bs h (rw (other, if◌then◌else◌) at e) in
      elim (Bool-cases (f (k, c))) [
        | inl kept ↦ rw (kept, if◌then◌else◌) (rw (other, if◌then◌else◌) later)
        | inr dropped ↦ rw (dropped, if◌then◌else◌) later
      ]
]

keep-whole :
    (f : IpAddr × Bucket → Bool) (bs : Buckets) → length bs ≤ length (keep f bs) → keep f bs ≡ bs
keep-whole f [] h = refl
keep-whole f (e ∷ bs) h = elim (Bool-cases (f e)) [
  | inl kept ↦
      let h₁ : length (e ∷ bs) ≤ length (e ∷ keep f bs) = rw (kept, if◌then◌else◌) at h in
      rw (kept, if◌then◌else◌) (ap (λ l. e ∷ l) (keep-whole f bs (omega (arith, h₁))))
  | inr dropped ↦
      let h₁ : length (e ∷ bs) ≤ length (keep f bs) = rw (dropped, if◌then◌else◌) at h in
      let k : ⊥ = omega (arith, h₁, length-keep-le f bs) in elim k [ ]
]

evict-small : (fuel now : ℕ) (bs : Buckets) → length bs < max_tracked_peers → evict fuel now bs ≡ bs
unfolding evict
evict-small zero now bs h = refl
evict-small (suc fuel) now bs h =
    let room : leb max_tracked_peers (length bs) ≡ false = ground (arith, h) in
    rw (room, if◌then◌else◌) refl

evict-spares :
    (fuel now : ℕ) (p : IpAddr) (b : Bucket) (bs : Buckets)
    → find_bucket p bs ≡ some b
    → length bs ≤ max_tracked_peers
    → (leb max_tracked_peers (length bs) ≡ true → IsOutranked p now bs)
    → find_bucket p (evict fuel now bs) ≡ some b
unfolding evict
evict-spares zero now p b bs h l o = h
evict-spares (suc fuel) now p b bs h l o = elim (Bool-cases (leb max_tracked_peers (length bs))) [
  | inl full ↦ rw (full, if◌then◌else◌) (go (most_refilled now bs) refl (o full))
  | inr room ↦ rw (room, if◌then◌else◌) h
]
  where
    go :
        (m : Option (IpAddr × ℕ))
        → most_refilled now bs ≡ m
        → IsOutranked p now bs
        → find_bucket p (elim m [ none ↦ bs | some (q, _) ↦ evict fuel now (remove q bs) ]) ≡ some b
    go none e k = h
    go (some (q, t)) e k =
        let gone = length-remove q bs (most_refilled-Known now bs (q, t) e) in
        ap (find_bucket p) (evict-small fuel now (remove q bs) (omega (arith, gone, l)))
        ∙ find_bucket-remove_other p q bs (evicts_another p now bs (q, t) k e)
        ∙ h

-- Where there is room for one more peer, or another tracked one has more tokens.
abbrev pub IsSafe : IpAddr → ℕ → Buckets → Type 0
IsSafe p now bs = (length bs < max_tracked_peers) ⊎ IsOutranked p now bs

safe_when_full :
    (p : IpAddr) (now : ℕ) (f : IpAddr × Bucket → Bool) (bs : Buckets)
    → length bs ≤ max_tracked_peers
    → IsSafe p now bs
    → leb max_tracked_peers (length (keep f bs)) ≡ true
    → IsOutranked p now (keep f bs)
safe_when_full p now f bs l (inl room) full =
    let many : max_tracked_peers ≤ length (keep f bs) = ground (arith, full) in
    let k : ⊥ = omega (arith, room, many, length-keep-le f bs) in elim k [ ]
safe_when_full p now f bs l (inr o) full =
    let many : max_tracked_peers ≤ length (keep f bs) = ground (arith, full) in
    subst (IsOutranked p now) (sym (keep-whole f bs (omega (arith, l, many)))) o

find_bucket-make_room :
    (p q : IpAddr) (now : ℕ) (b : Bucket) (bs : Buckets)
    → find_bucket p bs ≡ some b
    → (refilled b now).tokens < burst
    → length bs ≤ max_tracked_peers
    → IsSafe p now bs
    → find_bucket p (make_room q now bs) ≡ some b
unfolding make_room retain
find_bucket-make_room p q now b bs h low l safe =
    let f : IpAddr × Bucket → Bool = λ x. ltb (refilled x.1 now).tokens burst in
    elim (Bool-cases (leb max_tracked_peers (length bs) && not (is_some (find_bucket q bs)))) [
      | inl new ↦
          rw (new, if◌then◌else◌)
            (evict-spares (length bs) now p b (keep f bs)
              (find_bucket-keep p f b bs (λ k. ground (arith, low)) h)
              (omega (arith, l, length-keep-le f bs)) (safe_when_full p now f bs l safe))
      | inr old ↦ rw (old, if◌then◌else◌) h
    ]

-- The failure of another peer leaves the bucket of one that is not full again, and that is safe.
pub find_bucket-record_failure_at_other :
    (p q : IpAddr) (now : ℕ) (b : Bucket) (bs : Buckets)
    → same_ip q p ≡ false
    → find_bucket p bs ≡ some b
    → (refilled b now).tokens < burst
    → length bs ≤ max_tracked_peers
    → IsSafe p now bs
    → find_bucket p (record_failure_at q now bs) ≡ some b
unfolding record_failure_at
find_bucket-record_failure_at_other p q now b bs differs h low l safe =
    find_bucket-insert_other p q (next_bucket q now bs) (make_room q now bs) differs
    ∙ find_bucket-make_room p q now b bs h low l safe
