-- ===== src/Proxy/Socks5/Limiter/Bounded.antt =====
-- The number of peers that the throttle of proxy/src/socks5.rs tracks.
use thisconnect.Prelude.{
  ℕ, zero, suc, ◌+◌, ◌≤◌, ◌<◌, ◌≡◌, refl, ap, subst, ◌⊎◌, inl, inr, Bool, true, false, not, ◌&&◌,
  Option, none, some, [], ◌∷◌, arith, ltb, leb, if◌then◌else◌, Bool-cases, is_some, length,
  some-injective, if_parts, length-keep-le,
}
use thisconnect.Prelude.Text.{text_eq_iff}
use thisconnect.Net.{IpAddr, v4, v6}
use thisconnect.Proxy.Socks5.Limiter.{
  max_tracked_peers, burst, Bucket, refilled, same_ip, Buckets, find_bucket, insert, remove,
  most_refilled, retain, evict, next_bucket, make_room, record_failure_at,
}

pub same_ip_refl : (p : IpAddr) → same_ip p p ≡ true
unfolding same_ip
same_ip_refl (v4 o) = (text_eq_iff o o).1 refl
same_ip_refl (v6 o) = (text_eq_iff o o).1 refl

abbrev Known : IpAddr → Buckets → Type 0
Known p bs = is_some (find_bucket p bs) ≡ true

pub length-remove : (p : IpAddr) (bs : Buckets) → Known p bs → length (remove p bs) + 1 ≡ length bs
unfolding find_bucket remove
length-remove p [] k = cc
length-remove p ((q, b) ∷ bs) k = elim (Bool-cases (same_ip q p)) [
  | inl same ↦ rw (same, if◌then◌else◌) (omega arith)
  | inr other ↦
      rw (other, if◌then◌else◌) (omega (arith, length-remove p bs (rw (other, if◌then◌else◌) at k)))
]

length-insert : (p : IpAddr) (b : Bucket) (bs : Buckets) → length (insert p b bs) ≤ length bs + 1
unfolding insert
length-insert p b [] = omega arith
length-insert p b ((q, c) ∷ bs) = elim (Bool-cases (same_ip q p)) [
  | inl same ↦ rw (same, if◌then◌else◌) (omega arith)
  | inr other ↦ rw (other, if◌then◌else◌) (omega (arith, length-insert p b bs))
]

length-insert-Known :
    (p : IpAddr) (b : Bucket) (bs : Buckets) → Known p bs → length (insert p b bs) ≡ length bs
unfolding find_bucket insert
length-insert-Known p b [] k = cc
length-insert-Known p b ((q, c) ∷ bs) k = elim (Bool-cases (same_ip q p)) [
  | inl same ↦ rw (same, if◌then◌else◌) refl
  | inr other ↦
      rw (other, if◌then◌else◌)
        (ap suc (length-insert-Known p b bs (rw (other, if◌then◌else◌) at k)))
]

-- The more refilled of a peer and of the best of the others.
abbrev better : IpAddr → ℕ → Option (IpAddr × ℕ) → Option (IpAddr × ℕ)
better p here m = elim m [
  | none ↦ some (p, here)
  | some (q, there) ↦ if ltb there here then some (p, here) else some (q, there)
]

better_is_either :
    (p : IpAddr) (here : ℕ) (m : Option (IpAddr × ℕ)) (r : IpAddr × ℕ)
    → better p here m ≡ some r
    → (p ≡ r.0) ⊎ (m ≡ some r)
better_is_either p here none r h = inl (ap (λ x. x.0) (some-injective h))
better_is_either p here (some (q, there)) r h = elim (if_parts (ltb there here) _ _ _ h) [
  | inl (_, k) ↦ inl (ap (λ x. x.0) (some-injective k))
  | inr (_, k) ↦ inr k
]

better-is_some :
    (p : IpAddr) (here : ℕ) (m : Option (IpAddr × ℕ)) → is_some (better p here m) ≡ true
better-is_some p here none = refl
better-is_some p here (some (q, there)) = ground arith

-- What is evicted is a tracked peer.
pub most_refilled-Known :
    (now : ℕ) (bs : Buckets) (r : IpAddr × ℕ) → most_refilled now bs ≡ some r → Known r.0 bs
unfolding most_refilled find_bucket
most_refilled-Known now [] r h = cc
most_refilled-Known now ((p, b) ∷ bs) r h = elim (better_is_either p _ (most_refilled now bs) r h) [
  | inl same ↦ subst (λ q. Known q ((p, b) ∷ bs)) same (rw (same_ip_refl p) refl)
  | inr later ↦ elim (Bool-cases (same_ip p r.0)) [
    | inl here ↦ rw (here, if◌then◌else◌) refl
    | inr other ↦ rw (other, if◌then◌else◌) (most_refilled-Known now bs r later)
  ]
]

abbrev evicted : Option (IpAddr × ℕ) → Buckets → (IpAddr → Buckets) → Buckets
evicted m bs next = elim m [ none ↦ bs | some (p, _) ↦ next p ]

evict_step :
    (m : Option (IpAddr × ℕ)) (bs : Buckets) (next : IpAddr → Buckets)
    → is_some m ≡ true
    → ((r : IpAddr × ℕ) → m ≡ some r → length (next r.0) < max_tracked_peers)
    → length (evicted m bs next) < max_tracked_peers
evict_step none bs next k h = cc
evict_step (some (p, t)) bs next k h = h (p, t) refl

pub some_best :
    (now : ℕ) (x : IpAddr × Bucket) (bs : Buckets) → is_some (most_refilled now (x ∷ bs)) ≡ true
unfolding most_refilled
some_best now (p, b) bs = better-is_some p _ (most_refilled now bs)

-- One turn for each tracked peer is enough to end the loop below the limit.
length-evict :
    (fuel now : ℕ) (bs : Buckets)
    → length bs ≤ fuel
    → length (evict fuel now bs) < max_tracked_peers
unfolding evict
length-evict zero now bs h = omega (arith, h)
length-evict (suc fuel) now [] h = omega arith
length-evict (suc fuel) now (x ∷ bs) h =
    elim (Bool-cases (leb max_tracked_peers (length (x ∷ bs)))) [
      | inl full ↦
          rw (full, if◌then◌else◌)
            (evict_step (most_refilled now (x ∷ bs)) (x ∷ bs)
              (λ p. evict fuel now (remove p (x ∷ bs))) (some_best now x bs)
              (λ r found. length-evict fuel now (remove r.0 (x ∷ bs)) (
                omega (
                  arith,
                  h,
                  length-remove r.0 (x ∷ bs) (most_refilled-Known now (x ∷ bs) r found),
                ))))
      | inr room ↦ rw (room, if◌then◌else◌) (ground arith)
    ]

-- Recording a failure never leaves more than 4096 tracked peers where there were no more before,
-- whichever peer it is, whatever the time and however drained the others are.
pub record_failure_at-bounded :
    (peer : IpAddr) (now : ℕ) (bs : Buckets)
    → length bs ≤ max_tracked_peers
    → length (record_failure_at peer now bs) ≤ max_tracked_peers
unfolding record_failure_at make_room retain
record_failure_at-bounded peer now bs h =
    elim (Bool-cases (leb max_tracked_peers (length bs) && not (is_some (find_bucket peer bs)))) [
      | inl new ↦
          rw (new, if◌then◌else◌)
            (omega (
              arith,
              length-insert peer (next_bucket peer now bs) (evict (length bs) now (retain now bs)),
              length-evict (length bs) now (retain now bs)
                  (length-keep-le (λ x. ltb (refilled x.1 now).tokens burst) bs),
            ))
      | inr old ↦
          rw (old, if◌then◌else◌)
            (elim (Bool-cases (is_some (find_bucket peer bs))) [
              | inl known ↦
                  omega (arith, h, length-insert-Known peer (next_bucket peer now bs) bs known)
              | inr unknown ↦ omega (
                arith,
                length-insert peer (next_bucket peer now bs) bs,
                room_left (length bs) (is_some (find_bucket peer bs)) old unknown,
              )
            ])
    ]
  where
    room_left :
        (n : ℕ) (b : Bool)
        → (leb max_tracked_peers n && not b) ≡ false
        → b ≡ false
        → n < max_tracked_peers
    room_left n true h k = cc
    room_left n false h k = ground arith
