-- ===== src/Proxy/Socks5/Limiter/Throttles.antt =====
-- What failures do to a peer's capacity in the throttle of proxy/src/socks5.rs.
use thisconnect.Prelude.{
  ℕ, suc, sym, subst, ◌+◌, ◌-◌, ◌*◌, ◌≤◌, ◌<◌, min, ◌≡◌, refl, inl, inr, true, false, Option, none,
  some, List, [], ◌∷◌, arith, leb, if◌then◌else◌, Bool-cases, length,
}
use thisconnect.Net.{IpAddr}
use thisconnect.Proxy.Socks5.Limiter.{
  max_tracked_peers, token, burst, Bucket, full, refilled, consumed, same_ip, Buckets, find_bucket,
  insert, has_capacity_at, next_bucket, make_room, record_failure_at,
}
use thisconnect.Proxy.Socks5.Limiter.Bounded.{same_ip_refl, record_failure_at-bounded}
use thisconnect.Proxy.Socks5.Limiter.Ranked.{same_peer}
use thisconnect.Proxy.Socks5.Limiter.Spared.{IsSafe, find_bucket-record_failure_at_other}

find_bucket-insert :
    (p : IpAddr) (b : Bucket) (bs : Buckets) → find_bucket p (insert p b bs) ≡ some b
unfolding find_bucket insert
find_bucket-insert p b [] = rw (same_ip_refl p) refl
find_bucket-insert p b ((q, c) ∷ bs) = elim (Bool-cases (same_ip q p)) [
  | inl same ↦ rw (same, if◌then◌else◌) (rw (same, if◌then◌else◌) refl)
  | inr other ↦ rw (other, if◌then◌else◌) (rw (other, if◌then◌else◌) (find_bucket-insert p b bs))
]

pub find_bucket-record_failure_at :
    (p : IpAddr) (now : ℕ) (bs : Buckets)
    → find_bucket p (record_failure_at p now bs) ≡ some (next_bucket p now bs)
unfolding record_failure_at
find_bucket-record_failure_at p now bs =
    find_bucket-insert p (next_bucket p now bs) (make_room p now bs)

-- After `k` failures from the time `first` to the time `t`.
record Drained (p : IpAddr) (k first t : ℕ) (bs : Buckets) : Type 0 where
  pub bucket : Bucket
  pub found : find_bucket p bs ≡ some bucket
  pub dated : bucket.updated ≡ t
  pub low : bucket.tokens ≤ (t - first) + (burst - k * token)

tokens_below :
    (m : Option Bucket) (now : ℕ)
    → (consumed (elim m [ none ↦ full now | some b ↦ refilled b now ])).tokens ≤ burst - token
unfolding consumed full refilled
tokens_below none now = omega arith
tokens_below (some b) now = omega arith

dated_now :
    (m : Option Bucket) (now : ℕ)
    → (consumed (elim m [ none ↦ full now | some b ↦ refilled b now ])).updated ≡ now
unfolding consumed full refilled
dated_now none now = refl
dated_now (some b) now = refl

first_failure : (p : IpAddr) (t : ℕ) (bs : Buckets) → Drained p 1 t t (record_failure_at p t bs)
unfolding next_bucket
first_failure p t bs = record {
  bucket = next_bucket p t bs;
  found = find_bucket-record_failure_at p t bs;
  dated = dated_now (find_bucket p bs) t;
  low = omega (arith, tokens_below (find_bucket p bs) t);
}

one_step :
    (b : Bucket) (k first t t' : ℕ)
    → b.updated ≡ t
    → b.tokens ≤ (t - first) + (burst - k * token)
    → first ≤ t
    → t ≤ t'
    → (consumed (refilled b t')).tokens ≤ (t' - first) + (burst - (k + 1) * token)
unfolding consumed refilled
one_step b k first t t' d l h h' = omega (arith, d, l, h, h')

next_failure :
    (p : IpAddr) (k first t t' : ℕ) (bs : Buckets)
    → Drained p k first t bs
    → first ≤ t
    → t ≤ t'
    → Drained p (k + 1) first t' (record_failure_at p t' bs)
unfolding next_bucket
next_failure p k first t t' bs d h h' = record {
  bucket = next_bucket p t' bs;
  found = find_bucket-record_failure_at p t' bs;
  dated = dated_now (find_bucket p bs) t';
  low = rw (d.found) (one_step d.bucket k first t t' d.dated d.low h h');
}

-- The failure of another peer, which does not make the map forget this one.
other_failure :
    (p q : IpAddr) (k first t t' : ℕ) (bs : Buckets)
    → Drained p k first t bs
    → same_ip q p ≡ false
    → 1 ≤ k
    → first ≤ t
    → t ≤ t'
    → t' < first + token
    → length bs ≤ max_tracked_peers
    → IsSafe p t' bs
    → Drained p k first t (record_failure_at q t' bs)
unfolding refilled
other_failure p q k first t t' bs d differs one h h' soon l safe = record {
  bucket = d.bucket;
  found =
      find_bucket-record_failure_at_other p q t' d.bucket bs differs d.found
        (not_full d.bucket d.dated d.low) l safe;
  dated = d.dated;
  low = d.low;
}
  where
    not_full :
        (b : Bucket)
        → b.updated ≡ t
        → b.tokens ≤ (t - first) + (burst - k * token)
        → (refilled b t').tokens < burst
    not_full b u v = omega (arith, u, v, one, h, h', soon)

-- Failures of any peers, each with its time, in their order.
abbrev pub Failures : Type 0
Failures = List (IpAddr × ℕ)

abbrev pub record_failures : Failures → Buckets → Buckets
record_failures [] bs = bs
record_failures ((q, t) ∷ fs) bs = record_failures fs (record_failure_at q t bs)

-- How many of them are those of one peer.
abbrev pub count_of : IpAddr → Failures → ℕ
count_of p [] = 0
count_of p ((q, t) ∷ fs) = if same_ip q p then suc (count_of p fs) else count_of p fs

-- No time is before the one ahead of it, and none is after `now`.
abbrev pub Rises : ℕ → Failures → ℕ → Type 0
Rises t [] now = t ≤ now
Rises t ((q, t') ∷ fs) now = (t ≤ t') × Rises t' fs now

-- Whenever a peer fails, this one is safe from being forgotten for it.
abbrev pub StaysSafe : IpAddr → Failures → Buckets → Type 0
StaysSafe p [] bs = Unit
StaysSafe p ((q, t) ∷ fs) bs = IsSafe p t bs × StaysSafe p fs (record_failure_at q t bs)

throttled_by-Drained :
    (p : IpAddr) (k first t now : ℕ) (bs : Buckets)
    → Drained p k first t bs
    → 5 ≤ k
    → first ≤ t
    → t ≤ now
    → now < first + token
    → has_capacity_at p now bs ≡ false
unfolding has_capacity_at refilled
throttled_by-Drained p k first t now bs d five h h' soon =
    rw (d.found, has_capacity_at) (below d.bucket d.dated d.low)
  where
    below :
        (b : Bucket)
        → b.updated ≡ t
        → b.tokens ≤ (t - first) + (burst - k * token)
        → leb token (min (b.tokens + (now - b.updated)) burst) ≡ false
    below b u l = ground (arith, u, l, five, h, h', soon)

Rises-le : (t : ℕ) (fs : Failures) (now : ℕ) → Rises t fs now → t ≤ now
Rises-le t [] now r = r
Rises-le t ((q, t') ∷ fs) now r = omega (arith, r.0, Rises-le t' fs now r.1)

-- `t` is the time of the last failure of the peer, and `s` that of the last failure of any.
failures_throttle :
    (p : IpAddr) (k first t s now : ℕ) (fs : Failures) (bs : Buckets)
    → Drained p k first t bs
    → 1 ≤ k
    → 5 ≤ k + count_of p fs
    → first ≤ t
    → t ≤ s
    → Rises s fs now
    → now < first + token
    → length bs ≤ max_tracked_peers
    → StaysSafe p fs bs
    → has_capacity_at p now (record_failures fs bs) ≡ false
failures_throttle p k first t s now [] bs d one five h h' r soon l safe =
    throttled_by-Drained p k first t now bs d (omega (arith, five)) h (omega (arith, h', r)) soon
failures_throttle p k first t s now ((q, t') ∷ fs) bs d one five h h' r soon l safe =
    elim (Bool-cases (same_ip q p)) [
      | inl same ↦
          let counted : 5 ≤ k + suc (count_of p fs) = rw (same, if◌then◌else◌) at five in
          let next = next_failure p k first t t' bs d h (omega (arith, h', r.0)) in
          failures_throttle p (k + 1) first t' t' now fs (record_failure_at q t' bs)
            (subst (λ x. Drained p (k + 1) first t' (record_failure_at x t' bs))
              (sym (same_peer q p same)) next)
            (omega arith) (omega (arith, counted)) (omega (arith, h, h', r.0)) (omega arith) r.1
            soon (record_failure_at-bounded q t' bs l) safe.1
      | inr differs ↦
          let counted : 5 ≤ k + count_of p fs = rw (differs, if◌then◌else◌) at five in
          failures_throttle p k first t t' now fs (record_failure_at q t' bs)
            (other_failure p q k first t t' bs d differs one h (omega (arith, h', r.0))
              (omega (arith, Rises-le t' fs now r.1, soon)) l safe.0)
            one counted h (omega (arith, h', r.0)) r.1 soon (record_failure_at-bounded q t' bs l)
            safe.1
    ]

-- A peer that has failed five times or more, at times in order that lie within 12 seconds of the
-- first, has no capacity until those 12 seconds are over, whatever was tracked of it before and
-- whoever else fails in between, where no more than 4096 peers were tracked, and as long as at each
-- of the later failures the map has room for one more peer or another peer in it has more tokens.
pub record_failures-throttle :
    (peer : IpAddr) (first now : ℕ) (later : Failures) (bs : Buckets)
    → length bs ≤ max_tracked_peers
    → 4 ≤ count_of peer later
    → Rises first later now
    → now < first + token
    → StaysSafe peer later (record_failure_at peer first bs)
    → has_capacity_at peer now (record_failures later (record_failure_at peer first bs)) ≡ false
record_failures-throttle peer first now later bs few four r soon safe =
    failures_throttle peer 1 first first first now later (record_failure_at peer first bs)
      (first_failure peer first bs) (omega arith) (omega (arith, four)) (omega arith) (omega arith)
      r soon (record_failure_at-bounded peer first bs few) safe

-- Twelve seconds after a failure the peer has capacity again, however often it failed before.
pub has_capacity_at-record_failure_at :
    (peer : IpAddr) (t now : ℕ) (bs : Buckets)
    → t + token ≤ now
    → has_capacity_at peer now (record_failure_at peer t bs) ≡ true
unfolding has_capacity_at refilled next_bucket
has_capacity_at-record_failure_at peer t now bs h =
    rw (find_bucket-record_failure_at peer t bs, has_capacity_at)
      (recovered (next_bucket peer t bs) (dated_now (find_bucket peer bs) t))
  where
    recovered :
        (b : Bucket) → b.updated ≡ t → leb token (min (b.tokens + (now - b.updated)) burst) ≡ true
    recovered b u = ground (arith, u, h)
