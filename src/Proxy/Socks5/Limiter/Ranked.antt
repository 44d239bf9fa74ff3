-- ===== src/Proxy/Socks5/Limiter/Ranked.antt =====
-- Which of the tracked peers the throttle of proxy/src/socks5.rs evicts.
use thisconnect.Prelude.{
  ℕ, ◌≤◌, ◌<◌, ◌≡◌, refl, ap, subst, ◌⊎◌, inl, inr, true, false, Option, none, some, [], ◌∷◌, arith,
  ltb, if◌then◌else◌, Bool-cases, is_some, All, some-injective, if_parts,
}
use thisconnect.Prelude.Text.{text_eq_iff}
use thisconnect.Net.{IpAddr, v4, v6}
use thisconnect.Proxy.Socks5.Limiter.{Bucket, refilled, same_ip, Buckets, most_refilled}
use thisconnect.Proxy.Socks5.Limiter.Bounded.{some_best}

pub same_peer : (p q : IpAddr) → same_ip p q ≡ true → p ≡ q
unfolding same_ip
same_peer (v4 a) (v4 b) h = ap v4 ((text_eq_iff a b).0 h)
same_peer (v6 a) (v6 b) h = ap v6 ((text_eq_iff a b).0 h)
same_peer (v4 a) (v6 b) h = cc
same_peer (v6 a) (v4 b) h = cc

abbrev pub tokens_at : ℕ → IpAddr × Bucket → ℕ
tokens_at now e = (refilled e.1 now).tokens

abbrev pub SomeOf : (IpAddr × Bucket → Type 0) → Buckets → Type 0
SomeOf P [] = ⊥
SomeOf P (x ∷ xs) = P x ⊎ SomeOf P xs

record IsBest (now : ℕ) (bs : Buckets) (r : IpAddr × ℕ) : Type 0 where
  pub found : SomeOf (λ e. (e.0 ≡ r.0) × (tokens_at now e ≡ r.1)) bs
  pub best : All (λ e. tokens_at now e ≤ r.1) bs

all_below :
    (now a b : ℕ) (bs : Buckets)
    → a ≤ b
    → All (λ e. tokens_at now e ≤ a) bs
    → All (λ e. tokens_at now e ≤ b) bs
all_below now a b [] h k = tt
all_below now a b (e ∷ bs) h k = (omega (arith, h, k.0), all_below now a b bs h k.1)

-- the best of an entry and of the best of the others
IsBest-both :
    (now : ℕ) (p : IpAddr) (b : Bucket) (bs : Buckets) (q r : IpAddr × ℕ)
    → IsBest now bs q
    → ◌≡◌ {A = Option (IpAddr × ℕ)}
        (if ltb q.1 (tokens_at now (p, b)) then some (p, tokens_at now (p, b)) else some q)
        (some r)
    → IsBest now ((p, b) ∷ bs) r
IsBest-both now p b bs q r h e = elim (if_parts (ltb q.1 (tokens_at now (p, b))) _ _ _ e) [
  | inl (less, k) ↦
      let below : q.1 ≤ tokens_at now (p, b) = ground (arith, less) in
      subst (IsBest now ((p, b) ∷ bs)) (some-injective k) (record {
        found = inl (refl, refl);
        best = (omega arith, all_below now q.1 (tokens_at now (p, b)) bs below h.best);
      })
  | inr (more, k) ↦
      let below : tokens_at now (p, b) ≤ q.1 = ground (arith, more) in
      subst (IsBest now ((p, b) ∷ bs)) (some-injective k)
        (record { found = inr h.found; best = (below, h.best) })
]

most_refilled-IsBest :
    (now : ℕ) (bs : Buckets) (r : IpAddr × ℕ) → most_refilled now bs ≡ some r → IsBest now bs r
unfolding most_refilled
most_refilled-IsBest now [] r h = cc
most_refilled-IsBest now ((p, b) ∷ []) r h =
    subst (IsBest now ((p, b) ∷ [])) (some-injective h)
      (record { found = inl (refl, refl); best = (omega arith, tt) })
most_refilled-IsBest now ((p, b) ∷ x ∷ bs) r h =
    go (most_refilled now (x ∷ bs)) (some_best now x bs)
      (λ q e. most_refilled-IsBest now (x ∷ bs) q e) h
  where
    go :
        (m : Option (IpAddr × ℕ))
        → is_some m ≡ true
        → ((q : IpAddr × ℕ) → m ≡ some q → IsBest now (x ∷ bs) q)
        → ◌≡◌ {A = Option (IpAddr × ℕ)}
            (elim m [
              | none ↦ some (p, tokens_at now (p, b))
              | some (q, there) ↦
                  if ltb there (tokens_at now (p, b))
                  then some (p, tokens_at now (p, b))
                  else some (q, there)
            ])
            (some r)
        → IsBest now ((p, b) ∷ x ∷ bs) r
    go none s k e = cc
    go (some (q, there)) s k e = IsBest-both now p b (x ∷ bs) (q, there) r (k (q, there) refl) e

-- Some tracked peer has more tokens than this one.
pub record IsOutranked (p : IpAddr) (now : ℕ) (bs : Buckets) : Type 0 where
  pub level : ℕ
  pub below : All (λ e. same_ip e.0 p ≡ true → tokens_at now e < level) bs
  pub above : SomeOf (λ e. level ≤ tokens_at now e) bs

best_above :
    (now level top : ℕ) (bs : Buckets)
    → All (λ e. tokens_at now e ≤ top) bs
    → SomeOf (λ e. level ≤ tokens_at now e) bs
    → level ≤ top
best_above now level top [] h k = elim k [ ]
best_above now level top (e ∷ bs) h (inl k) = omega (arith, h.0, k)
best_above now level top (e ∷ bs) h (inr k) = best_above now level top bs h.1 k

best_is_other :
    (p : IpAddr) (now level : ℕ) (bs : Buckets) (r : IpAddr × ℕ)
    → level ≤ r.1
    → All (λ e. same_ip e.0 p ≡ true → tokens_at now e < level) bs
    → SomeOf (λ e. (e.0 ≡ r.0) × (tokens_at now e ≡ r.1)) bs
    → same_ip r.0 p ≡ true
    → ⊥
best_is_other p now level [] r h k f same = elim f [ ]
best_is_other p now level (e ∷ bs) r h k (inl (named, t)) same =
    omega (arith, h, t, k.0 (rw named same))
best_is_other p now level (e ∷ bs) r h k (inr later) same =
    best_is_other p now level bs r h k.1 later same

-- What is evicted is no peer that another one outranks.
pub evicts_another :
    (p : IpAddr) (now : ℕ) (bs : Buckets) (r : IpAddr × ℕ)
    → IsOutranked p now bs
    → most_refilled now bs ≡ some r
    → same_ip r.0 p ≡ false
evicts_another p now bs r o h = elim (Bool-cases (same_ip r.0 p)) [
  | inl same ↦
      let b = most_refilled-IsBest now bs r h in
      elim (best_is_other p now o.level bs r (best_above now o.level r.1 bs b.best o.above) o.below
        b.found same) [ ]
  | inr differs ↦ differs
]
