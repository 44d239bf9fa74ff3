-- ===== src/Proxy/Socks5/Handshake/Sent.antt =====
-- What a client of proxy/src/socks5.rs has sent where its greeting and its login were taken.
use thisconnect.Prelude.{
  ℕ, ◌≡◌, refl, sym, ap, ap₂, subst, ◌∙◌, inl, inr, Bool, true, false, not, [], ◌∷◌, ◌++◌,
  append-nil, append_assoc, arith, ◌==◌, if◌then◌else◌, and-left, and-right, Result, ok, err,
  length, any, if_parts,
}
use thisconnect.Prelude.Text.{Bytes, text_eq, text_eq_iff}
use thisconnect.Prelude.Exec.{raise, ◌>>◌, exec_parts}
use thisconnect.Proxy.Socks5.Limiter.{has_capacity_at}
use thisconnect.Proxy.Socks5.{
  Socks5Error, Credentials, verify, Socks5Config, offered_method, ver_socks5, ver_userpass,
  auth_rate_limited, auth_failed,
}
use thisconnect.Proxy.Socks5.Client.{Client, read_exact, write}
use thisconnect.Proxy.Socks5.Client.Reading.{Took, read_exact-Took}
use thisconnect.Proxy.Socks5.Handshake.{
  Peer, byte_at, has_capacity, record_failure, deny_auth, judge, answer_methods,
  read_length_prefixed, greet, authenticate,
}
use thisconnect.Proxy.Socks5.Handshake.Destination.{talk_parts, not_raised}

-- `v` has the throttle of `w`, and its input behind `front`.
pub record After (front : Bytes) (w v : Client) : Type 0 where
  pub fronted : w.input ≡ front ++ v.input
  pub kept : v.buckets ≡ w.buckets

Took-After : (n : ℕ) (bytes : Bytes) (w v : Client) → Took n bytes w v → After bytes w v
Took-After n bytes w v t = record { fronted = t.fronted; kept = ap (λ x. x.buckets) t.changed }

then-After : (a b : Bytes) (u v w : Client) → After a u v → After b v w → After (a ++ b) u w
then-After a b u v w h k = record {
  fronted = h.fronted ∙ ap (λ x. a ++ x) k.fronted ∙ sym (append_assoc a b w.input);
  kept = k.kept ∙ h.kept;
}

write_cases :
    (b : Bool) (e : Socks5Error) (w u v : Client)
    → ◌≡◌ {A = Result Socks5Error Unit × Client} (if b then (err e, w) else (ok tt, u)) (ok tt, v)
    → u ≡ v
write_cases true e w u v h = cc
write_cases false e w u v h = ap (λ x. x.1) h

write-After : (bytes : Bytes) (w v : Client) → write bytes w ≡ (ok tt, v) → After [] w v
unfolding write
write-After bytes w v h =
    subst (After [] w) (write_cases (w.writes_left == 0) _ w _ v h)
      (record { fronted = refl; kept = refl })

one_byte : (bytes : Bytes) → length bytes ≡ 1 → bytes ≡ byte_at bytes 0 ∷ []
one_byte (a ∷ []) h = refl
one_byte [] h = let k : ⊥ = omega (arith, h) in elim k [ ]
one_byte (a ∷ b ∷ l) h = let k : ⊥ = omega (arith, h) in elim k [ ]

two_bytes : (bytes : Bytes) → length bytes ≡ 2 → bytes ≡ byte_at bytes 0 ∷ byte_at bytes 1 ∷ []
two_bytes (a ∷ b ∷ []) h = refl
two_bytes [] h = let k : ⊥ = omega (arith, h) in elim k [ ]
two_bytes (a ∷ []) h = let k : ⊥ = omega (arith, h) in elim k [ ]
two_bytes (a ∷ b ∷ c ∷ l) h = let k : ⊥ = omega (arith, h) in elim k [ ]

-- A field as it is sent, its length first.
abbrev pub prefixed : Bytes → Bytes
prefixed bytes = length bytes ∷ bytes

read_length_prefixed-After :
    (w v : Client) (bytes : Bytes)
    → read_length_prefixed w ≡ (ok bytes, v)
    → After (prefixed bytes) w v
unfolding read_length_prefixed
read_length_prefixed-After w v bytes h =
    let (len, u, k, k₁) = exec_parts (read_exact 1) _ w v bytes h in
    let first = read_exact-Took 1 w u len k in
    let second = read_exact-Took (byte_at len 0) u v bytes k₁ in
    subst (λ (x : Bytes). After (x ++ bytes) w v)
      (one_byte len first.sized ∙ ap (λ (n : ℕ). n ∷ []) (sym second.sized))
      (then-After len bytes w u v (Took-After 1 len w u first) (Took-After _ bytes u v second))

unnegated : (b : Bool) → not b ≡ false → b ≡ true
unnegated true e = refl
unnegated false e = cc

answer_methods-After :
    (wanted : ℕ) (methods : Bytes) (w v : Client)
    → answer_methods wanted methods w ≡ (ok tt, v)
    → (any (λ m. m == wanted) methods ≡ true) × After [] w v
unfolding answer_methods
answer_methods-After wanted methods w v h =
    elim (talk_parts (not (any (λ m. m == wanted) methods)) _ _ w _ h) [
      | inl (_, k) ↦ let (_, u, _, k₁) = exec_parts (write _) _ w v tt k in cc
      | inr (offered, k) ↦ (unnegated _ offered, write-After _ w v k)
    ]

pub greet-After :
    (config : Socks5Config) (w v : Client)
    → greet config w ≡ (ok tt, v)
    → (methods : Bytes) × (any (λ m. m == offered_method config) methods ≡ true)
      × After (ver_socks5 ∷ prefixed methods) w v
unfolding greet
greet-After config w v h =
    let (head, u, k, h₁) = exec_parts (read_exact 2) _ w v tt h in
    let (version, h₂) = not_raised (not (byte_at head 0 == ver_socks5)) _ _ u v tt h₁ in
    let (_, h₃) = not_raised (byte_at head 1 == 0) _ _ u v tt h₂ in
    let (methods, u', k', h₄) = exec_parts (read_exact (byte_at head 1)) _ u v tt h₃ in
    let first = read_exact-Took 2 w u head k in
    let second = read_exact-Took (byte_at head 1) u u' methods k' in
    let (offered, written) = answer_methods-After (offered_method config) methods u' v h₄ in
    (
      methods,
      offered,
      subst (λ (x : Bytes). After x w v)
          (front head methods (two_bytes head first.sized) (is_version (byte_at head 0) version)
            second.sized)
          (then-After (head ++ methods) [] w u' v
            (then-After head methods w u u' (Took-After 2 head w u first)
              (Took-After _ methods u u' second))
            written),
    )
  where
    is_version : (n : ℕ) → not (n == ver_socks5) ≡ false → n ≡ ver_socks5
    is_version n e = ground arith

    front :
        (head methods : Bytes)
        → head ≡ byte_at head 0 ∷ byte_at head 1 ∷ []
        → byte_at head 0 ≡ ver_socks5
        → length methods ≡ byte_at head 1
        → (head ++ methods) ++ [] ≡ ver_socks5 ∷ prefixed methods
    front head methods e e₀ e₁ =
        append-nil (head ++ methods)
        ∙ ap (λ (x : Bytes). x ++ methods) e
        ∙ ap₂ (λ (a b : ℕ). a ∷ b ∷ methods) e₀ (sym e₁)

denied : (e : Socks5Error) (w v : Client) → (deny_auth >> raise e) w ≡ (ok tt, v) → ⊥
denied e w v h = let (_, u, _, k) = exec_parts deny_auth _ w v tt h in cc

judge-After :
    (peer : Peer) (c : Credentials) (username password : Bytes) (w v : Client)
    → judge peer c username password w ≡ (ok tt, v)
    → (has_capacity peer w ≡ true) × (verify c username password ≡ true) × After [] w v
unfolding judge
judge-After peer c username password w v h = elim (if_parts (not (has_capacity peer w)) _ _ _ h) [
  | inl (_, k) ↦ elim (denied auth_rate_limited w v k) [ ]
  | inr (capable, k) ↦ elim (if_parts (verify c username password) _ _ _ k) [
    | inl (right, k₁) ↦ (unnegated (has_capacity peer w) capable, right, write-After _ w v k₁)
    | inr (_, k₁) ↦
        let (_, u, _, k₂) =
          exec_parts (record_failure peer) (λ _. deny_auth >> raise auth_failed) w v tt k₁ in
        elim (denied auth_failed u v k₂) [ ]
  ]
]

-- A client's side of the authentication, as it is sent.
abbrev pub login : Credentials → Bytes
login c = ver_userpass ∷ (prefixed c.username ++ prefixed c.password)

verified :
    (c : Credentials) (username password : Bytes)
    → verify c username password ≡ true
    → (c.username ≡ username) × (c.password ≡ password)
unfolding verify
verified c username password h = (
  (text_eq_iff c.username username).0 (and-left _ (text_eq c.password password) h),
  (text_eq_iff c.password password).0 (and-right (text_eq c.username username) _ h),
)

pub authenticate-After :
    (peer : Peer) (c : Credentials) (w v : Client)
    → authenticate peer c w ≡ (ok tt, v)
    → (has_capacity peer w ≡ true) × After (login c) w v
unfolding authenticate has_capacity
authenticate-After peer c w v h =
    let (version, u, k, h₁) = exec_parts (read_exact 1) _ w v tt h in
    let (known, h₂) = not_raised (not (byte_at version 0 == ver_userpass)) _ _ u v tt h₁ in
    let (username, u₁, k₁, h₃) = exec_parts read_length_prefixed _ u v tt h₂ in
    let (password, u₂, k₂, h₄) = exec_parts read_length_prefixed _ u₁ v tt h₃ in
    let (capable, right, written) = judge-After peer c username password u₂ v h₄ in
    let (same_name, same_word) = verified c username password right in
    let first = read_exact-Took 1 w u version k in
    let a = Took-After 1 version w u first in
    let b =
      then-After (prefixed username) (prefixed password) u u₁ u₂
        (read_length_prefixed-After u u₁ username k₁)
        (read_length_prefixed-After u₁ u₂ password k₂) in
    (
      subst (λ bs. has_capacity_at peer.address peer.asked_at bs ≡ true) (b.kept ∙ a.kept) capable,
      subst (λ (x : Bytes). After x w v)
          (front version (prefixed username ++ prefixed password) (one_byte version first.sized)
              (is_version (byte_at version 0) known)
            ∙ ap₂ (λ (x y : Bytes). ver_userpass ∷ (prefixed x ++ prefixed y)) (sym same_name)
                (sym same_word))
          (then-After (version ++ (prefixed username ++ prefixed password)) [] w u₂ v
            (then-After version (prefixed username ++ prefixed password) w u u₂ a b) written),
    )
  where
    is_version : (n : ℕ) → not (n == ver_userpass) ≡ false → n ≡ ver_userpass
    is_version n e = ground arith

    front :
        (version fields : Bytes)
        → version ≡ byte_at version 0 ∷ []
        → byte_at version 0 ≡ ver_userpass
        → (version ++ fields) ++ [] ≡ ver_userpass ∷ fields
    front version fields e e₀ =
        append-nil (version ++ fields)
        ∙ ap (λ (x : Bytes). x ++ fields) e
        ∙ ap (λ (n : ℕ). n ∷ fields) e₀
