-- ===== src/Proxy/Socks5/Client/Reading.antt =====
-- What a read from the client of proxy/src/socks5.rs takes.
use thisconnect.Prelude.{
  ℕ, ◌≡◌, refl, sym, ap, subst, Bool, true, false, [], ◌++◌, leb, if◌then◌else◌, leb→le, Result, ok,
  err, ok-injective, length, take, drop, take-append-drop, length-take,
}
use thisconnect.Prelude.Text.{Bytes}
use thisconnect.Proxy.Socks5.{Socks5Error}
use thisconnect.Proxy.Socks5.Client.{Client, read_exact, at_end_error}

-- `bytes` were taken off the front of the input of `w`, which is left as `v`, with nothing else
-- changed.
pub record Took (n : ℕ) (bytes : Bytes) (w v : Client) : Type 0 where
  pub sized : length bytes ≡ n
  pub fronted : w.input ≡ bytes ++ v.input
  pub changed : v ≡ record w { input = v.input }

read_cases :
    (b : Bool) (n : ℕ) (w v : Client) (bytes : Bytes)
    → ◌≡◌ {A = Result Socks5Error Bytes × Client}
        (if b
          then (ok (take n w.input), record w { input = drop n w.input })
          else (err (at_end_error w.at_end), record w { input = [] }))
        (ok bytes, v)
    → (b ≡ true) × (take n w.input ≡ bytes) × (record w { input = drop n w.input } ≡ v)
read_cases true n w v bytes h = (refl, ok-injective (ap (λ x. x.0) h), ap (λ x. x.1) h)
read_cases false n w v bytes h = cc

pub read_exact-Took :
    (n : ℕ) (w v : Client) (bytes : Bytes) → read_exact n w ≡ (ok bytes, v) → Took n bytes w v
unfolding read_exact
read_exact-Took n w v bytes h =
    let (enough, taken, left) = read_cases (leb n (length w.input)) n w v bytes h in
    subst (λ b. Took n b w v) taken
      (subst (Took n (take n w.input) w) left (record {
        sized = length-take n w.input (leb→le n (length w.input) enough);
        fronted = sym (take-append-drop n w.input);
        changed = refl;
      }))
