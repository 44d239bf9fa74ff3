-- ===== src/Proxy/Listener/Bound.antt =====
-- What a listener of proxy/src/listener.rs that starts is bound to.
use thisconnect.Prelude.{
  guarded, ◌≡◌, refl, sym, subst, ◌∙◌, inl, inr, true, false, Option, none, some, List, [], ◌∷◌,
  arith, Bool-cases, ok, ok-injective, is_empty, all, ok_parts,
}
use thisconnect.Proxy.Cidr.{is_loopback}
use thisconnect.Proxy.Socks5.{AuthPolicy, disabled}
use thisconnect.Proxy.Listener.{
  SocketAddr, ListenerConfig, no_bind_address, is_local, find_routable, refuse_open, validate,
  bind_all, Handle, start, is_loopback_only,
}
use thisconnect.Proxy.Listener.Binding.{
  bound_of, unbound_of, bind_rest-Splits, KeepsLoopback, bind_rest-IsBound, bind_rest-local,
}

closed_addresses :
    (addrs : List SocketAddr) (u : Unit)
    → refuse_open (find_routable addrs) ≡ ok u
    → all is_local addrs ≡ true
unfolding refuse_open find_routable
closed_addresses [] u h = refl
closed_addresses (a ∷ addrs) u h = elim (Bool-cases (is_loopback a.ip)) [
  | inl local ↦ rw (local, closed_addresses addrs u (sym (rw local refl) ∙ h)) refl
  | inr routable ↦ let refused : refuse_open (some a) ≡ ok u = sym (rw routable refl) ∙ h in cc
]

-- What a listener that has started is bound to.
pub record IsStarted (try_bind : SocketAddr → Option SocketAddr) (config : ListenerConfig)
    (h : Handle) : Type 0 where
  pub some_bound : is_empty h.listen_addrs ≡ false
  pub bound : h.listen_addrs ≡ bound_of try_bind config.bind_addrs
  pub unbound : h.skipped_addrs ≡ unbound_of try_bind config.bind_addrs
  pub skipped_local : all is_local h.skipped_addrs ≡ true
  pub closed : config.auth ≡ disabled → is_loopback_only h ≡ true
  pub agreed : (h.runtime.socks5.auth ≡ config.auth) × (h.runtime.http.auth ≡ config.auth)

validated :
    (config : ListenerConfig) (a : AuthPolicy) (u : Unit)
    → config.auth ≡ a
    → validate config ≡ ok u
    → (is_empty config.bind_addrs ≡ false) × (a ≡ disabled → all is_local config.bind_addrs ≡ true)
unfolding validate
validated config a u e h =
    let (some_addr, h₁) = guarded (is_empty config.bind_addrs) no_bind_address _ u h in
    (some_addr, λ d. closed_addresses config.bind_addrs u (sym (rw (e ∙ d) refl) ∙ h₁))

-- A listener that starts is bound to at least one address. It listens where the binds of the
-- configured addresses came to be, in their order, but for those whose bind failed, which it
-- reports as skipped and which are all on loopback. Without a password it is bound to loopback
-- alone (where a bind on loopback stays there), and both front ends ask for the configured login.
pub start-IsStarted :
    (try_bind : SocketAddr → Option SocketAddr) (config : ListenerConfig) (h : Handle)
    → KeepsLoopback try_bind
    → start try_bind config ≡ ok h
    → IsStarted try_bind config h
unfolding start bind_all is_loopback_only
start-IsStarted try_bind config h keeps k =
    let (u, k₁, valid) = ok_parts _ (validate config) k in
    let (o, k₂, all_bound) = ok_parts _ (bind_all try_bind config.bind_addrs) k₁ in
    let (some_addr, closed) = validated config config.auth u refl valid in
    let bound =
      bind_rest-IsBound try_bind _ o none config.bind_addrs config.bind_addrs 0 (omega arith)
        (record { counted = refl; skipped_local = refl; reported = refl }) all_bound in
    let split = bind_rest-Splits try_bind _ o none config.bind_addrs all_bound in
    subst (IsStarted try_bind config) (ok-injective k₂) (record {
      some_bound = bound.some_bound some_addr;
      bound = split.0;
      unbound = split.1;
      skipped_local = bound.skipped_local;
      closed =
          λ d. bind_rest-local try_bind _ o none config.bind_addrs keeps (closed d) refl all_bound;
      agreed = (refl, refl);
    })
