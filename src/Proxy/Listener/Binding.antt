-- ===== src/Proxy/Listener/Binding.antt =====
-- The loop of `bind_all` in proxy/src/listener.rs.
use thisconnect.Prelude.{
  append-nil, append_assoc, if_parts, guarded, ℕ, ◌+◌, ◌<◌, ◌≡◌, refl, sym, ap, subst, ◌∙◌, inl,
  inr, true, false, not, Option, none, some, List, [], ◌∷◌, ◌++◌, arith, if◌then◌else◌, and-left,
  and-right, Result, ok, err, ok-injective, is_some, length, is_empty, all, length-append,
  all-append,
}
use thisconnect.Proxy.Cidr.{is_loopback}
use thisconnect.Proxy.Listener.{
  SocketAddr, ListenerError, bind, is_local, BindOutcome, or_first, outcome_of, bind_rest,
}

-- A bind on a loopback address is on a loopback address.
abbrev pub KeepsLoopback : (SocketAddr → Option SocketAddr) → Type 0
KeepsLoopback try_bind =
    (a b : SocketAddr) → try_bind a ≡ some b → is_loopback a.ip ≡ true → is_loopback b.ip ≡ true

-- Between two turns of the loop: what was bound and skipped, for so many addresses.
pub record IsBinding (o : BindOutcome) (first : Option ListenerError) (tried : ℕ) : Type 0 where
  pub counted : length o.bound + length o.skipped ≡ tried
  pub skipped_local : all is_local o.skipped ≡ true
  pub reported : is_some first ≡ not (is_empty o.skipped)

-- What a whole run of `bind_all` comes to.
pub record IsBound (addrs : List SocketAddr) (o : BindOutcome) : Type 0 where
  pub counted : length o.bound + length o.skipped ≡ length addrs
  pub skipped_local : all is_local o.skipped ≡ true
  pub some_bound : is_empty addrs ≡ false → is_empty o.bound ≡ false

empty-append : (l : List SocketAddr) (a : SocketAddr) → is_empty (l ++ (a ∷ [])) ≡ false
empty-append [] a = refl
empty-append (x ∷ l) a = refl

is_some-or_first : (f : Option ListenerError) (e : ListenerError) → is_some (or_first f e) ≡ true
is_some-or_first none e = refl
is_some-or_first (some f) e = refl

nonempty_length : (l : List SocketAddr) → is_empty l ≡ false → 0 < length l
nonempty_length [] h = cc
nonempty_length (a ∷ l) h = omega arith

length_nonempty : (l : List SocketAddr) → 0 < length l → is_empty l ≡ false
length_nonempty [] h = let k : ⊥ = omega (arith, h) in elim k [ ]
length_nonempty (a ∷ l) h = refl

none_skipped : (l : List SocketAddr) → false ≡ not (is_empty l) → length l ≡ 0
none_skipped [] h = refl
none_skipped (a ∷ l) h = cc

finished :
    (first : Option ListenerError) (o p : BindOutcome) (addrs : List SocketAddr)
    → IsBinding o first (length addrs)
    → outcome_of first o ≡ ok p
    → IsBound addrs p
finished none o p addrs h k = subst (IsBound addrs) (ok-injective k) (record {
  counted = h.counted;
  skipped_local = h.skipped_local;
  some_bound = λ e.
      length_nonempty o.bound
        (omega (arith, h.counted, none_skipped o.skipped h.reported, nonempty_length addrs e));
})
finished (some f) o p addrs h k =
    let (bound, k₁) = guarded (is_empty o.bound) f (ok o) p k in
    subst (IsBound addrs) (ok-injective k₁)
      (record { counted = h.counted; skipped_local = h.skipped_local; some_bound = λ _. bound })

-- one turn of the loop, with what the turns after it come to
pub turn-IsBound :
    (try_bind : SocketAddr → Option SocketAddr) (m : Option SocketAddr) (a : SocketAddr)
    (o p : BindOutcome) (first : Option ListenerError) (addrs rest : List SocketAddr) (tried : ℕ)
    → IsBinding o first tried
    → ((q : BindOutcome) (f : Option ListenerError)
        → IsBinding q f (tried + 1)
        → bind_rest try_bind q f rest ≡ ok p
        → IsBound addrs p)
    → ◌≡◌ {A = Result ListenerError BindOutcome}
        (elim m [
          | some addr ↦ bind_rest try_bind (record o { bound = o.bound ++ (addr ∷ []) }) first rest
          | none ↦
              if is_loopback a.ip
              then bind_rest try_bind
                  (record o { skipped = o.skipped ++ (a ∷ []) })
                  (or_first first (bind a))
                  rest
              else err (bind a)
        ])
        (ok p)
    → IsBound addrs p
turn-IsBound try_bind (some addr) a o p first addrs rest tried h later e =
    later (record o { bound = o.bound ++ (addr ∷ []) }) first
      (record {
        counted = omega (arith, h.counted, length-append {0} o.bound (addr ∷ []));
        skipped_local = h.skipped_local;
        reported = h.reported;
      })
      e
turn-IsBound try_bind none a o p first addrs rest tried h later e =
    elim (if_parts (is_loopback a.ip) _ _ _ e) [
      | inl (local, e₁) ↦
          later (record o { skipped = o.skipped ++ (a ∷ []) }) (or_first first (bind a))
            (record {
              counted = omega (arith, h.counted, length-append {0} o.skipped (a ∷ []));
              skipped_local =
                  all-append is_local o.skipped (a ∷ []) ∙ rw (h.skipped_local, local) refl;
              reported = is_some-or_first first (bind a) ∙ ap not (sym (empty-append o.skipped a));
            })
            e₁
      | inr (_, e₁) ↦ cc
    ]

pub bind_rest-IsBound :
    (try_bind : SocketAddr → Option SocketAddr) (o p : BindOutcome) (first : Option ListenerError)
    (addrs rest : List SocketAddr) (tried : ℕ)
    → tried + length rest ≡ length addrs
    → IsBinding o first tried
    → bind_rest try_bind o first rest ≡ ok p
    → IsBound addrs p
unfolding bind_rest
bind_rest-IsBound try_bind o p first addrs [] tried sum h k =
    finished first o p addrs (subst (IsBinding o first) (omega (arith, sum)) h) k
bind_rest-IsBound try_bind o p first addrs (a ∷ rest) tried sum h k =
    turn-IsBound try_bind (try_bind a) a o p first addrs rest tried h
      (λ q f g e. bind_rest-IsBound try_bind q p f addrs rest (tried + 1) (omega (arith, sum)) g e)
      k

-- Where every address to bind is on loopback, so is every one that was bound.
turn-local :
    (try_bind : SocketAddr → Option SocketAddr) (m : Option SocketAddr) (a : SocketAddr)
    (o p : BindOutcome) (first : Option ListenerError) (rest : List SocketAddr)
    → KeepsLoopback try_bind
    → try_bind a ≡ m
    → is_local a ≡ true
    → all is_local o.bound ≡ true
    → ((q : BindOutcome) (f : Option ListenerError)
        → all is_local q.bound ≡ true
        → bind_rest try_bind q f rest ≡ ok p
        → all is_local p.bound ≡ true)
    → ◌≡◌ {A = Result ListenerError BindOutcome}
        (elim m [
          | some addr ↦ bind_rest try_bind (record o { bound = o.bound ++ (addr ∷ []) }) first rest
          | none ↦
              if is_loopback a.ip
              then bind_rest try_bind
                  (record o { skipped = o.skipped ++ (a ∷ []) })
                  (or_first first (bind a))
                  rest
              else err (bind a)
        ])
        (ok p)
    → all is_local p.bound ≡ true
turn-local try_bind (some addr) a o p first rest keeps e local h later k =
    later (record o { bound = o.bound ++ (addr ∷ []) }) first
      (all-append is_local o.bound (addr ∷ []) ∙ rw (h, keeps a addr e local) refl) k
turn-local try_bind none a o p first rest keeps e local h later k =
    later (record o { skipped = o.skipped ++ (a ∷ []) }) (or_first first (bind a)) h
      (sym (rw local refl) ∙ k)

pub bind_rest-local :
    (try_bind : SocketAddr → Option SocketAddr) (o p : BindOutcome) (first : Option ListenerError)
    (rest : List SocketAddr)
    → KeepsLoopback try_bind
    → all is_local rest ≡ true
    → all is_local o.bound ≡ true
    → bind_rest try_bind o first rest ≡ ok p
    → all is_local p.bound ≡ true
unfolding bind_rest
bind_rest-local try_bind o p none [] keeps local h k =
    subst (λ q. all is_local q.bound ≡ true) (ok-injective k) h
bind_rest-local try_bind o p (some f) [] keeps local h k =
    subst (λ q. all is_local q.bound ≡ true)
      (ok-injective ((guarded (is_empty o.bound) f (ok o) p k).1)) h
bind_rest-local try_bind o p first (a ∷ rest) keeps local h k =
    turn-local try_bind (try_bind a) a o p first rest keeps refl
      (and-left (is_local a) (all is_local rest) local) h
      (λ q f g e.
        bind_rest-local try_bind q p f rest keeps (and-right (is_local a) (all is_local rest) local)
          g e)
      k

-- The addresses that the binds which succeed come to be on, and the addresses whose bind fails.
abbrev pub onto_bound : Option SocketAddr → List SocketAddr → List SocketAddr
onto_bound none rest = rest
onto_bound (some b) rest = b ∷ rest

abbrev pub onto_unbound : SocketAddr → Option SocketAddr → List SocketAddr → List SocketAddr
onto_unbound a none rest = a ∷ rest
onto_unbound a (some b) rest = rest

abbrev pub bound_of : (SocketAddr → Option SocketAddr) → List SocketAddr → List SocketAddr
bound_of try_bind [] = []
bound_of try_bind (a ∷ rest) = onto_bound (try_bind a) (bound_of try_bind rest)

abbrev pub unbound_of : (SocketAddr → Option SocketAddr) → List SocketAddr → List SocketAddr
unbound_of try_bind [] = []
unbound_of try_bind (a ∷ rest) = onto_unbound a (try_bind a) (unbound_of try_bind rest)

abbrev Splits : BindOutcome → BindOutcome → List SocketAddr → List SocketAddr → Type 0
Splits o p bound unbound = (p.bound ≡ o.bound ++ bound) × (p.skipped ≡ o.skipped ++ unbound)

outcome_kept :
    (first : Option ListenerError) (o p : BindOutcome) → outcome_of first o ≡ ok p → o ≡ p
outcome_kept none o p h = ok-injective h
outcome_kept (some f) o p h = ok-injective ((guarded (is_empty o.bound) f (ok o) p h).1)

turn-Splits :
    (try_bind : SocketAddr → Option SocketAddr) (m : Option SocketAddr) (a : SocketAddr)
    (o p : BindOutcome) (first : Option ListenerError) (rest : List SocketAddr)
    → ((q : BindOutcome) (f : Option ListenerError)
        → bind_rest try_bind q f rest ≡ ok p
        → Splits q p (bound_of try_bind rest) (unbound_of try_bind rest))
    → ◌≡◌ {A = Result ListenerError BindOutcome}
        (elim m [
          | some addr ↦ bind_rest try_bind (record o { bound = o.bound ++ (addr ∷ []) }) first rest
          | none ↦
              if is_loopback a.ip
              then bind_rest try_bind
                  (record o { skipped = o.skipped ++ (a ∷ []) })
                  (or_first first (bind a))
                  rest
              else err (bind a)
        ])
        (ok p)
    → Splits o p
        (onto_bound m (bound_of try_bind rest))
        (onto_unbound a m (unbound_of try_bind rest))
turn-Splits try_bind (some b) a o p first rest later h =
    let (e, f) = later (record o { bound = o.bound ++ (b ∷ []) }) first h in
    (e ∙ append_assoc o.bound (b ∷ []) (bound_of try_bind rest), f)
turn-Splits try_bind none a o p first rest later h = elim (if_parts (is_loopback a.ip) _ _ _ h) [
  | inl (_, h₁) ↦
      let (e, f) =
        later (record o { skipped = o.skipped ++ (a ∷ []) }) (or_first first (bind a)) h₁ in
      (e, f ∙ append_assoc o.skipped (a ∷ []) (unbound_of try_bind rest))
  | inr (_, h₁) ↦ cc
]

-- Each address of the loop is bound or skipped, in its turn.
pub bind_rest-Splits :
    (try_bind : SocketAddr → Option SocketAddr) (o p : BindOutcome) (first : Option ListenerError)
    (rest : List SocketAddr)
    → bind_rest try_bind o first rest ≡ ok p
    → Splits o p (bound_of try_bind rest) (unbound_of try_bind rest)
unfolding bind_rest
bind_rest-Splits try_bind o p first [] h =
    let same = sym (outcome_kept first o p h) in
    (
      ap (λ x. x.bound) same ∙ sym (append-nil o.bound),
      ap (λ x. x.skipped) same ∙ sym (append-nil o.skipped),
    )
bind_rest-Splits try_bind o p first (a ∷ rest) h =
    turn-Splits try_bind (try_bind a) a o p first rest (λ q f. bind_rest-Splits try_bind q p f rest)
      h
