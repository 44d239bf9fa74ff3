-- ===== src/Ovpn/Emission/Accepted.antt =====
-- What the handlers of shared/src/ovpn/directive.rs write: a known name and allowed arguments.
use thisconnect.Prelude.{
  some-injective, ◌≡◌, refl, sym, subst, inl, inr, Bool, true, false, not, none, some, List, [],
  ◌∷◌, arith, if◌then◌else◌, Bool-cases, and-left, and-right, ok, err, ok-injective, all, ◌>>=◌,
}
use thisconnect.Prelude.Text.{Text, text_eq, text_eq_iff, one_of}
use thisconnect.Ovpn.Error.{ValidationError}
use thisconnect.Ovpn.Lexer.Tokens.{is_plain}
use thisconnect.Ovpn.Types.{remote_directive, challenge_directive}
use thisconnect.Ovpn.Args.{Checked}
use thisconnect.Ovpn.Directive.{
  Classified, emit, remote, static_challenge, Outcome, emit_if, emitted, first_some,
}
use thisconnect.Ovpn.Emission.{AllAllowed, IsEmittable}

-- A name that the lexer reads back as one token.
abbrev pub is_name : Text → Bool
is_name [] = false
is_name (c ∷ t) = all is_plain (c ∷ t)

abbrev pub IsSound : Classified → Type 0
IsSound (emit d) = IsEmittable d
IsSound (remote r) = IsEmittable (remote_directive r)
IsSound (static_challenge c) = IsEmittable (challenge_directive c)
IsSound _ = Unit

pub emitted-IsSound :
    (n : Text) (args : List Text) → is_name n ≡ true → AllAllowed args → IsSound (emitted n args)
emitted-IsSound [] args h a = cc
emitted-IsSound (c ∷ t) args h a = record { named = omega arith; plain_name = h; allowed = a }

pub named_by : (n m : Text) → text_eq n m ≡ true → is_name m ≡ true → is_name n ≡ true
named_by n m h k = subst (λ t. is_name t ≡ true) (sym ((text_eq_iff n m).0 h)) k

pub one_of-is_name :
    (n : Text) (ns : List Text) → one_of n ns ≡ true → all is_name ns ≡ true → is_name n ≡ true
unfolding one_of
one_of-is_name n [] h k = cc
one_of-is_name n (m ∷ ns) h k = elim (Bool-cases (text_eq n m)) [
  | inl same ↦ named_by n m same (and-left (is_name m) (all is_name ns) k)
  | inr other ↦ one_of-is_name n ns (rw other at h) (and-right (is_name m) (all is_name ns) k)
]

pub unnegated : (b : Bool) → not b ≡ false → b ≡ true
unnegated true h = refl
unnegated false h = cc

-- The verdict of a handler, where it has one, is sound.
abbrev pub Gives : Outcome → Type 0
Gives o = (v : Classified) → o ≡ some (ok v) → IsSound v

pub none-Gives : Gives none
none-Gives v h = cc

pub ok-Gives : (w : Classified) → IsSound w → Gives (some (ok w))
ok-Gives w s v h = subst IsSound (ok-injective (some-injective h)) s

pub err-Gives : (e : ValidationError) → Gives (some (err e))
err-Gives e v h = cc

pub if-Gives :
    (b : Bool) (o o' : Outcome)
    → (b ≡ true → Gives o)
    → (b ≡ false → Gives o')
    → Gives (if b then o else o')
if-Gives true o o' h k = h refl
if-Gives false o o' h k = k refl

pub emit_if-Gives :
    (check : Checked Unit) (n : Text) (args : List Text)
    → is_name n ≡ true
    → AllAllowed args
    → Gives (emit_if check n args)
emit_if-Gives (ok tt) n args h a = ok-Gives (emitted n args) (emitted-IsSound n args h a)
emit_if-Gives (err e) n args h a = err-Gives e

-- A checked value, and the directive made of it.
pub bind-Gives :
    {A : Type 0} (checked : Checked A) (make : A → Classified)
    → ((a : A) → checked ≡ ok a → IsSound (make a))
    → Gives (some (checked >>= λ a. ok (make a)))
bind-Gives (ok a) make h = ok-Gives (make a) (h a refl)
bind-Gives (err e) make h = err-Gives e

pub first_some-Gives : (o o' : Outcome) → Gives o → Gives o' → Gives (first_some o o')
first_some-Gives none o' h k = k
first_some-Gives (some r) o' h k = h
