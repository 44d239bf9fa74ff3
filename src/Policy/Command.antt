-- ===== src/Policy/Command.antt =====
-- daemon/src/policy/command.rs: argument vectors, and the check of every dynamic argument.
use thisconnect.Prelude.{
  ℕ, Bool, not, ◌||◌, ◌≡◌, ◌≤◌, ◌≢◌, Option, none, some, List, [], ◌∷◌, Result, ok, err, ◌>>=◌,
  ok_parts, ok-injective, subst, ◌↔◌, all, arith, ltb, ◌==◌, if◌then◌else◌, is_empty, true, false,
  refl,
}
use thisconnect.Prelude.Text.{Text, byte_len, starts_with, codes, is_ascii_alphanumeric}
use thisconnect.Policy.Error.{Command, PolicyError, unsafe_argument}

pub data Arg : Type 0 where
  flag : Text → Arg
  value : Text → Arg

pub record CommandOutput : Type 0 where
  pub status : Option ℕ
  pub stdout : Text
  pub stderr : Text

-- `self.status == Some(0)`; an exit status is read as its bit pattern
unfoldable pub succeeded_status : Option ℕ → Bool
succeeded_status none = false
succeeded_status (some code) = code == 0

unfoldable pub succeeded : CommandOutput → Bool
unfolding succeeded_status
succeeded output = succeeded_status output.status

abbrev pub max_value_len : ℕ
max_value_len = 64

abbrev pub is_command_char : ℕ → Bool
is_command_char c =
    is_ascii_alphanumeric c || c == b'.' || c == b':' || c == b'_' || c == b'-' || c == b'/'

unfoldable pub validate_value : Text → Result PolicyError Text
validate_value v =
    if is_empty v
    then err (unsafe_argument v)
    else if ltb max_value_len (byte_len v)
    then err (unsafe_argument v)
    else if starts_with (codes "-") v
    then err (unsafe_argument v)
    else if not (all is_command_char v)
    then err (unsafe_argument v)
    else ok v

unfoldable pub render_arg : Arg → Result PolicyError Text
render_arg (flag literal) = ok literal
render_arg (value dynamic) = validate_value dynamic

-- `.map(..).collect::<Result<Vec<_>, _>>()`: the first refusal ends the collection
unfoldable pub render_args : List Arg → Result PolicyError (List Text)
render_args [] = ok []
render_args (a ∷ rest) = do first ← render_arg a; others ← render_args rest; ok (first ∷ others)

unfoldable pub build : Text → List Arg → Result PolicyError Command
build program args = do
  rendered ← render_args args
  ok (record { program = program; args = rendered })

-- What may stand for a dynamic argument on a privileged command line.
pub record IsSafeValue (v : Text) : Type 0 where
  pub not_empty : v ≢ []
  pub short : byte_len v ≤ max_value_len
  pub no_option : starts_with (codes "-") v ≡ false
  pub plain : all is_command_char v ≡ true

pub validate_value-IsSafeValue : (v w : Text) → validate_value v ≡ ok w → (w ≡ v) × IsSafeValue v
unfolding validate_value
validate_value-IsSafeValue v w h = ground arith

pub validate_value-ok : (v : Text) → IsSafeValue v → validate_value v ≡ ok v
unfolding validate_value
validate_value-ok v h = ground arith

-- What a built argument is: the literal, or the dynamic value once it is known to be safe.
abbrev pub Renders : List Arg → List Text → Type 0
Renders [] [] = Unit
Renders (flag l ∷ args) (t ∷ ts) = (t ≡ l) × Renders args ts
Renders (value v ∷ args) (t ∷ ts) = (t ≡ v) × IsSafeValue t × Renders args ts
Renders _ _ = ⊥

render_args-Renders :
    (args : List Arg) (ts : List Text) → render_args args ≡ ok ts → Renders args ts
unfolding render_args render_arg
render_args-Renders [] ts h = ground arith
render_args-Renders (flag l ∷ args) ts h =
    let (others, done, e) = ok_parts (λ rest. ok (l ∷ rest)) (render_args args) h in
    subst (Renders (flag l ∷ args)) (ok-injective done) (refl, render_args-Renders args others e)
render_args-Renders (value v ∷ args) ts h =
    let (first, more, safe) =
      ok_parts (λ f. render_args args >>= λ rest. ok (f ∷ rest)) (validate_value v) h in
    let (others, done, e) = ok_parts (λ rest. ok (first ∷ rest)) (render_args args) more in
    let (same, fine) = validate_value-IsSafeValue v first safe in
    subst (Renders (value v ∷ args)) (ok-injective done)
      (same, rw same fine, render_args-Renders args others e)

Renders-render_args :
    (args : List Arg) (ts : List Text) → Renders args ts → render_args args ≡ ok ts
unfolding render_args render_arg
Renders-render_args [] [] h = refl
Renders-render_args [] (t ∷ ts) h = absurd h
Renders-render_args (flag l ∷ args) [] h = absurd h
Renders-render_args (value v ∷ args) [] h = absurd h
Renders-render_args (flag l ∷ args) (t ∷ ts) h = rw (h.0, Renders-render_args args ts h.1)
Renders-render_args (value v ∷ args) (t ∷ ts) h =
    rw (← h.0, validate_value-ok t h.1, Renders-render_args args ts h.2)

-- A command is built exactly when every dynamic argument is not empty, at most 64 bytes, does not
-- start with a dash and has only characters of `[A-Za-z0-9.:_/-]`; its argument vector is then the
-- literals and those values, in order, with the program unchanged.
pub build-iff-Renders :
    (program : Text) (args : List Arg) (c : Command)
    → (build program args ≡ ok c) ↔ ((c.program ≡ program) × Renders args c.args)
unfolding build
build-iff-Renders program args c = (forward, backward)
  where
    forward : build program args ≡ ok c → (c.program ≡ program) × Renders args c.args
    forward h =
        let (ts, done, e) = ok_parts _ (render_args args) h in
        subst (λ (k : Command). (k.program ≡ program) × Renders args k.args) (ok-injective done)
          (refl, render_args-Renders args ts e)

    backward : (c.program ≡ program) × Renders args c.args → build program args ≡ ok c
    backward h = rw (Renders-render_args args c.args h.1, ← h.0)
