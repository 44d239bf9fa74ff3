-- ===== src/Mgmt/Challenge.antt =====
-- daemon/src/mgmt/challenge.rs: the challenges of openvpn and the answers to them. Base64 is a
-- crate's: any encoder.
use thisconnect.Prelude.{
  ℕ, zero, suc, Bool, ◌||◌, Option, none, some, List, [], ◌∷◌, ◌++◌, ◌==◌, if◌then◌else◌, Result,
  ok, err, is_empty, any,
}
use thisconnect.Prelude.Text.{Text, codes, text_eq, strip_prefix, trim}
use thisconnect.Prelude.Split.{split_once, trim_matches}
use thisconnect.Mgmt.Escape.{MgmtError, invalid_challenge}

pub record StaticChallenge : Type 0 where
  pub echo : Bool
  pub text : Text

-- `StaticChallenge::parse`
unfoldable pub parse_static : Text → Option StaticChallenge
unfolding strip_prefix split_once text_eq trim
parse_static payload = elim (strip_prefix (codes "SC:") payload) [
  | none ↦ none
  | some rest ↦ elim (split_once b',' rest) [
    | none ↦ none
    | some (flag, text) ↦ some (record { echo = text_eq (trim flag) (codes "1"); text = text })
  ]
]

pub record DynamicChallenge : Type 0 where
  pub flags : Text
  pub state_id : Text
  pub username_b64 : Text
  pub challenge_text : Text

-- `s.splitn(n, c)`: the last field holds the rest
unfoldable pub splitn : ℕ → ℕ → Text → List Text
unfolding split_once
splitn zero c s = []
splitn (suc zero) c s = s ∷ []
splitn (suc (suc n)) c s = elim (split_once c s) [
  | none ↦ s ∷ []
  | some (front, tail) ↦ front ∷ splitn (suc n) c tail
]

-- the four reads after the tag, each a `?`
unfoldable pub dynamic_fields : List Text → Result MgmtError DynamicChallenge
dynamic_fields [] = err (invalid_challenge (codes "missing flags"))
dynamic_fields (flags ∷ []) = err (invalid_challenge (codes "missing state id"))
dynamic_fields (flags ∷ state_id ∷ []) = err (invalid_challenge (codes "missing username"))
dynamic_fields (flags ∷ state_id ∷ username ∷ []) =
    err (invalid_challenge (codes "missing challenge text"))
dynamic_fields (flags ∷ state_id ∷ username ∷ text ∷ rest) =
    if is_empty state_id
    then err (invalid_challenge (codes "empty state id"))
    else ok (record {
      flags = flags;
      state_id = state_id;
      username_b64 = username;
      challenge_text = text;
    })

unfoldable pub dynamic_from : List Text → Result MgmtError DynamicChallenge
unfolding dynamic_fields text_eq
dynamic_from [] = err (invalid_challenge (codes "not a CRV1 challenge"))
dynamic_from (tag ∷ fields) =
    if text_eq tag (codes "CRV1")
    then dynamic_fields fields
    else err (invalid_challenge (codes "not a CRV1 challenge"))

-- `DynamicChallenge::parse`
unfoldable pub parse_dynamic : Text → Result MgmtError DynamicChallenge
unfolding dynamic_from splitn trim_matches trim
parse_dynamic raw = dynamic_from (splitn 5 b':' (trim_matches b'\'' (trim raw)))

-- `DynamicChallenge::echo`, `response_required`
unfoldable pub echo : DynamicChallenge → Bool
echo d = any (λ c. c == b'E') d.flags

unfoldable pub response_required : DynamicChallenge → Bool
response_required d = any (λ c. c == b'R') d.flags

unfoldable pub encode_dynamic_response : Text → Text → Result MgmtError Text
encode_dynamic_response state_id response =
    if is_empty state_id || any (λ c. c == b':') state_id
    then err (invalid_challenge (codes "state id is not a single field"))
    else ok (codes "CRV1::" ++ (state_id ++ (codes "::" ++ response)))

pub data StaticChallengeFormat : Type 0 where
  scrv1 concat : StaticChallengeFormat

module _ (encode : Text → Text) where
  unfoldable pub encode_static_response : Text → Text → StaticChallengeFormat → Text
  encode_static_response password response scrv1 =
      codes "SCRV1:" ++ (encode password ++ (b':' ∷ encode response))
  encode_static_response password response concat = password ++ response

  unfoldable pub encode_cr_response : Text → Text
  encode_cr_response response = encode response
