-- ===== src/SecretBox.antt =====
-- packages/control-plane/src/secret-box.ts and packages/control-plane/src/key-rotation.ts: values that
-- are encrypted under a secret, and the secret before it.
pub mod RoundTrip
use opus8_cf.Base.{
  ℕ, Bool, true, false, not, ◌&&◌, ◌||◌, List, [], ◌∷◌, ◌++◌, Option, none, some, leb, ltb,
  if◌then◌else◌, or_else, length, Text, codes, text_eq, truthy, split, Result, ok, err,
}

-- What the code takes from Web Crypto, the base 64 functions and JSON, for values of one type: the
-- key that is derived from a secret is named by the secret, and `decrypt`, `decode` and `parse` are
-- none where they throw. `decode` and `encode` are those of `b64urlDecode` and `b64urlEncode`.
pub record Cipher (A : Type 0) : Type 0 where
  pub encrypt : Text → Text → Text → Text → Text
  pub decrypt : Text → Text → Text → Text → Option Text
  pub encode : Text → Text
  pub decode : Text → Option Text
  pub stringify : A → Text
  pub parse : Text → Option A

pub data BoxError : Type 0 where
  bad_secret bad_format undecodable undecipherable unparsable : BoxError
  not_current not_either : BoxError

module _ {A : Type 0} (cipher : Cipher A) where
  -- `importKey` refuses a short secret.
  abbrev pub usable : Text → Bool
  usable secret = leb 32 (length secret)

  -- `sealJson`, with the random bytes that it draws.
  unfoldable pub seal_json : Text → A → Text → Text → Result BoxError Text
  seal_json secret value additional_data iv =
      if usable secret
      then ok (
          codes "v1."
          ++ (cipher.encode iv
              ++ (b'.'
                  ∷ cipher.encode
                      (cipher.encrypt secret iv additional_data (cipher.stringify value)))))
      else err bad_secret

  unfoldable pub or_err : {B : Type 0} → Option B → BoxError → Result BoxError B
  or_err none e = err e
  or_err (some b) e = ok b

  -- The parts of an envelope that are read.
  unfoldable pub parts_of : List Text → Option (Text × Text)
  parts_of (version ∷ iv ∷ body ∷ rest) =
      if text_eq version (codes "v1") && (truthy iv && truthy body) then some (iv, body) else none
  parts_of _ = none

  unfoldable pub open_parts : Text → Text → Text × Text → Result BoxError A
  unfolding or_err
  open_parts secret additional_data (iv, body) = elim (cipher.decode iv) [
    | none ↦ err undecodable
    | some bytes ↦ elim (cipher.decode body) [
      | none ↦ err undecodable
      | some sealed ↦ elim (cipher.decrypt secret bytes additional_data sealed) [
        | none ↦ err undecipherable
        | some plain ↦ or_err (cipher.parse plain) unparsable
      ]
    ]
  ]

  -- `openJson`.
  unfoldable pub open_json : Text → Text → Text → Result BoxError A
  unfolding parts_of open_parts or_err
  open_json secret envelope additional_data = elim (parts_of (split b'.' envelope)) [
    | none ↦ err bad_format
    | some parts ↦ if usable secret then open_parts secret additional_data parts else err bad_secret
  ]

-- `SecretSlot`.
pub data SecretSlot : Type 0 where
  current previous : SecretSlot

-- `previousSecretConfigured`.
unfoldable pub previous_secret_configured : Text → Option Text → Bool
previous_secret_configured secret none = false
previous_secret_configured secret (some p) = truthy p && not (text_eq p secret)

-- `secretCandidates`.
unfoldable pub secret_candidates : Text → Option Text → List (SecretSlot × Text)
unfolding previous_secret_configured
secret_candidates secret before =
    (if truthy secret then (current, secret) ∷ [] else [])
    ++ (if previous_secret_configured secret before then (previous, or_else before []) ∷ [] else [])

-- The loop of `verifyJwtWithRotation`; `jwt_verify` is none for a token that is refused.
unfoldable pub first_payload :
    {A : Type 0} → (Text → Option A) → List (SecretSlot × Text) → Option A
first_payload jwt_verify [] = none
first_payload jwt_verify ((slot, secret) ∷ cs) =
    let rest = first_payload jwt_verify cs in
    elim (jwt_verify secret) [ none ↦ rest | some payload ↦ some payload ]

unfoldable pub verify_jwt_with_rotation :
    {A : Type 0} → (Text → Text → Option A) → Text → Text → Option Text → Option A
unfolding first_payload secret_candidates
verify_jwt_with_rotation jwt_verify token secret before =
    first_payload (jwt_verify token) (secret_candidates secret before)

-- `openJsonWithRotation`.
unfoldable pub open_json_with_rotation :
    {A : Type 0} → Cipher A → Text → Option Text → Text → Text → Result BoxError (A × SecretSlot)
unfolding open_json previous_secret_configured
open_json_with_rotation cipher secret before envelope additional_data =
    elim (open_json cipher secret envelope additional_data) [
      | ok value ↦ ok (value, current)
      | err _ ↦
          if previous_secret_configured secret before
          then elim (open_json cipher (or_else before []) envelope additional_data) [
            | ok value ↦ ok (value, previous)
            | err _ ↦ err not_either
          ]
          else err not_current
    ]
