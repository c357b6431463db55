-- ===== src/LandingKeys.antt =====
-- packages/control-plane/src/landing-key-rotation.ts: the landings' credentials are moved to a new
-- key.
pub mod Batches
pub mod Migrated
pub mod Preserved
use opus8_cf.Base.{
  ℕ, zero, suc, ◌+◌, Bool, true, false, not, ◌&&◌, List, [], ◌∷◌, ◌++◌, Option, none, some, ltb,
  if◌then◌else◌, or_else, length, take, drop, keep, map, Text, codes, text_eq, truthy, update_where,
  count_where, Result, ok, err, guard, ◌>>◌, ◌>>=◌, Value, str,
}
use opus8_cf.SecretBox.{
  Cipher, BoxError, SecretSlot, current, previous, seal_json, open_json_with_rotation,
  previous_secret_configured,
}

-- `LandingCredentialRow`.
pub record LandingRow : Type 0 where
  pub id : Text
  pub credential_enc : Text

-- A parsed credential before its check.
pub record RawCredential : Type 0 where
  pub username : Value
  pub password : Value

-- `LANDING_CONFIG_KEY` and `LANDING_CONFIG_KEY_PREVIOUS`.
pub record LandingKeyEnv : Type 0 where
  pub key : Text
  pub previous_key : Option Text

abbrev pub filled : Value → Bool
filled (str s) = truthy s
filled _ = false

-- `validCredential`.
unfoldable pub valid_credential : RawCredential → Bool
valid_credential c = filled c.username && filled c.password

abbrev pub landing_data : Text → Text
landing_data id = codes "landing:" ++ id

-- What `inspectRow` answers: the credential with its slot, or none for "unreadable".
unfoldable pub inspect_row :
    Cipher RawCredential → LandingKeyEnv → LandingRow → Option (RawCredential × SecretSlot)
unfolding valid_credential
inspect_row cipher env row =
    elim (open_json_with_rotation cipher env.key env.previous_key row.credential_enc
      (landing_data row.id)) [
        | ok opened ↦ if valid_credential opened.0 then some opened else none
        | err _ ↦ none
      ]

abbrev pub in_current : Option (RawCredential × SecretSlot) → Bool
in_current (some (c, current)) = true
in_current _ = false

abbrev pub in_previous : Option (RawCredential × SecretSlot) → Bool
in_previous (some (c, previous)) = true
in_previous _ = false

abbrev pub unreadable : Option (RawCredential × SecretSlot) → Bool
unreadable none = true
unreadable (some _) = false

-- `LandingCredentialRotationStatus`.
pub record RotationStatus : Type 0 where
  pub previous_key_configured : Bool
  pub total : ℕ
  pub current : ℕ
  pub previous : ℕ
  pub unreadable : ℕ

-- `landingCredentialRotationStatus`.
unfoldable pub landing_credential_rotation_status :
    Cipher RawCredential → LandingKeyEnv → List LandingRow → RotationStatus
unfolding inspect_row
landing_credential_rotation_status cipher env rows = record {
  previous_key_configured = previous_secret_configured env.key env.previous_key;
  total = length rows;
  current = count_where (λ r. in_current (inspect_row cipher env r)) rows;
  previous = count_where (λ r. in_previous (inspect_row cipher env r)) rows;
  unreadable = count_where (λ r. unreadable (inspect_row cipher env r)) rows;
}

-- `UPDATE landings SET credential_enc=?2 WHERE id=?1 AND credential_enc=?3`.
pub record Reseal : Type 0 where
  pub id : Text
  pub sealed : Text
  pub before : Text

abbrev pub resealed_row : Reseal → LandingRow → Bool
resealed_row s r = text_eq r.id s.id && text_eq r.credential_enc s.before

unfoldable pub run_reseal : Reseal → List LandingRow → List LandingRow
run_reseal s rows = update_where (resealed_row s) (λ r. record r { credential_enc = s.sealed }) rows

-- `env.DB.batch`.
unfoldable pub run_reseals : List Reseal → List LandingRow → List LandingRow
unfolding run_reseal
run_reseals [] rows = rows
run_reseals (s ∷ ss) rows = run_reseals ss (run_reseal s rows)

pub data RotationError : Type 0 where
  no_previous_key : RotationError
  unreadable_credentials : ℕ → RotationError
  seal_failed : BoxError → RotationError

-- The statement of a row that is under the previous key. `iv_of` draws the random bytes.
unfoldable pub reseal :
    Cipher RawCredential
    → LandingKeyEnv
    → (Text → Text)
    → LandingRow
    → RawCredential
    → Result RotationError Reseal
reseal cipher env iv_of row credential =
    elim (seal_json cipher env.key credential (landing_data row.id) (iv_of row.id)) [
      | ok sealed ↦ ok (record { id = row.id; sealed = sealed; before = row.credential_enc })
      | err e ↦ err (seal_failed e)
    ]

abbrev pub prepend :
    Result RotationError Reseal
    → Result RotationError (List Reseal)
    → Result RotationError (List Reseal)
prepend (ok s) (ok ss) = ok (s ∷ ss)
prepend (ok s) (err e) = err e
prepend (err e) rest = err e

-- The loop over the migrations.
unfoldable pub reseals :
    Cipher RawCredential
    → LandingKeyEnv
    → (Text → Text)
    → List LandingRow
    → Result RotationError (List Reseal)
unfolding reseal inspect_row
reseals cipher env iv_of [] = ok []
reseals cipher env iv_of (row ∷ rows) =
    let rest = reseals cipher env iv_of rows in
    elim (inspect_row cipher env row) [
      | none ↦ rest
      | some (credential, current) ↦ rest
      | some (credential, previous) ↦ prepend (reseal cipher env iv_of row credential) rest
    ]

abbrev pub batch_size : ℕ
batch_size = 50

-- The loop over the offsets, with the number of rounds that are left: the statements from `offset`
-- on are sent in batches of 50.
unfoldable pub run_batches : ℕ → ℕ → List Reseal → List LandingRow → List LandingRow
unfolding run_reseals
run_batches zero offset statements rows = rows
run_batches (suc fuel) offset statements rows =
    let rest =
      run_batches fuel (offset + batch_size) statements
        (run_reseals (take batch_size (drop offset statements)) rows) in
    if ltb offset (length statements) then rest else rows

-- `migrateLandingCredentialsToCurrentKey`: the rows, the status after it and the number of rows that
-- were migrated.
unfoldable pub migrate_landing_credentials :
    Cipher RawCredential
    → LandingKeyEnv
    → (Text → Text)
    → List LandingRow
    → Result RotationError (List LandingRow × RotationStatus × ℕ)
unfolding landing_credential_rotation_status reseals run_batches
migrate_landing_credentials cipher env iv_of rows = do
  guard (previous_secret_configured env.key env.previous_key) no_previous_key
  guard (not (ltb 0 (count_where (λ r. unreadable (inspect_row cipher env r)) rows)))
      (unreadable_credentials (count_where (λ r. unreadable (inspect_row cipher env r)) rows))
  statements ← reseals cipher env iv_of rows
  let left = run_batches (suc (length statements)) 0 statements rows in
      ok (left, landing_credential_rotation_status cipher env left, length statements)
