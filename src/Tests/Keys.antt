-- ===== src/Tests/Keys.antt =====
-- A landing's credential under the key before the current one, and its migration.
use opus8_cf.Base.{
  update_where, split, count_where, text_eq, ℕ, ◌+◌, ◌-◌, ◌≡◌, ◌≢◌, refl, arith, ap, true, List, [],
  ◌∷◌, ◌++◌, Option, none, some, Text, codes, length, map, All, str, truthy, drop, take, Value,
  undefined, null, bool, num, arr, obj, if◌then◌else◌, ◌==◌,
}
use opus8_cf.SecretBox.{open_json_with_rotation, previous_secret_configured, Cipher, seal_json}
use opus8_cf.SecretBox.RoundTrip.{IsCipher}
use opus8_cf.LandingKeys.{
  LandingRow, RawCredential, LandingKeyEnv, RotationStatus, valid_credential, filled,
  migrate_landing_credentials, run_batches, run_reseals,
}
use opus8_cf.LandingKeys.Batches.{batches-all}
use opus8_cf.LandingKeys.Migrated.{IsFilled}
use opus8_cf.LandingKeys.Preserved.{credential_in, migrate-preserves}
use opus8_cf.Tests.Sample.{repeat}

-- The units are moved above that of the dot.
abbrev shift : Text → Text
shift [] = []
shift (c ∷ s) = (c + 100) ∷ shift s

abbrev unshift : Text → Text
unshift [] = []
unshift (c ∷ s) = (c - 100) ∷ unshift s

unshift-shift : (s : Text) → unshift (shift s) ≡ s
unshift-shift [] = refl
unshift-shift (c ∷ s) = ground (arith, unshift-shift s)

shift_no_dot : (s : Text) → All (λ c. c ≢ b'.') (shift s)
shift_no_dot [] = tt
shift_no_dot (c ∷ s) = (omega arith, shift_no_dot s)

shift_some : (s : Text) → truthy s ≡ true → truthy (shift s) ≡ true
shift_some [] h = h
shift_some (c ∷ s) h = refl

-- A sealed text begins with the last unit of its secret.
abbrev last_unit : Text → ℕ
last_unit [] = 0
last_unit (c ∷ []) = c
last_unit (c ∷ d ∷ s) = last_unit (d ∷ s)

abbrev unseal : ℕ → Text → Option Text
unseal k [] = none
unseal k (c ∷ s) = if c == k then some s else none

abbrev box : Cipher Text
box = record {
  encrypt = λ secret iv aad plain. last_unit secret ∷ plain;
  decrypt = λ secret iv aad sealed. unseal (last_unit secret) sealed;
  encode = shift;
  decode = λ s. some (unshift s);
  stringify = λ v. v;
  parse = λ s. some s;
}

unseal_own : (k : ℕ) (s : Text) → unseal k (k ∷ s) ≡ some s
unseal_own k s = ground arith

abbrev IsText : Text → Type 0
IsText s = Unit

box-IsCipher : IsCipher box IsText
box-IsCipher = record {
  decode_encode = λ s. ap some (unshift-shift s);
  encode_some = shift_some;
  encode_no_dot = shift_no_dot;
  decrypt_encrypt = λ secret iv aad plain. unseal_own (last_unit secret) plain;
  encrypt_some = λ secret iv aad plain. refl;
  parse_stringify = λ v fits. refl;
}

abbrev text_of : Value → Text
text_of (str s) = s
text_of _ = []

-- The length of the first string stands in front of both.
abbrev pair_of : Text → Option RawCredential
pair_of [] = none
pair_of (n ∷ s) = some (record { username = str (take n s); password = str (drop n s) })

take-append : (s t : Text) → take (length s) (s ++ t) ≡ s
take-append [] t = refl
take-append (c ∷ s) t = ap (λ z. c ∷ z) (take-append s t)

drop-append : (s t : Text) → drop (length s) (s ++ t) ≡ t
drop-append [] t = refl
drop-append (c ∷ s) t = drop-append s t

abbrev safe : Cipher RawCredential
safe = record {
  encrypt = λ secret iv aad plain. last_unit secret ∷ plain;
  decrypt = λ secret iv aad sealed. unseal (last_unit secret) sealed;
  encode = shift;
  decode = λ s. some (unshift s);
  stringify = λ c. length (text_of c.username) ∷ (text_of c.username ++ text_of c.password);
  parse = pair_of;
}

filled_text : (v : Value) → filled v ≡ true → (s : Text) × (v ≡ str s)
filled_text (str s) h = (s, refl)
filled_text undefined h = cc
filled_text null h = cc
filled_text (bool b) h = cc
filled_text (num n) h = cc
filled_text (arr vs) h = cc
filled_text obj h = cc

safe_pair :
    (u p : Value)
    → valid_credential (record { username = u; password = p }) ≡ true
    → pair_of (length (text_of u) ∷ (text_of u ++ text_of p))
      ≡ some (record { username = u; password = p })
unfolding valid_credential
safe_pair u p h =
    let (s, e) = filled_text u (ground arith) in
    let (t, k) = filled_text p (ground arith) in
    rw (e, k) (rw (take-append s t, drop-append s t) refl)

safe-IsCipher : IsCipher safe IsFilled
safe-IsCipher = record {
  decode_encode = λ s. ap some (unshift-shift s);
  encode_some = shift_some;
  encode_no_dot = shift_no_dot;
  decrypt_encrypt = λ secret iv aad plain. unseal_own (last_unit secret) plain;
  encrypt_some = λ secret iv aad plain. refl;
  parse_stringify = λ c fits. safe_pair c.username c.password fits;
}

abbrev key : Text
key = repeat b'a' 32

abbrev old_key : Text
old_key = repeat b'b' 32

abbrev sealed : Text
sealed = codes "v1." ++ (shift (codes "iv") ++ (b'.' ∷ shift (b'a' ∷ codes "hello")))

batches-all_example :
    run_batches 1 0
      (record { id = codes "x"; sealed = codes "new"; before = codes "old" } ∷ [])
      (record { id = codes "x"; credential_enc = codes "old" } ∷ [])
    ≡ run_reseals
        (record { id = codes "x"; sealed = codes "new"; before = codes "old" } ∷ [])
        (record { id = codes "x"; credential_enc = codes "old" } ∷ [])
batches-all_example =
    batches-all 1 0 (record { id = codes "x"; sealed = codes "new"; before = codes "old" } ∷ [])
      (record { id = codes "x"; credential_enc = codes "old" } ∷ []) (omega arith)

abbrev env : LandingKeyEnv
env = record { key = key; previous_key = some old_key }

abbrev login : RawCredential
login = record { username = str (codes "u"); password = str (codes "p") }

abbrev old_rows : List LandingRow
old_rows =
    record {
      id = codes "x";
      credential_enc =
          codes "v1."
          ++ (shift (codes "iv")
              ++ (b'.' ∷ shift (safe.encrypt old_key [] [] (safe.stringify login))));
    }
    ∷ []

abbrev new_rows : List LandingRow
new_rows =
    record {
      id = codes "x";
      credential_enc =
          codes "v1."
          ++ (shift (codes "iv") ++ (b'.' ∷ shift (safe.encrypt key [] [] (safe.stringify login))));
    }
    ∷ []

abbrev status : RotationStatus
status = record {
  previous_key_configured = true;
  total = 1;
  current = 1;
  previous = 0;
  unreadable = 0;
}

migrate-preserves_example :
    (map (credential_in safe env) new_rows ≡ map (credential_in safe env) old_rows)
    × (status.current ≡ length new_rows)
unfolding migrate_landing_credentials previous_secret_configured text_eq count_where
    open_json_with_rotation split seal_json update_where
migrate-preserves_example =
    migrate-preserves safe env (λ id. codes "iv") old_rows new_rows status 1 safe-IsCipher
      (λ id. refl) (refl, tt) refl
