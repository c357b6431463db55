-- ===== src/Tests/Unlock.antt =====
-- Unlocked hosts that are stored and changed by requests.
use opus8_cf.Enrollment.Fields.{drop_last_dot}
use opus8_cf.Base.{
  text_eq, split, has_text, trim, starts_with, ℕ, ◌∙◌, zero, suc, ap, ◌≡◌, refl, true, false, List,
  [], ◌∷◌, Option, none, some, codes, Text, Value, arr, num, whole, Number,
}
use opus8_cf.Routing.{
  StoredCodec, StoredUnlockHosts, present, texts, validate_unlock_hosts, get_unlock_hosts,
  put_unlock_hosts,
}
use opus8_cf.Routing.Stored.{IsCodec, put-get}
use opus8_cf.Routing.Locked.{locked-never_wider}
use opus8_cf.Routing.Requests.{HostsEnv, HostsState, put_hosts, current_hosts, run_requests}
use opus8_cf.Compliance.{domain_scope_increases, host_covered, proxy_provisioning_allowed}
use opus8_cf.Compliance.Scope.{serves}

-- A codec in the place of JSON: a text is closed by 0.
abbrev shift : Text → Text → Text
shift [] s = 0 ∷ s
shift (c ∷ h) s = suc c ∷ shift h s

abbrev encode : List Text → Text
encode [] = []
encode (h ∷ hs) = shift h (encode hs)

abbrev push : ℕ → List Text → List Text
push c [] = (c ∷ []) ∷ []
push c (h ∷ hs) = (c ∷ h) ∷ hs

abbrev decode : Text → List Text
decode [] = []
decode (zero ∷ s) = [] ∷ decode s
decode (suc c ∷ s) = push c (decode s)

decode-shift : (h s : Text) → decode (shift h s) ≡ h ∷ decode s
decode-shift [] s = refl
decode-shift (c ∷ h) s = ap (push c) (decode-shift h s)

decode-encode : (hs : List Text) → decode (encode hs) ≡ hs
decode-encode [] = refl
decode-encode (h ∷ hs) = decode-shift h (encode hs) ∙ ap (λ z. h ∷ z) (decode-encode hs)

abbrev stored_of : Text → Option StoredUnlockHosts
stored_of [] = none
stored_of (now ∷ s) = some (record { hosts = arr (texts (decode s)); updated_at = num (whole now) })

abbrev to_number_or_zero : Value → Number
to_number_or_zero (num n) = n
to_number_or_zero _ = whole 0

abbrev codec : StoredCodec
codec = record {
  stringify = λ hosts now. now ∷ encode hosts;
  parse = stored_of;
  number_or_zero = to_number_or_zero;
}

codec-IsCodec : IsCodec codec
codec-IsCodec = record {
  filled = λ hosts now. refl;
  read = λ hosts now.
      ap (λ z. some (record { hosts = arr (texts z); updated_at = num (whole now) }))
        (decode-encode hosts);
  number = λ n. refl;
}

abbrev wanted : Value
wanted = arr (texts (codes " *.Example.com." ∷ codes "example.com" ∷ codes "http://x.org" ∷ []))

wanted_hosts : (validate_unlock_hosts wanted).hosts ≡ codes "example.com" ∷ []
unfolding validate_unlock_hosts drop_last_dot starts_with trim has_text split text_eq
wanted_hosts = refl

put-get_example :
    get_unlock_hosts codec none (put_unlock_hosts codec (validate_unlock_hosts wanted).hosts 5).0
    ≡ (put_unlock_hosts codec (validate_unlock_hosts wanted).hosts 5).1
put-get_example = put-get codec none wanted 5 codec-IsCodec

abbrev locked_env : HostsEnv
locked_env = record {
  compliance = record {
    proxy_allowed = none;
    enforcement_mode = none;
    policy_id = none;
    maintenance_node_ids = none;
  };
  default_unlock_hosts = some (codes "example.com");
  codec = codec;
  reached = λ v t. true;
  nodes = [];
}

abbrev stored : HostsState
stored = record { kv = present (5 ∷ encode (codes "example.com" ∷ [])); rows = [] }

locked-never_wider_example :
    serves false (current_hosts locked_env stored) (codes "a.b.example.com") ≡ true
unfolding proxy_provisioning_allowed host_covered get_unlock_hosts run_requests drop_last_dot
    starts_with trim has_text split domain_scope_increases text_eq put_unlock_hosts
locked-never_wider_example =
    locked-never_wider locked_env
      ((true, put_hosts (arr (texts (codes "b.example.com" ∷ []))), 6)
        ∷ (true, put_hosts (arr (texts (codes "other.org" ∷ []))), 7)
        ∷ [])
      stored (codes "a.b.example.com") codec-IsCodec refl refl
