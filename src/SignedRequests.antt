-- ===== src/SignedRequests.antt =====
-- packages/control-plane/src/automation-auth.ts and packages/control-plane/src/integration-auth.ts:
-- signed requests of other servers, and the request ids that were used.
pub mod Laws
use opus8_cf.Base.{
  ℕ, ◌+◌, Bool, true, false, ◌&&◌, ◌||◌, List, [], ◌∷◌, Option, none, some, leb, ◌==◌,
  if◌then◌else◌, within, or_else, length, all, any, keep, map, Text, codes, text_eq, includes, trim,
  lower, upper, split, join, truthy, is_alnum, is_digit, delete_where,
}
use opus8_cf.Enrollment.Create.{max_safe_integer}
use opus8_cf.NodeAuth.{decimal_from, valid_signature}
use opus8_cf.Signing.{timing_safe_equal, canonical_request_target}

abbrev pub signature_window_ms : ℕ
signature_window_ms = 300000

-- What the code takes from Web Crypto: the HMAC and the SHA-256 digest in hexadecimal.
pub record Crypto : Type 0 where
  pub hmac_sign : Text → Text → Text
  pub sha256_hex : Text → Text

-- A request with its URL parsed, and the four headers of either scheme.
pub record SignedRequest : Type 0 where
  pub method : Text
  pub pathname : Text
  pub search : Text
  pub identity : Option Text
  pub timestamp : Option Text
  pub request_id : Option Text
  pub signature : Option Text

-- `AutomationAuthEnv` without its database.
pub record AutomationEnv : Type 0 where
  pub secret : Option Text
  pub allowed_ids : Option Text

-- `AutomationAuthResult`, and `IntegrationAuthResult` with the key's id as the identity.
pub record Authenticated : Type 0 where
  pub identity : Text
  pub request_id : Text
  pub timestamp : ℕ

unfoldable pub automation_signature_message : Text → Text → Text → Text → Text → Text → Text
unfolding join
automation_signature_message timestamp identity request_id method target body_sha256 = join 10 (
    codes "opus8-automation-v1"
    ∷ timestamp
    ∷ identity
    ∷ request_id
    ∷ upper method
    ∷ target
    ∷ lower body_sha256
    ∷ [])

abbrev pub is_identity_char : ℕ → Bool
is_identity_char c = is_alnum c || (c == b'.' || (c == b'_' || c == b'-'))

-- `validIdentity` and `validKeyId`: `/^[A-Za-z0-9._-]{3,64}$/`.
unfoldable pub valid_identity : Text → Bool
valid_identity s = leb 3 (length s) && (leb (length s) 64 && all is_identity_char s)

-- `validRequestId`.
unfoldable pub valid_request_id : Text → Bool
valid_request_id s =
    leb 16 (length s) && (leb (length s) 128 && all (λ c. is_identity_char c || c == b':') s)

-- `/^\d{1,16}$/`, the safe integers and the window.
unfoldable pub fresh_timestamp : Text → ℕ → Option ℕ
unfolding decimal_from
fresh_timestamp s now =
    if leb 1 (length s) && (leb (length s) 16 && all is_digit s)
    then (if leb (decimal_from 0 s) max_safe_integer
          && within signature_window_ms now (decimal_from 0 s)
        then some (decimal_from 0 s)
        else none)
    else none

abbrev or_default : Option Text → Text
or_default none = codes "github-node-deploy"
or_default (some []) = codes "github-node-deploy"
or_default (some (c ∷ s)) = c ∷ s

unfoldable pub allowed_identities : AutomationEnv → List Text
unfolding valid_identity
allowed_identities env = keep valid_identity (map trim (split b',' (or_default env.allowed_ids)))

unfoldable pub automation_message : Crypto → SignedRequest → Text → Text
unfolding automation_signature_message
automation_message crypto r body =
    automation_signature_message (or_else r.timestamp []) (or_else r.identity [])
      (or_else r.request_id []) r.method (canonical_request_target r.pathname r.search)
      (crypto.sha256_hex body)

-- The conditions of the headers of `verifyAutomationRequest`.
unfoldable pub automation_headers_valid : AutomationEnv → SignedRequest → Bool
unfolding allowed_identities valid_request_id
automation_headers_valid env r =
    valid_identity (or_else r.identity [])
    && (includes (allowed_identities env) (or_else r.identity [])
        && (valid_request_id (or_else r.request_id []) && valid_signature (or_else r.signature [])))

-- `verifyAutomationRequest`.
unfoldable pub verify_automation_request :
    Crypto → SignedRequest → AutomationEnv → Text → ℕ → Option Authenticated
unfolding automation_headers_valid automation_message
verify_automation_request crypto r env body now =
    if leb 32 (length (or_else env.secret []))
      && (leb now max_safe_integer && automation_headers_valid env r)
    then elim (fresh_timestamp (or_else r.timestamp []) now) [
      | none ↦ none
      | some timestamp ↦
          if timing_safe_equal
            (crypto.hmac_sign (or_else env.secret []) (automation_message crypto r body))
            (lower (or_else r.signature []))
          then some (record {
            identity = or_else r.identity [];
            request_id = or_else r.request_id [];
            timestamp = timestamp;
          })
          else none
    ]
    else none

-- `IntegrationAuthConfig`.
pub record IntegrationConfig : Type 0 where
  pub key_id : Text
  pub secret : Text

unfoldable pub integration_signature_message : Text → Text → Text → Text → Text → Text
unfolding join
integration_signature_message timestamp request_id method target body_sha256 = join 10 (
    codes "opus8-integration-v1"
    ∷ timestamp
    ∷ request_id
    ∷ upper method
    ∷ target
    ∷ lower body_sha256
    ∷ [])

unfoldable pub integration_message : Crypto → SignedRequest → Text → Text
unfolding integration_signature_message
integration_message crypto r body =
    integration_signature_message (or_else r.timestamp []) (or_else r.request_id []) r.method
      (canonical_request_target r.pathname r.search) (crypto.sha256_hex body)

unfoldable pub integration_headers_valid : IntegrationConfig → SignedRequest → Bool
unfolding valid_request_id
integration_headers_valid config r =
    timing_safe_equal (or_else r.identity []) config.key_id
    && (valid_request_id (or_else r.request_id []) && valid_signature (or_else r.signature []))

-- `verifyIntegrationRequest`.
unfoldable pub verify_integration_request :
    Crypto → SignedRequest → IntegrationConfig → Text → ℕ → Option Authenticated
unfolding integration_headers_valid integration_message valid_identity
verify_integration_request crypto r config body now =
    if (valid_identity config.key_id && (leb 32 (length config.secret) && leb now max_safe_integer))
      && integration_headers_valid config r
    then elim (fresh_timestamp (or_else r.timestamp []) now) [
      | none ↦ none
      | some timestamp ↦
          if timing_safe_equal (crypto.hmac_sign config.secret (integration_message crypto r body))
            (lower (or_else r.signature []))
          then some (record {
            identity = or_else r.identity [];
            request_id = or_else r.request_id [];
            timestamp = timestamp;
          })
          else none
    ]
    else none

-- A row of `automation_request_nonces`.
pub record Nonce : Type 0 where
  pub request_id : Text
  pub identity : Text
  pub expires_at : ℕ
  pub created_at : ℕ

abbrev pub nonce_of : Text → Nonce → Bool
nonce_of request_id n = text_eq n.request_id request_id

unfoldable pub new_nonce : Authenticated → ℕ → Nonce
new_nonce a now = record {
  request_id = a.request_id;
  identity = a.identity;
  expires_at = a.timestamp + signature_window_ms;
  created_at = now;
}

-- `INSERT OR IGNORE` into the table whose key is the request id.
unfoldable pub insert_nonce : Authenticated → ℕ → List Nonce → List Nonce × Bool
unfolding new_nonce
insert_nonce a now nonces =
    if any (nonce_of a.request_id) nonces then (nonces, false) else (new_nonce a now ∷ nonces, true)

-- `claimAutomationRequest`: the database is none where none is bound.
unfoldable pub claim_automation_request :
    Option (List Nonce) → Authenticated → ℕ → Option (List Nonce) × Bool
unfolding insert_nonce
claim_automation_request none a now = (none, false)
claim_automation_request (some nonces) a now =
    let (left, claimed) = insert_nonce a now nonces in (some left, claimed)
