-- ===== src/Benefits.antt =====
-- packages/control-plane/src/webmaster-benefit.ts: the provisioning of a benefit, once for each claim.
pub mod Store
pub mod Once
pub mod Kept
pub mod Creations
use opus8_cf.Base.{
  ℕ, ◌+◌, ◌*◌, Bool, true, false, ◌&&◌, ◌||◌, List, [], ◌∷◌, ◌++◌, Option, none, some, leb, ◌==◌,
  if◌then◌else◌, length, all, Text, codes, lower, trim, is_digit, split, Result, ok, err, or_throw,
  guard, ◌>>=◌, ◌>>◌,
}
use opus8_cf.Enrollment.Create.{max_safe_integer}
use opus8_cf.Users.Tables.{User, Device, CredentialMode, static, HwidMode, required}
use opus8_cf.Users.Accounts.{LimitInput}

abbrev pub webmaster_benefit_campaign_id : Text
webmaster_benefit_campaign_id = codes "webmaster-benefit-v1"

abbrev pub integration : Text
integration = codes "freedompost"

-- `WebmasterBenefitClaimRecord`.
pub record Claim : Type 0 where
  pub external_claim_id : Text
  pub integration_id : Text
  pub campaign_id : Text
  pub user_id : Text
  pub device_id : Text
  pub created_at : ℕ

-- `WebmasterBenefitProvisioning`.
pub record Provisioning : Type 0 where
  pub claim : Claim
  pub user : User
  pub device : Device
  pub limits : LimitInput

abbrev pub is_hex_digit : ℕ → Bool
is_hex_digit c = is_digit c || (leb b'a' c && leb c b'f')

abbrev hex_group : ℕ → Text → Bool
hex_group n g = (length g == n) && all is_hex_digit g

abbrev version_digit : Text → Bool
version_digit [] = false
version_digit (c ∷ g) = leb b'1' c && leb c b'5'

abbrev variant_digit : Text → Bool
variant_digit [] = false
variant_digit (c ∷ g) = c == b'8' || (c == b'9' || (c == b'a' || c == b'b'))

-- The pattern of the id, by its groups.
abbrev pub claim_groups : List Text → Bool
claim_groups (a ∷ b ∷ c ∷ d ∷ e ∷ []) =
    hex_group 8 a
    && (hex_group 4 b
        && ((hex_group 4 c && version_digit c)
            && ((hex_group 4 d && variant_digit d) && hex_group 12 e)))
claim_groups _ = false

-- `normalizeExternalClaimId`.
unfoldable pub normalize_external_claim_id : Text → Option Text
normalize_external_claim_id value =
    let normalized = lower (trim value) in
    if claim_groups (split b'-' normalized) then some normalized else none

-- The random values of `buildWebmasterBenefitProvisioning`.
pub record BenefitDraws : Type 0 where
  pub user_id : Text
  pub device_hex : Text
  pub token : Text
  pub user_uuid : Text
  pub device_uuid : Text

pub data BenefitError : Type 0 where
  invalid_claim_id invalid_creation_time conflict_lost store_failed : BenefitError

-- `WEBMASTER_BENEFIT_POLICY`.
abbrev pub policy_limits : LimitInput
policy_limits = record { device_limit = 2; ip_limit_24h = 2; traffic_limit_bytes = 30 * 1073741824 }

abbrev pub policy_duration_ms : ℕ
policy_duration_ms = 15 * 86400000

unfoldable pub benefit_user : Text → BenefitDraws → ℕ → User
benefit_user claim_id draws now = record {
  id = draws.user_id;
  username = some (codes "webmaster-" ++ claim_id);
  uuid = draws.user_uuid;
  plan_id = none;
  node_group = none;
  unlock = 0;
  sub_token = draws.token;
  expire_at = some (now + policy_duration_ms);
  enabled = 1;
  created_at = now;
}

unfoldable pub benefit_device : BenefitDraws → ℕ → Device
benefit_device draws now = record {
  id = codes "benefit-" ++ draws.device_hex;
  user_id = draws.user_id;
  name = codes "Webmaster benefit device";
  base_uuid = draws.device_uuid;
  sub_token = draws.token;
  credential_mode = static;
  hwid_mode = required;
  hwid_hash = none;
  hwid_bound_at = none;
  enabled = 1;
  created_at = now;
  updated_at = now;
}

-- `buildWebmasterBenefitProvisioning`.
unfoldable pub build_provisioning : Text → BenefitDraws → ℕ → Result BenefitError Provisioning
unfolding normalize_external_claim_id benefit_user benefit_device
build_provisioning external_claim_id draws now = do
  claim_id ← or_throw (normalize_external_claim_id external_claim_id) invalid_claim_id
  guard (leb 1 now && leb now max_safe_integer) invalid_creation_time
  ok (record {
    claim = record {
      external_claim_id = claim_id;
      integration_id = integration;
      campaign_id = webmaster_benefit_campaign_id;
      user_id = draws.user_id;
      device_id = codes "benefit-" ++ draws.device_hex;
      created_at = now;
    };
    user = benefit_user claim_id draws now;
    device = benefit_device draws now;
    limits = policy_limits;
  })

-- `WebmasterBenefitStore` over a state: `create_atomic` is an error where the call throws, and the
-- time between two calls is a function of the state.
pub record BenefitStore (S : Type 0) : Type 0 where
  pub get : S → Text → Option Provisioning
  pub create_atomic : S → Provisioning → Result BenefitError (S × Bool)

-- The last part of `provisionWebmasterBenefit`, after `createAtomic`.
unfoldable pub after_create :
    {S : Type 0}
    → BenefitStore S
    → Text
    → Provisioning
    → S × Bool
    → Result BenefitError (S × Provisioning × Bool)
after_create store claim_id candidate (s, true) = ok (s, candidate, true)
after_create store claim_id candidate (s, false) = elim (store.get s claim_id) [
  | none ↦ err conflict_lost
  | some winner ↦ ok (s, winner, false)
]

-- `provisionWebmasterBenefit`: the state, the provisioning and whether it was created. `meanwhile` is
-- what other requests do to the state between the first read and the creation.
unfoldable pub provision_webmaster_benefit :
    {S : Type 0}
    → BenefitStore S
    → (S → S)
    → S
    → Text
    → BenefitDraws
    → ℕ
    → Result BenefitError (S × Provisioning × Bool)
unfolding build_provisioning after_create
provision_webmaster_benefit store meanwhile s external_claim_id draws now = do
  claim_id ← or_throw (normalize_external_claim_id external_claim_id) invalid_claim_id
  elim (store.get s claim_id) [
    | some existing ↦ ok (s, existing, false)
    | none ↦ build_provisioning claim_id draws now >>= (λ candidate.
        store.create_atomic (meanwhile s) candidate >>= after_create store claim_id candidate)
  ]
