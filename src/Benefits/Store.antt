-- ===== src/Benefits/Store.antt =====
-- The store of benefits of packages/control-plane/src/db.ts: getWebmasterBenefitProvisioning and
-- createWebmasterBenefitProvisioningAtomic.
use opus8_cf.Base.{
  Bool, true, false, ◌&&◌, ◌||◌, List, ◌∷◌, Option, none, some, if◌then◌else◌, any, Text, text_eq,
  first_where, Result, ok, err, is_some,
}
use opus8_cf.Users.Tables.{User, Device, UserLimits, static, required, user_is, limits_of}
use opus8_cf.Users.Accounts.{UserDb, LimitInput, insert_user}
use opus8_cf.Benefits.{
  Claim, Provisioning, BenefitStore, BenefitError, store_failed, webmaster_benefit_campaign_id,
  integration,
}

-- The tables that the store reads and writes.
pub record BenefitDb : Type 0 where
  pub accounts : UserDb
  pub claims : List Claim

abbrev pub claim_found : Text → Claim → Bool
claim_found id c =
    text_eq c.external_claim_id id
    && (text_eq c.integration_id integration && text_eq c.campaign_id webmaster_benefit_campaign_id)

abbrev pub device_found : Claim → Device → Bool
device_found c d = text_eq d.id c.device_id && text_eq d.user_id c.user_id

abbrev limit_input : UserLimits → LimitInput
limit_input l = record {
  device_limit = l.device_limit;
  ip_limit_24h = l.ip_limit_24h;
  traffic_limit_bytes = l.traffic_limit_bytes;
}

-- The join of a claim with the user, the device and the limits: a row that is missing gives none.
abbrev joined : Claim → Option User → Option Device → Option UserLimits → Option Provisioning
joined c (some u) (some d) (some l) =
    some (record { claim = c; user = u; device = d; limits = limit_input l })
joined c _ _ _ = none

abbrev pub provisioning_of : UserDb → Option Claim → Option Provisioning
provisioning_of db none = none
provisioning_of db (some c) =
    joined c (first_where (user_is c.user_id) db.users) (first_where (device_found c) db.devices)
      (first_where (limits_of c.user_id) db.limits)

-- `getWebmasterBenefitProvisioning`.
unfoldable pub get_provisioning : BenefitDb → Text → Option Provisioning
get_provisioning db id = provisioning_of db.accounts (first_where (claim_found id) db.claims)

-- The keys of `integration_claims`.
abbrev pub claim_clashes : Claim → Claim → Bool
claim_clashes c e =
    text_eq e.external_claim_id c.external_claim_id
    || (text_eq e.user_id c.user_id || text_eq e.device_id c.device_id)

-- What the statements write of the user, of the device and of the claim.
abbrev pub benefit_user_row : User → User
benefit_user_row u = record u { plan_id = none; node_group = none; unlock = 0; enabled = 1 }

abbrev pub benefit_device_row : User → Device → Device
benefit_device_row u d = record d {
  user_id = u.id;
  credential_mode = static;
  hwid_mode = required;
  hwid_hash = none;
  hwid_bound_at = none;
  enabled = 1;
  updated_at = d.created_at;
}

abbrev pub claim_row : Provisioning → Claim
claim_row p = record p.claim { user_id = p.user.id; device_id = p.device.id }

-- The batch: none where a key is taken.
unfoldable pub insert_provisioning : BenefitDb → Provisioning → Option BenefitDb
insert_provisioning db p =
    elim (insert_user db.accounts (benefit_user_row p.user) p.limits
      (benefit_device_row p.user p.device)) [
        | none ↦ none
        | some accounts ↦
            if any (claim_clashes (claim_row p)) db.claims
            then none
            else some (record { accounts = accounts; claims = claim_row p ∷ db.claims })
      ]

-- `createWebmasterBenefitProvisioningAtomic`.
unfoldable pub create_provisioning :
    BenefitDb → Provisioning → Result BenefitError (BenefitDb × Bool)
unfolding insert_provisioning get_provisioning
create_provisioning db p = elim (insert_provisioning db p) [
  | some left ↦ ok (left, true)
  | none ↦
      if is_some (get_provisioning db p.claim.external_claim_id)
      then ok (db, false)
      else err store_failed
]

unfoldable pub benefit_store : BenefitStore BenefitDb
unfolding get_provisioning create_provisioning
benefit_store = record { get = get_provisioning; create_atomic = create_provisioning }
