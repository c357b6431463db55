-- ===== src/Tests/Claims.antt =====
-- A benefit that is claimed twice, a report of usage, and a row of the log of administrators.
use opus8_cf.Credentials.{device_credential_uuids, user_assigned_to_node}
use opus8_cf.Users.Tables.{owned_row}
use opus8_cf.Nodes.{get_node}
use opus8_cf.Enrollment.Fields.{to_number}
use opus8_cf.Base.{
  first_where, text_eq, trim, split, ◌≡◌, ◌≤◌, ◌*◌, refl, true, false, List, [], ◌∷◌, some, none,
  codes, Text, ok, str, num, whole, length, All,
}
use opus8_cf.Users.Accounts.{insert_user}
use opus8_cf.Benefits.{
  BenefitDraws, Provisioning, benefit_user, benefit_device, policy_limits, integration,
  webmaster_benefit_campaign_id, build_provisioning, provision_webmaster_benefit,
}
use opus8_cf.Benefits.Store.{BenefitDb, benefit_store, create_provisioning, get_provisioning}
use opus8_cf.Benefits.Kept.{provision_twice}
use opus8_cf.Benefits.Creations.{run_creations, create-get}
use opus8_cf.Audit.{AuditInput, AuditDraws, password_jwt, audit_row}
use opus8_cf.Audit.Bounded.{IsSafe, audit_row-IsSafe}
use opus8_cf.Metering.{metered, insert_events, MeterDb, UsageEvent, record_usage}
use opus8_cf.Metering.Intake.{RawEvent, IsBilled, record_usage_report, report-IsBilled}
use opus8_cf.Admission.Owner.{resolve_owner, valid_user_id, valid_token, token_pattern, Directory}
use opus8_cf.Tests.Members.{person, tablet}
use opus8_cf.Tests.Owners.{node, user_db}
use opus8_cf.Tests.Sample.{rt}

abbrev draws : BenefitDraws
draws = record {
  user_id = codes "b1";
  device_hex = codes "00";
  token = codes "tok";
  user_uuid = codes "uu";
  device_uuid = codes "du";
}

abbrev claim_id : Text
claim_id = codes "123e4567-e89b-42d3-a456-426614174000"

abbrev empty : BenefitDb
empty = record { accounts = record user_db { users = []; devices = [] }; claims = [] }

abbrev given : Provisioning
given = record {
  claim = record {
    external_claim_id = claim_id;
    integration_id = integration;
    campaign_id = webmaster_benefit_campaign_id;
    user_id = codes "b1";
    device_id = codes "benefit-00";
    created_at = 7;
  };
  user = benefit_user claim_id draws 7;
  device = benefit_device draws 7;
  limits = policy_limits;
}

abbrev after : BenefitDb
after = record {
  accounts = record user_db {
    users = given.user ∷ [];
    devices = given.device ∷ [];
    limits =
        record {
          user_id = codes "b1";
          device_limit = 2;
          ip_limit_24h = 2;
          traffic_limit_bytes = 30 * 1073741824;
        }
        ∷ [];
  };
  claims = given.claim ∷ [];
}

-- A request of another claim comes later, and one of the same claim.
abbrev other_claim : Text
other_claim = codes "523e4567-e89b-42d3-a456-426614174000"

abbrev other_draws : BenefitDraws
other_draws = record {
  user_id = codes "b2";
  device_hex = codes "01";
  token = codes "tok2";
  user_uuid = codes "uu2";
  device_uuid = codes "du2";
}

abbrev other_given : Provisioning
other_given = record {
  claim = record given.claim {
    external_claim_id = other_claim;
    user_id = codes "b2";
    device_id = codes "benefit-01";
  };
  user = benefit_user other_claim other_draws 8;
  device = benefit_device other_draws 8;
  limits = policy_limits;
}

create-get_example :
    get_provisioning (run_creations after (other_given ∷ given ∷ [])) claim_id ≡ some given
unfolding build_provisioning split trim create_provisioning insert_user text_eq
create-get_example =
    create-get empty after claim_id draws 7 given (other_given ∷ given ∷ []) refl refl

provision_twice_example :
    provision_webmaster_benefit benefit_store (λ s. s) after claim_id draws 9
    ≡ ok (after, given, false)
unfolding provision_webmaster_benefit split trim benefit_store first_where insert_user text_eq
provision_twice_example =
    provision_twice (λ s. s) (λ s. s) empty after claim_id draws draws 7 9 given true refl

abbrev meter : MeterDb
meter = record {
  users = person ∷ [];
  limits =
      record {
        user_id = codes "u1";
        device_limit = 2;
        ip_limit_24h = 5;
        traffic_limit_bytes = 1000;
      }
      ∷ [];
  events = [];
  totals = [];
}

abbrev raw : RawEvent
raw = record {
  id = str (codes "ev1");
  user_id = str (codes "u1");
  uuid = str tablet.base_uuid;
  connections = num (whole 1);
  bytes_up = num (whole 10);
  bytes_down = num (whole 20);
  ts_bucket = num (whole 5);
}

abbrev event : UsageEvent
event = record {
  id = codes "ev1";
  user_id = codes "u1";
  connections = 1;
  bytes_up = 10;
  bytes_down = 20;
  ts_bucket = 5;
}

abbrev metered_db : MeterDb
metered_db = (record_usage meter (codes "n1") (event ∷ []) 100).0

abbrev places : Directory
places = record { nodes = node ∷ []; users = person ∷ []; devices = tablet ∷ [] }

report-IsBilled_example :
    (events : List UsageEvent) × (record_usage meter (codes "n1") events 100 ≡ (metered_db, 1))
    × (length events ≤ 20)
    × All (IsBilled rt (codes "secret") places (codes "n1") 100) events
unfolding record_usage_report token_pattern to_number valid_token valid_user_id resolve_owner
    get_node first_where text_eq owned_row user_assigned_to_node device_credential_uuids
    record_usage insert_events metered
report-IsBilled_example =
    report-IsBilled rt (codes "secret") (node ∷ []) (tablet ∷ []) meter metered_db (codes "n1")
      (some (raw ∷ [])) 100 1 refl

abbrev logged : AuditInput
logged = record {
  actor = codes "admin";
  authentication = password_jwt;
  method = codes "post";
  path = codes "/admin/users";
  status = 700;
  request_id = none;
  created_at = none;
}

abbrev audit_draws : AuditDraws
audit_draws = record { id = codes "a1"; request_id = codes "r1"; fallback_id = codes "r2" }

audit_row-IsSafe_example :
    IsSafe 64 (audit_row logged audit_draws 9).actor
    × IsSafe 12 (audit_row logged audit_draws 9).method
    × IsSafe 240 (audit_row logged audit_draws 9).path
    × (100 ≤ (audit_row logged audit_draws 9).status)
    × ((audit_row logged audit_draws 9).status ≤ 599)
audit_row-IsSafe_example = audit_row-IsSafe logged audit_draws 9

logged_status : (audit_row logged audit_draws 9).status ≡ 599
unfolding audit_row
logged_status = refl
