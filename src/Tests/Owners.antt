-- ===== src/Tests/Owners.antt =====
-- The credential of a user's device on a node, and what becomes of it.
use opus8_cf.Credentials.{device_credential_uuids, user_assigned_to_node}
use opus8_cf.Users.Tables.{owned_row}
use opus8_cf.Base.{
  count_where, update_where, text_eq, ◌≡◌, ◌≢◌, refl, arith, true, false, [], ◌∷◌, none, some,
  codes, any, lower, if◌then◌else◌,
}
use opus8_cf.Nodes.{get_node, Node, healthy}
use opus8_cf.Base.{first_where}
use opus8_cf.Users.Accounts.{UserDb, PolicyChanges, update_user_policy}
use opus8_cf.Users.Accounts.Revoked.{directory_of, disabled-unauthorized}
use opus8_cf.Admission.{AdmissionDb, Admission, admit, Lease}
use opus8_cf.Admission.Owner.{Directory, resolve_owner}
use opus8_cf.Admission.Authorized.{IsOwner, resolve-IsOwner}
use opus8_cf.Policy.{active_user_policy}
use opus8_cf.Policy.Agreement.{policy-agrees, grants}
use opus8_cf.AccessStatus.{shown_state}
use opus8_cf.AccessStatus.Verdicts.{shown_state-admit, is_allowed}
use opus8_cf.Maintenance.Verdicts.{cleaned, admit-cleaned}
use opus8_cf.Tests.Sample.{rt}
use opus8_cf.Tests.Members.{person, tablet}

abbrev pub node : Node
node = record {
  id = codes "n1";
  account_alias = codes "main";
  hostname = codes "n1.example.com";
  region = none;
  capabilities = none;
  preferred_ip = none;
  transport_path = codes "/";
  health = healthy;
  enabled = 1;
  last_seen = none;
  created_at = 0;
}

abbrev pub user_db : UserDb
user_db = record {
  users = person ∷ [];
  devices = tablet ∷ [];
  limits = [];
  usage = [];
  events = [];
  leases = [];
  history = [];
}

abbrev directory : Directory
directory = directory_of (node ∷ []) user_db

resolve-IsOwner_example :
    IsOwner rt (codes "secret") directory (codes "n1") tablet.base_uuid 100 (codes "u1")
unfolding resolve_owner get_node first_where text_eq owned_row user_assigned_to_node
    device_credential_uuids
resolve-IsOwner_example =
    resolve-IsOwner rt (codes "secret") directory (codes "n1") (some (codes "u1")) tablet.base_uuid
      100 (codes "u1") refl

policy-agrees_example :
    resolve_owner rt
      (codes "secret")
      directory
      (codes "n1")
      (some (codes "u1"))
      tablet.base_uuid
      100
    ≡ (if any
          (grants (codes "u1") (lower tablet.base_uuid))
          (active_user_policy rt (codes "secret") directory [] [] (codes "n1") 100).access_policies
        then some (codes "u1")
        else none)
policy-agrees_example =
    policy-agrees rt (codes "secret") directory [] [] (codes "n1") (codes "u1") tablet.base_uuid 100
      refl

abbrev switch_off : PolicyChanges
switch_off = record {
  unlock = none;
  enabled = some false;
  device_limit = none;
  ip_limit_24h = none;
  traffic_limit_bytes = none;
}

abbrev off_db : UserDb
off_db = record user_db { users = record person { enabled = 0 } ∷ [] }

disabled-unauthorized_example :
    resolve_owner rt
      (codes "secret")
      (directory_of (node ∷ []) off_db)
      (codes "n1")
      (some (codes "u1"))
      tablet.base_uuid
      100
    ≢ some (codes "u1")
unfolding update_user_policy update_where text_eq
disabled-unauthorized_example =
    disabled-unauthorized rt (codes "secret") (node ∷ []) user_db off_db (codes "u1") switch_off
      (codes "n1") (some (codes "u1")) tablet.base_uuid 100 refl refl

abbrev old_lease : Lease
old_lease = record {
  user_id = codes "u1";
  uuid = codes "c1";
  node_id = codes "n1";
  ip_hash = codes "ip9";
  lease_id = codes "l9";
  first_seen = 0;
  last_seen = 0;
  expires_at = 5;
}

abbrev admission_db : AdmissionDb
admission_db = record {
  users = person ∷ [];
  limits = [];
  leases = old_lease ∷ [];
  history = [];
  usage = [];
}

abbrev connection : Admission
connection = record {
  user_id = codes "u1";
  node_id = codes "n1";
  uuid = codes "c1";
  lease_id = codes "l1";
  ip_hash = codes "ip1";
}

shown_state-admit_example : is_allowed (admit admission_db connection 100).1 ≡ true
unfolding first_where text_eq shown_state count_where
shown_state-admit_example =
    shown_state-admit (λ used limit. false) admission_db connection person 100 true refl
      (λ e. ground (arith, e)) refl

admit-cleaned_example :
    (admit (cleaned 50 admission_db) connection 100).1 ≡ (admit admission_db connection 100).1
admit-cleaned_example = admit-cleaned admission_db connection 50 100 (omega arith)
