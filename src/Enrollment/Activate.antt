-- ===== src/Enrollment/Activate.antt =====
-- `activateNodeEnrollment` and the ends of a credential (`revokeNodeCredential`,
-- `retirePreviousNodeCredential`, `deleteNodeRegistration`) of
-- packages/control-plane/src/node-enrollment.ts.
use opus8_cf.Base.{
  ℕ, Bool, true, false, not, ◌&&◌, ◌||◌, ◌∷◌, Option, none, some, ltb, ◌==◌, if◌then◌else◌,
  delete_where, Text, text_eq, text_is, or_text, Value, ok, err, ◌>>=◌, ◌>>◌, guard, or_throw,
  first_where, update_where, count_where, upsert, is_some,
}
use opus8_cf.Nodes.{Node, NodeReport, healthy, has_id, upsert_node}
use opus8_cf.Transport.{normalize_transport_path}
use opus8_cf.Enrollment.Fields.{
  Runtime, Outcome, EnrollmentError, no_enrollment, mismatch, region_mismatch, enrollment_used,
  normalize_account_alias, normalize_hostname, normalize_capabilities, parse_capabilities,
}
use opus8_cf.Enrollment.Tables.{
  AuthMode, isolated, Kind, migrate, Status, activated, Credential, Enrollment, NodeDb, is_open,
  is_issued, is_isolated, is_revoked, of_node, for_node,
}

-- `RegisterRequest`, as the body of the request gives it. The handler has checked that the alias
-- and the hostname are strings.
pub record RegisterRequest : Type 0 where
  pub node_id : Text
  pub account_alias : Value
  pub hostname : Value
  pub region : Option Text
  pub capabilities : Value
  pub preferred_ip : Option Text
  pub transport_path : Value

abbrev pub activatable : Text → ℕ → Enrollment → Bool
activatable id now e = text_eq e.id id && (is_issued e.status && ltb now e.expires_at)

-- `enrollment.region && request.region && enrollment.region !== request.region`.
abbrev pub region_conflict : Option Text → Option Text → Bool
region_conflict (some (c ∷ s)) (some (d ∷ t)) = not (text_eq (c ∷ s) (d ∷ t))
region_conflict _ _ = false

abbrev pub is_migration : Kind → Bool
is_migration migrate = true
is_migration _ = false

-- The reads and checks of `activateNodeEnrollment`: the enrollment and the record of the node.
unfoldable pub check_activation :
    Runtime → NodeDb → Text → RegisterRequest → ℕ → ℕ → Outcome (Enrollment × NodeReport)
check_activation rt db enrollment_id request auth_timestamp now = do
  enrollment ← or_throw (first_where (activatable enrollment_id now) db.enrollments) no_enrollment
  guard
      (text_eq request.node_id enrollment.node_id
        && (text_is (normalize_hostname request.hostname) enrollment.hostname
            && (text_is (normalize_account_alias request.account_alias) enrollment.account_alias
                && text_is (normalize_transport_path request.transport_path)
                    enrollment.transport_path)))
      mismatch
  guard (not (region_conflict enrollment.region request.region)) region_mismatch
  capabilities ←
      normalize_capabilities request.capabilities
        (parse_capabilities rt (some enrollment.capabilities))
  ok (
    enrollment,
    record {
      id = enrollment.node_id;
      account_alias = enrollment.account_alias;
      hostname = enrollment.hostname;
      region = or_text request.region enrollment.region;
      capabilities = some (rt.json_strings capabilities);
      preferred_ip = or_text request.preferred_ip enrollment.preferred_ip;
      transport_path = some enrollment.transport_path;
      health = healthy;
      last_seen = auth_timestamp;
      created_at = enrollment.created_at;
    },
  )

unfoldable pub new_credential : Enrollment → ℕ → Credential
new_credential e ts = record {
  node_id = e.node_id;
  auth_mode = isolated;
  current_salt = some e.secret_salt;
  previous_salt = none;
  legacy_fallback = if is_migration e.kind then 1 else 0;
  activated_at = some ts;
  updated_at = ts;
}

-- `ON CONFLICT(node_id) DO UPDATE` of the activation.
unfoldable pub replace_credential : Enrollment → ℕ → Credential → Credential
replace_credential e ts c = record c {
  auth_mode = isolated;
  previous_salt = if is_isolated c.auth_mode then c.current_salt else none;
  legacy_fallback = if is_migration e.kind then 1 else 0;
  current_salt = some e.secret_salt;
  activated_at = some ts;
  updated_at = ts;
}

abbrev pub issued_with_id : Text → Enrollment → Bool
issued_with_id id e = text_eq e.id id && is_issued e.status

unfoldable pub finish_enrollment : ℕ → Enrollment → Enrollment
finish_enrollment ts e = record e { status = activated; activated_at = some ts; updated_at = ts }

-- The writes of `activateNodeEnrollment`. They are made before the last check, which looks at what
-- the batch has changed: the second part is the error that is thrown, if one is.
unfoldable pub commit_activation :
    NodeDb → Enrollment → NodeReport → ℕ → NodeDb × Option EnrollmentError
commit_activation db enrollment report auth_timestamp = (
  record {
    nodes = upsert_node db.nodes report;
    credentials =
        upsert (of_node enrollment.node_id) (replace_credential enrollment auth_timestamp)
          (new_credential enrollment auth_timestamp) db.credentials;
    enrollments =
        update_where (issued_with_id enrollment.id) (finish_enrollment auth_timestamp)
          db.enrollments;
  },
  if count_where (issued_with_id enrollment.id) db.enrollments == 1
      then none
      else some enrollment_used,
)

-- `activateNodeEnrollment`: the database after it, and the record or the error.
unfoldable pub activate_node_enrollment :
    Runtime → NodeDb → Text → RegisterRequest → ℕ → ℕ → NodeDb × Outcome NodeReport
activate_node_enrollment rt db enrollment_id request auth_timestamp now =
    elim (check_activation rt db enrollment_id request auth_timestamp now) [
      | err e ↦ (db, err e)
      | ok (enrollment, report) ↦
          let (db', failure) = commit_activation db enrollment report auth_timestamp in
          (db', elim failure [ none ↦ ok report | some e ↦ err e ])
    ]

abbrev pub active_of_node : Text → Credential → Bool
active_of_node id c = of_node id c && not (is_revoked c.auth_mode)

unfoldable pub revoke_credential : ℕ → Credential → Credential
revoke_credential now c = record c {
  auth_mode = AuthMode.revoked;
  current_salt = none;
  previous_salt = none;
  legacy_fallback = 0;
  updated_at = now;
}

abbrev pub disable_node : Node → Node
disable_node n = record n { enabled = 0 }

abbrev pub open_of_node : Text → Enrollment → Bool
open_of_node id e = for_node id e && is_open e.status

abbrev pub close_at : ℕ → Enrollment → Enrollment
close_at now e = record e { status = Status.revoked; updated_at = now }

-- `revokeNodeCredential`.
unfoldable pub revoke_node_credential : NodeDb → Text → ℕ → NodeDb × Bool
unfolding revoke_credential
revoke_node_credential db node_id now = (
  record {
    nodes = update_where (has_id node_id) disable_node db.nodes;
    credentials = update_where (active_of_node node_id) (revoke_credential now) db.credentials;
    enrollments = update_where (open_of_node node_id) (close_at now) db.enrollments;
  },
  ltb 0 (count_where (active_of_node node_id) db.credentials),
)

abbrev pub retirable : Text → Credential → Bool
retirable id c =
    of_node id c && (is_isolated c.auth_mode && (is_some c.previous_salt || c.legacy_fallback == 1))

unfoldable pub retire_credential : ℕ → Credential → Credential
retire_credential now c = record c { previous_salt = none; legacy_fallback = 0; updated_at = now }

-- `retirePreviousNodeCredential`.
unfoldable pub retire_previous_node_credential : NodeDb → Text → ℕ → NodeDb × Bool
unfolding retire_credential
retire_previous_node_credential db node_id now = (
  record db {
    credentials = update_where (retirable node_id) (retire_credential now) db.credentials;
  },
  ltb 0 (count_where (retirable node_id) db.credentials),
)

-- `deleteNodeRegistration`. Deleting a row of `nodes` deletes the rows of `node_credentials` that
-- refer to it (`ON DELETE CASCADE` in packages/control-plane/schema.sql).
unfoldable pub delete_node_registration : NodeDb → Text → NodeDb × Bool
delete_node_registration db node_id =
    let removed = count_where (has_id node_id) db.nodes in
    (
      record {
        nodes = delete_where (has_id node_id) db.nodes;
        credentials =
            if ltb 0 removed then delete_where (of_node node_id) db.credentials else db.credentials;
        enrollments = delete_where (for_node node_id) db.enrollments;
      },
      ltb 0 removed,
    )
