-- ===== src/Maintenance.antt =====
-- packages/control-plane/src/data-maintenance.ts: the rows that the scheduled clean-up deletes.
pub mod Replay
pub mod Verdicts
use opus8_cf.Base.{
  ℕ, ◌+◌, ◌*◌, Bool, true, false, ◌&&◌, ◌||◌, List, Option, none, some, leb, ltb, ◌==◌,
  if◌then◌else◌, Text, codes, text_eq, count_where, delete_where, upsert, Result, ok, err,
}
use opus8_cf.Enrollment.Create.{max_safe_integer}
use opus8_cf.Enrollment.Tables.{Enrollment, Status}
use opus8_cf.NodeHealth.State.{RunRow, EventRow}
use opus8_cf.Alerts.{Incident, IncidentStatus}
use opus8_cf.Admission.{AdmissionDb, Lease, SeenIp, day_ms}
use opus8_cf.Metering.{StoredEvent}
use opus8_cf.SignedRequests.{Nonce}

abbrev pub hour_ms : ℕ
hour_ms = 3600000

-- A row of `admin_audit_log`.
pub record AuditRow : Type 0 where
  pub id : Text
  pub actor : Text
  pub authentication : Text
  pub method : Text
  pub path : Text
  pub status : ℕ
  pub request_id : Text
  pub created_at : ℕ

-- A row of `runtime_state`.
pub record RuntimeRow : Type 0 where
  pub key : Text
  pub value : ℕ
  pub updated_at : ℕ

-- The tables that the clean-up reads and writes.
pub record Retained : Type 0 where
  pub leases : List Lease
  pub history : List SeenIp
  pub usage_events : List StoredEvent
  pub health_events : List EventRow
  pub health_runs : List RunRow
  pub enrollments : List Enrollment
  pub incidents : List Incident
  pub audit_log : List AuditRow
  pub nonces : List Nonce
  pub runtime : List RuntimeRow

-- The conditions of the DELETEs. A time before 0 is written on the other side of the comparison.
abbrev pub lease_over : ℕ → Lease → Bool
lease_over now l = ltb l.expires_at now

abbrev pub history_over : ℕ → SeenIp → Bool
history_over now h = ltb (h.last_seen + 25 * hour_ms) now

abbrev pub event_over : ℕ → StoredEvent → Bool
event_over now e = e.applied && ltb (e.created_at + 2 * day_ms) now

abbrev pub health_event_over : ℕ → EventRow → Bool
health_event_over now e = ltb (e.checked_at + 7 * day_ms) now

abbrev pub health_run_over : ℕ → RunRow → Bool
health_run_over now r = ltb (r.checked_at + 7 * day_ms) now

abbrev pub is_finished : Status → Bool
is_finished Status.activated = true
is_finished Status.revoked = true
is_finished _ = false

abbrev pub enrollment_over : ℕ → Enrollment → Bool
enrollment_over now e =
    if is_finished e.status
    then ltb (e.updated_at + 90 * day_ms) now
    else ltb (e.expires_at + 30 * day_ms) now

abbrev pub resolved_before : Option ℕ → ℕ → Bool
resolved_before none now = false
resolved_before (some t) now = ltb (t + 90 * day_ms) now

abbrev is_resolved : IncidentStatus → Bool
is_resolved IncidentStatus.resolved = true
is_resolved _ = false

abbrev pub incident_over : ℕ → Incident → Bool
incident_over now i = is_resolved i.status && resolved_before i.resolved_at now

abbrev pub audit_over : ℕ → AuditRow → Bool
audit_over now r = ltb (r.created_at + 180 * day_ms) now

abbrev pub nonce_over : ℕ → Nonce → Bool
nonce_over now n = ltb n.expires_at now

-- The batch.
unfoldable pub clean : ℕ → Retained → Retained
clean now db = record db {
  leases = delete_where (lease_over now) db.leases;
  history = delete_where (history_over now) db.history;
  usage_events = delete_where (event_over now) db.usage_events;
  health_events = delete_where (health_event_over now) db.health_events;
  health_runs = delete_where (health_run_over now) db.health_runs;
  enrollments = delete_where (enrollment_over now) db.enrollments;
  incidents = delete_where (incident_over now) db.incidents;
  audit_log = delete_where (audit_over now) db.audit_log;
  nonces = delete_where (nonce_over now) db.nonces;
}

-- The sum of `meta.changes`.
unfoldable pub deleted_rows : ℕ → Retained → ℕ
deleted_rows now db =
    count_where (lease_over now) db.leases
    + count_where (history_over now) db.history
    + count_where (event_over now) db.usage_events
    + count_where (health_event_over now) db.health_events
    + count_where (health_run_over now) db.health_runs
    + count_where (enrollment_over now) db.enrollments
    + count_where (incident_over now) db.incidents
    + count_where (audit_over now) db.audit_log
    + count_where (nonce_over now) db.nonces

pub record MaintenanceResult : Type 0 where
  pub completed_at : ℕ
  pub deleted_rows : ℕ
  pub statements : ℕ

pub data MaintenanceError : Type 0 where
  invalid_maintenance_timestamp : MaintenanceError

abbrev pub success_key : Text
success_key = codes "data_maintenance_last_success"

-- The row that says when the clean-up last ended well.
unfoldable pub note_success : ℕ → ℕ → List RuntimeRow → List RuntimeRow
note_success deleted now rows =
    upsert (λ r. text_eq r.key success_key) (λ r. record r { value = deleted; updated_at = now })
      (record { key = success_key; value = deleted; updated_at = now }) rows

-- `runDataMaintenance`.
unfoldable pub run_data_maintenance :
    Retained → ℕ → Result MaintenanceError (Retained × MaintenanceResult)
unfolding clean deleted_rows note_success
run_data_maintenance db now =
    if leb 1 now && leb now max_safe_integer
    then ok (
      record (clean now db) { runtime = note_success (deleted_rows now db) now db.runtime },
      record { completed_at = now; deleted_rows = deleted_rows now db; statements = 9 },
    )
    else err invalid_maintenance_timestamp
