-- ===== src/AccessStatus.antt =====
-- packages/control-plane/src/access-status.ts, with the row of `listUsers` of
-- packages/control-plane/src/db.ts that it judges.
pub mod Verdicts
use opus8_cf.Base.{
  ℕ, ◌+◌, ◌*◌, Bool, true, false, not, ◌&&◌, List, [], ◌∷◌, Option, none, some, leb, ltb, ◌==◌,
  if◌then◌else◌, Text, text_eq, first_where, count_where,
}
use opus8_cf.Users.Tables.{
  User, UsageTotal, limits_of, device_limit_of, ip_limit_of, traffic_limit_of,
}
use opus8_cf.Admission.{AdmissionDb, live, recent, day_ms}

pub data AccessState : Type 0 where
  active disabled expired traffic_quota_exceeded active_ip_limit_reached : AccessState
  ip_churn_limit_reached traffic_near_quota expiring_soon : AccessState

pub data AccessSeverity : Type 0 where
  healthy warning danger : AccessSeverity

-- `AccessStatusInput`.
pub record AccessStatusInput : Type 0 where
  pub enabled : ℕ
  pub expire_at : Option ℕ
  pub device_limit : ℕ
  pub ip_limit_24h : ℕ
  pub traffic_limit_bytes : ℕ
  pub bytes_up : ℕ
  pub bytes_down : ℕ
  pub active_ips : ℕ
  pub recent_ips : ℕ

-- A time is set when it is neither null nor 0.
abbrev pub expired_at : ℕ → Option ℕ → Bool
expired_at now none = false
expired_at now (some t) = ltb 0 t && leb t now

abbrev pub expires_soon : ℕ → Option ℕ → Bool
expires_soon now none = false
expires_soon now (some t) = ltb now t && leb t (now + 3 * day_ms)

-- The state of `evaluateAccessStatus`. `near used limit` is `used >= limit * 0.9` of the floating
-- point numbers of JavaScript.
unfoldable pub access_state : (ℕ → ℕ → Bool) → AccessStatusInput → ℕ → AccessState
access_state near u now =
    let used = u.bytes_up + u.bytes_down in
    if not (u.enabled == 1)
    then disabled
    else if expired_at now u.expire_at
    then expired
    else if ltb 0 u.traffic_limit_bytes && leb u.traffic_limit_bytes used
    then traffic_quota_exceeded
    else if leb u.device_limit u.active_ips
    then active_ip_limit_reached
    else if leb u.ip_limit_24h u.recent_ips
    then ip_churn_limit_reached
    else if ltb 0 u.traffic_limit_bytes && near used u.traffic_limit_bytes
    then traffic_near_quota
    else if expires_soon now u.expire_at
    then expiring_soon
    else active

-- The severity that goes with each state.
unfoldable pub severity_of : AccessState → AccessSeverity
severity_of disabled = danger
severity_of expired = danger
severity_of traffic_quota_exceeded = danger
severity_of active_ip_limit_reached = warning
severity_of ip_churn_limit_reached = warning
severity_of traffic_near_quota = warning
severity_of expiring_soon = warning
severity_of active = healthy

-- `SUM(bytes_up)` and `SUM(bytes_down)` of a user.
unfoldable pub sum_up : Text → List UsageTotal → ℕ
sum_up id [] = 0
sum_up id (u ∷ us) =
    let rest = sum_up id us in if text_eq u.user_id id then u.bytes_up + rest else rest

unfoldable pub sum_down : Text → List UsageTotal → ℕ
sum_down id [] = 0
sum_down id (u ∷ us) =
    let rest = sum_down id us in if text_eq u.user_id id then u.bytes_down + rest else rest

-- What `listUsers` reads of a user for the status: the user's row, and the rows that have its id.
unfoldable pub status_row : AdmissionDb → User → Text → ℕ → AccessStatusInput
unfolding sum_up sum_down
status_row db u id now =
    let limits = first_where (limits_of id) db.limits in
    record {
      enabled = u.enabled;
      expire_at = u.expire_at;
      device_limit = device_limit_of limits;
      ip_limit_24h = ip_limit_of limits;
      traffic_limit_bytes = traffic_limit_of limits;
      bytes_up = sum_up id db.usage;
      bytes_down = sum_down id db.usage;
      active_ips = count_where (live id now) db.leases;
      recent_ips = count_where (recent id now) db.history;
    }

-- The state that `listUsers` shows for a user.
unfoldable pub shown_state : (ℕ → ℕ → Bool) → AdmissionDb → User → ℕ → AccessState
unfolding access_state status_row
shown_state near db u now = access_state near (status_row db u u.id now) now
