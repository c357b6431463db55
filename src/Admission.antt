-- ===== src/Admission.antt =====
-- `admitConnection` of packages/control-plane/src/usage.ts: the leases of a user's devices.
pub mod Limits
pub mod Owner
pub mod Authorized
use opus8_cf.Base.{
  ℕ, ◌+◌, Bool, true, false, not, ◌&&◌, ◌||◌, List, [], ◌∷◌, Option, none, some, leb, ltb, ◌==◌,
  if◌then◌else◌, or_else, is_some, max, length, all, any, Text, text_eq, first_where, count_where,
  delete_where, upsert, Value, str,
}
use opus8_cf.Users.Tables.{
  User, UserLimits, UsageTotal, user_is, limits_of, unexpired, is_active, device_limit_of,
  ip_limit_of, traffic_limit_of, sum_usage,
}

abbrev pub lease_ttl_ms : ℕ
lease_ttl_ms = 300000

abbrev pub day_ms : ℕ
day_ms = 86400000

pub record Lease : Type 0 where
  pub user_id : Text
  pub uuid : Text
  pub node_id : Text
  pub ip_hash : Text
  pub lease_id : Text
  pub first_seen : ℕ
  pub last_seen : ℕ
  pub expires_at : ℕ

pub record SeenIp : Type 0 where
  pub user_id : Text
  pub ip_hash : Text
  pub first_seen : ℕ
  pub last_seen : ℕ

pub record AdmissionDb : Type 0 where
  pub users : List User
  pub limits : List UserLimits
  pub leases : List Lease
  pub history : List SeenIp
  pub usage : List UsageTotal

-- `AdmissionInput` after its checks, with the user that the credential belongs to.
pub record Admission : Type 0 where
  pub user_id : Text
  pub node_id : Text
  pub uuid : Text
  pub lease_id : Text
  pub ip_hash : Text

abbrev pub live : Text → ℕ → Lease → Bool
live id now l = text_eq l.user_id id && ltb now l.expires_at

abbrev pub lease_of : Text → Text → Lease → Bool
lease_of id ip l = text_eq l.user_id id && text_eq l.ip_hash ip

-- `last_seen > now - DAY_MS`.
abbrev pub recent : Text → ℕ → SeenIp → Bool
recent id now h = text_eq h.user_id id && ltb now (h.last_seen + day_ms)

abbrev pub seen_of : Text → Text → SeenIp → Bool
seen_of id ip h = text_eq h.user_id id && text_eq h.ip_hash ip

abbrev pub available : ℕ → Option User → Bool
available now none = false
available now (some u) = is_active now u

abbrev pub in_quota : ℕ → ℕ → Bool
in_quota limit used = limit == 0 || ltb used limit

-- The two DELETEs of the batch.
unfoldable pub purge : Text → ℕ → AdmissionDb → AdmissionDb
purge id now db = record db {
  leases = delete_where (λ l. text_eq l.user_id id && leb l.expires_at now) db.leases;
  history = delete_where (λ h. text_eq h.user_id id && leb (h.last_seen + day_ms) now) db.history;
}

-- The conditions on the leases and the addresses of the INSERT.
unfoldable pub has_room : AdmissionDb → Admission → ℕ → Bool
has_room db a now =
    let limits = first_where (limits_of a.user_id) db.limits in
    any (λ l. lease_of a.user_id a.ip_hash l && ltb now l.expires_at) db.leases
    || (ltb (count_where (live a.user_id now) db.leases) (device_limit_of limits)
        && (any (λ h. seen_of a.user_id a.ip_hash h && ltb now (h.last_seen + day_ms)) db.history
            || ltb (count_where (recent a.user_id now) db.history) (ip_limit_of limits)))

-- The WHERE of the INSERT.
unfoldable pub admissible : AdmissionDb → Admission → ℕ → Bool
unfolding has_room
admissible db a now =
    let limits = first_where (limits_of a.user_id) db.limits in
    available now (first_where (user_is a.user_id) db.users)
    && (in_quota (traffic_limit_of limits) (sum_usage a.user_id db.usage) && has_room db a now)

unfoldable pub new_lease : Admission → ℕ → Lease
new_lease a now = record {
  user_id = a.user_id;
  uuid = a.uuid;
  node_id = a.node_id;
  ip_hash = a.ip_hash;
  lease_id = a.lease_id;
  first_seen = now;
  last_seen = now;
  expires_at = now + lease_ttl_ms;
}

-- `ON CONFLICT(user_id,ip_hash) DO UPDATE`.
unfoldable pub renew_lease : Admission → ℕ → Lease → Lease
renew_lease a now l = record l {
  node_id = if leb l.last_seen now then a.node_id else l.node_id;
  lease_id = if leb l.last_seen now then a.lease_id else l.lease_id;
  last_seen = max l.last_seen now;
  expires_at = max l.expires_at (now + lease_ttl_ms);
}

unfoldable pub take_lease : Admission → ℕ → AdmissionDb → AdmissionDb
unfolding new_lease renew_lease
take_lease a now db = record db {
  leases = upsert (lease_of a.user_id a.ip_hash) (renew_lease a now) (new_lease a now) db.leases;
}

-- The address of a lease that exists is remembered.
unfoldable pub remember_ip : Admission → ℕ → AdmissionDb → AdmissionDb
remember_ip a now db =
    if is_some (first_where (lease_of a.user_id a.ip_hash) db.leases)
    then record db {
      history =
          upsert (seen_of a.user_id a.ip_hash) (λ h. record h { last_seen = max h.last_seen now })
            (record { user_id = a.user_id; ip_hash = a.ip_hash; first_seen = now; last_seen = now })
            db.history;
    }
    else db

-- The tables after the batch, and whether the INSERT has changed a row.
unfoldable pub run_batch : AdmissionDb → Admission → ℕ → AdmissionDb × Bool
unfolding purge admissible take_lease remember_ip
run_batch db a now =
    let purged = purge a.user_id now db in
    let allowed = admissible purged a now in
    (remember_ip a now (if allowed then take_lease a now purged else purged), allowed)

pub data Verdict : Type 0 where
  allowed account_unavailable traffic_quota_exceeded : Verdict
  active_ip_limit_exceeded ip_churn_limit_exceeded : Verdict

-- `!state || state.enabled !== 1 || (state.expire_at && state.expire_at <= now)`.
abbrev pub shown_unavailable : ℕ → Option User → Bool
shown_unavailable now none = true
shown_unavailable now (some u) =
    not (u.enabled == 1) || elim u.expire_at [ none ↦ false | some t ↦ ltb 0 t && leb t now ]

-- The reason, from the tables after the batch.
unfoldable pub verdict : AdmissionDb → Admission → ℕ → Bool → Verdict
verdict db a now true = allowed
verdict db a now false =
    let limits = first_where (limits_of a.user_id) db.limits in
    if shown_unavailable now (first_where (user_is a.user_id) db.users)
    then account_unavailable
    else if ltb 0 (traffic_limit_of limits)
        && leb (traffic_limit_of limits) (sum_usage a.user_id db.usage)
    then traffic_quota_exceeded
    else if leb (device_limit_of limits) (count_where (live a.user_id now) db.leases)
    then active_ip_limit_exceeded
    else ip_churn_limit_exceeded

-- `admitConnection` for a user whose credential was found.
unfoldable pub admit : AdmissionDb → Admission → ℕ → AdmissionDb × Verdict
unfolding run_batch verdict
admit db a now = let (db', ok) = run_batch db a now in (db', verdict db' a now ok)
