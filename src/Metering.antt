-- ===== src/Metering.antt =====
-- The batch of `recordUsage` of packages/control-plane/src/usage.ts.
pub mod Once
pub mod Intake
use opus8_cf.Base.{
  ℕ, suc, ◌+◌, ◌*◌, Bool, true, false, not, ◌&&◌, List, [], ◌∷◌, Option, none, some, leb, ltb, ◌==◌,
  if◌then◌else◌, any, keep, map, Text, text_eq, includes, first_where, update_where, delete_where,
  upsert,
}
use opus8_cf.Admission.{day_ms}
use opus8_cf.Users.Tables.{User, UserLimits, UsageTotal, user_is, limits_of}

-- `UsageEventInput` after its checks, with the user that the credential belongs to.
pub record UsageEvent : Type 0 where
  pub id : Text
  pub user_id : Text
  pub connections : ℕ
  pub bytes_up : ℕ
  pub bytes_down : ℕ
  pub ts_bucket : ℕ

-- A row of `usage_events`.
pub record StoredEvent : Type 0 where
  pub event_id : Text
  pub user_id : Text
  pub node_id : Text
  pub ts_bucket : ℕ
  pub connections : ℕ
  pub bytes_up : ℕ
  pub bytes_down : ℕ
  pub applied : Bool
  pub created_at : ℕ

pub record MeterDb : Type 0 where
  pub users : List User
  pub limits : List UserLimits
  pub events : List StoredEvent
  pub totals : List UsageTotal

abbrev has_limit : Option User → Option UserLimits → Bool
has_limit (some u) (some l) = ltb 0 l.traffic_limit_bytes
has_limit _ _ = false

-- The user exists and has a traffic limit: only then is an event stored.
unfoldable pub metered : MeterDb → Text → Bool
metered db id = has_limit (first_where (user_is id) db.users) (first_where (limits_of id) db.limits)

abbrev pub event_is : Text → StoredEvent → Bool
event_is id r = text_eq r.event_id id

unfoldable pub stored_event : Text → ℕ → UsageEvent → StoredEvent
stored_event node_id now e = record {
  event_id = e.id;
  user_id = e.user_id;
  node_id = node_id;
  ts_bucket = e.ts_bucket;
  connections = e.connections;
  bytes_up = e.bytes_up;
  bytes_down = e.bytes_down;
  applied = false;
  created_at = now;
}

-- Whether the INSERT of an event adds a row (`ON CONFLICT(event_id) DO NOTHING`).
abbrev pub is_new : MeterDb → UsageEvent → List StoredEvent → Bool
is_new db e t = metered db e.user_id && not (any (event_is e.id) t)

-- The INSERTs, in order: the rows after them and how many they have added.
unfoldable pub insert_events :
    MeterDb → Text → ℕ → List UsageEvent → List StoredEvent → List StoredEvent × ℕ
unfolding stored_event
insert_events db node_id now [] t = (t, 0)
insert_events db node_id now (e ∷ es) t =
    let (added, n) = insert_events db node_id now es (stored_event node_id now e ∷ t) in
    let passed = insert_events db node_id now es t in
    if is_new db e t then (added, suc n) else passed

abbrev pub waits : List Text → StoredEvent → Bool
waits ids r = not r.applied && includes ids r.event_id

abbrev pub total_of : StoredEvent → UsageTotal → Bool
total_of r u =
    text_eq u.user_id r.user_id && (text_eq u.node_id r.node_id && u.ts_bucket == r.ts_bucket)

unfoldable pub add_to : StoredEvent → UsageTotal → UsageTotal
add_to r u = record u {
  connections = u.connections + r.connections;
  bytes_up = u.bytes_up + r.bytes_up;
  bytes_down = u.bytes_down + r.bytes_down;
}

unfoldable pub total_from : StoredEvent → UsageTotal
total_from r = record {
  user_id = r.user_id;
  node_id = r.node_id;
  ts_bucket = r.ts_bucket;
  connections = r.connections;
  bytes_up = r.bytes_up;
  bytes_down = r.bytes_down;
}

-- `INSERT INTO usage … SELECT … GROUP BY … ON CONFLICT DO UPDATE`: the sum of a group is added row
-- by row, which gives the same totals.
unfoldable pub add_events : List StoredEvent → List UsageTotal → List UsageTotal
unfolding add_to total_from
add_events [] us = us
add_events (r ∷ rs) us = add_events rs (upsert (total_of r) (add_to r) (total_from r) us)

abbrev pub mark : StoredEvent → StoredEvent
mark r = record r { applied = true }

abbrev pub outlived : ℕ → StoredEvent → Bool
outlived now r = leb (r.created_at + 2 * day_ms) now

-- The batch of `recordUsage`: the tables after it and the number of accepted events. Without
-- events nothing is sent.
unfoldable pub record_usage : MeterDb → Text → List UsageEvent → ℕ → MeterDb × ℕ
record_usage db node_id [] now = (db, 0)
record_usage db node_id (e ∷ es) now =
    let (stored, accepted) = insert_events db node_id now (e ∷ es) db.events in
    let ids = map (λ x. x.id) (e ∷ es) in
    (
      record db {
        events = delete_where (outlived now) (update_where (waits ids) mark stored);
        totals = add_events (keep (waits ids) stored) db.totals;
      },
      accepted,
    )
