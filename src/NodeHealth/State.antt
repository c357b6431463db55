-- ===== src/NodeHealth/State.antt =====
-- `applyNodeHealthReport` of packages/control-plane/src/node-health.ts: the counters of a node, its
-- health, and the rows that a report writes.
use opus8_cf.Base.{
  ℕ, ◌+◌, Bool, true, false, not, ◌&&◌, List, Option, none, some, leb, ltb, if◌then◌else◌, or_text,
  Text, codes, text_eq,
}
use opus8_cf.Nodes.{Node, Health, healthy, degraded, banned}
use opus8_cf.NodeHealth.Report.{Probe, Report}

abbrev pub failure_threshold : ℕ
failure_threshold = 3

abbrev pub recovery_threshold : ℕ
recovery_threshold = 2

abbrev pub event_retention_ms : ℕ
event_retention_ms = 604800000

-- Why a node has its health; the source writes each as a sentence.
pub data Reason : Type 0 where
  direct_failed : Option Text → Reason
  verifying : ℕ → Reason
  landing_failed : Option Text → Reason
  all_good : Reason

-- The health of a node and its two counters.
pub record Standing : Type 0 where
  pub health : Health
  pub failures : ℕ
  pub successes : ℕ

abbrev is_banned : Health → Bool
is_banned banned = true
is_banned _ = false

abbrev pub is_healthy : Health → Bool
is_healthy healthy = true
is_healthy _ = false

-- The rules of the loop over the results: the new standing and its reason.
unfoldable pub judge : Standing → Probe → Standing × Reason
judge s p =
    if not p.direct_ok
    then (
      record {
        health = if leb failure_threshold (s.failures + 1) then banned else degraded;
        failures = s.failures + 1;
        successes = 0;
      },
      direct_failed p.direct_error,
    )
    else if is_banned s.health && ltb (s.successes + 1) recovery_threshold
    then (
      record { health = banned; failures = 0; successes = s.successes + 1 },
      verifying (s.successes + 1),
    )
    else if not p.landing_ok
    then (
      record { health = degraded; failures = 0; successes = s.successes + 1 },
      landing_failed p.landing_error,
    )
    else (record { health = healthy; failures = 0; successes = s.successes + 1 }, all_good)

-- A row of `node_health_state`.
pub record HealthRow : Type 0 where
  pub node_id : Text
  pub consecutive_failures : ℕ
  pub consecutive_successes : ℕ
  pub direct_ok : Bool
  pub landing_ok : Bool
  pub direct_latency_ms : Option ℕ
  pub landing_latency_ms : Option ℕ
  pub last_checked : ℕ
  pub last_success : Option ℕ
  pub last_failure : Option ℕ
  pub last_error : Option Reason
  pub last_run_id : Text
  pub updated_at : ℕ

-- A row of `node_health_runs`.
pub record RunRow : Type 0 where
  pub run_id : Text
  pub checked_at : ℕ
  pub received_at : ℕ

-- A row of `node_health_events`; the details stand as the three texts that their JSON holds.
pub record EventRow : Type 0 where
  pub run_id : Text
  pub node_id : Text
  pub checked_at : ℕ
  pub direct_ok : Bool
  pub landing_ok : Bool
  pub direct_latency_ms : Option ℕ
  pub landing_latency_ms : Option ℕ
  pub error : Option Text
  pub details : Option Text × Option Text × Option Text

pub record HealthDb : Type 0 where
  pub nodes : List Node
  pub states : List HealthRow
  pub runs : List RunRow
  pub events : List EventRow

abbrev pub state_of : Text → HealthRow → Bool
state_of id r = text_eq r.node_id id

abbrev pub run_is : Text → RunRow → Bool
run_is id r = text_eq r.run_id id

abbrev pub failures_of : Option HealthRow → ℕ
failures_of none = 0
failures_of (some r) = r.consecutive_failures

abbrev pub successes_of : Option HealthRow → ℕ
successes_of none = 0
successes_of (some r) = r.consecutive_successes

-- What `listNodes` says of a node before the report.
abbrev pub standing_of : Node → Option HealthRow → Standing
standing_of n r = record { health = n.health; failures = failures_of r; successes = successes_of r }

abbrev pub last_success_of : Option HealthRow → Option ℕ
last_success_of none = none
last_success_of (some r) = r.last_success

abbrev pub last_failure_of : Option HealthRow → Option ℕ
last_failure_of none = none
last_failure_of (some r) = r.last_failure

unfoldable pub event_error : Probe → Option Text
event_error p =
    if not p.direct_ok
    then or_text p.direct_error (some (codes "direct probe failed"))
    else if not p.landing_ok
    then or_text p.landing_error (some (codes "landing probe failed"))
    else none

unfoldable pub event_row : Report → Probe → EventRow
unfolding event_error
event_row report p = record {
  run_id = report.run_id;
  node_id = p.node_id;
  checked_at = report.checked_at;
  direct_ok = p.direct_ok;
  landing_ok = p.landing_ok;
  direct_latency_ms = p.direct_latency_ms;
  landing_latency_ms = p.landing_latency_ms;
  error = event_error p;
  details = (p.direct_error, p.landing_error, p.vantages);
}

unfoldable pub health_row : Report → ℕ → Node → Option HealthRow → Probe → HealthRow
health_row report now n before p =
    let (next, reason) = judge (standing_of n before) p in
    record {
      node_id = p.node_id;
      consecutive_failures = next.failures;
      consecutive_successes = next.successes;
      direct_ok = p.direct_ok;
      landing_ok = p.landing_ok;
      direct_latency_ms = p.direct_latency_ms;
      landing_latency_ms = p.landing_latency_ms;
      last_checked = report.checked_at;
      last_success = if p.direct_ok then some report.checked_at else last_success_of before;
      last_failure = if p.direct_ok then last_failure_of before else some report.checked_at;
      last_error = if is_healthy next.health then none else some reason;
      last_run_id = report.run_id;
      updated_at = now;
    }

abbrev pub set_health : Health → Node → Node
set_health h n = record n { health = h }
