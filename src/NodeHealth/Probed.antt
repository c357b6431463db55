-- ===== src/NodeHealth/Probed.antt =====
-- The row of `node_health_state` that `applyNodeHealthReport` of packages/control-plane/src/node-health.ts
-- stores for a probe, field by field.
use opus8_cf.Base.{
  ℕ, ◌+◌, ◌≡◌, refl, arith, Bool, true, false, not, Option, none, some, if◌then◌else◌, is_some,
}
use opus8_cf.Nodes.{Node}
use opus8_cf.NodeHealth.Report.{Probe, Report}
use opus8_cf.NodeHealth.State.{
  HealthRow, Standing, failures_of, successes_of, last_success_of, last_failure_of, is_healthy,
  standing_of, judge, set_health, health_row,
}

-- What the stored row says after a probe: its result, and the counters that go on from the row before it.
pub record IsProbed (report : Report) (now : ℕ) (n : Node) (before : Option HealthRow) (p : Probe)
    (r : HealthRow) : Type 0 where
  pub node_id : r.node_id ≡ p.node_id
  pub failures : r.consecutive_failures ≡ (if p.direct_ok then 0 else failures_of before + 1)
  pub successes : r.consecutive_successes ≡ (if p.direct_ok then successes_of before + 1 else 0)
  -- The standing that the next report of the node starts from is the one that the rules give.
  pub standing :
      standing_of (set_health (judge (standing_of n before) p).0.health n) (some r)
      ≡ (judge (standing_of n before) p).0
  pub direct : (r.direct_ok ≡ p.direct_ok) × (r.direct_latency_ms ≡ p.direct_latency_ms)
  pub landing : (r.landing_ok ≡ p.landing_ok) × (r.landing_latency_ms ≡ p.landing_latency_ms)
  pub last_success :
      r.last_success ≡ (if p.direct_ok then some report.checked_at else last_success_of before)
  pub last_failure :
      r.last_failure ≡ (if p.direct_ok then last_failure_of before else some report.checked_at)
  pub faultless : is_some r.last_error ≡ not (is_healthy (judge (standing_of n before) p).0.health)
  pub run :
      (r.last_run_id ≡ report.run_id) × (r.last_checked ≡ report.checked_at) × (r.updated_at ≡ now)

judge-failures :
    (s : Standing) (p : Probe)
    → ((judge s p).0.failures ≡ (if p.direct_ok then 0 else s.failures + 1))
      × ((judge s p).0.successes ≡ (if p.direct_ok then s.successes + 1 else 0))
unfolding judge
judge-failures s p = ground arith

error_of : {A : Type 0} (b : Bool) (a : A) → is_some (if b then none else some a) ≡ not b
error_of true a = refl
error_of false a = refl

pub health_row-IsProbed :
    (report : Report) (now : ℕ) (n : Node) (before : Option HealthRow) (p : Probe)
    → IsProbed report now n before p (health_row report now n before p)
unfolding health_row
health_row-IsProbed report now n before p = record {
  node_id = refl;
  failures = (judge-failures (standing_of n before) p).0;
  successes = (judge-failures (standing_of n before) p).1;
  standing = refl;
  direct = (refl, refl);
  landing = (refl, refl);
  last_success = refl;
  last_failure = refl;
  faultless = error_of (is_healthy (judge (standing_of n before) p).0.health) _;
  run = (refl, refl, refl);
}
