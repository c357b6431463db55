-- ===== src/Tests/Probes.antt =====
-- Reports on the health of a node.
use mathlib.Core.List.{Memᴰ}
use opus8_cf.Base.{
  text_eq, trim, ◌≡◌, refl, [], ◌∷◌, some, none, codes, true, false, undefined, null, str, bool,
  num, whole, ok, first_where,
}
use opus8_cf.Nodes.{degraded, banned, get_node}
use opus8_cf.NodeHealth.Report.{
  clean_vantages, clean_error, bounded_latency, normalize_probe, normalize_probes, checked_at_of,
  in_window, short_id, Numbers, at, RawProbe, RawReport, Probe, Report, normalize_report,
}
use opus8_cf.NodeHealth.Probed.{IsProbed}
use opus8_cf.NodeHealth.State.{
  HealthRow, HealthDb, Standing, judge, standing_of, set_health, state_of,
}
use opus8_cf.NodeHealth.Batch.{unknown_ids, apply_report, answer, Answer, write_report, transitions}
use opus8_cf.NodeHealth.Normal.{normalize_report-IsReport, IsReport}
use opus8_cf.NodeHealth.Machine.{next, replay, is_out, is_banned, failure_lifts_ban, replay-is_out}
use opus8_cf.NodeHealth.Applied.{report_twice}
use opus8_cf.NodeHealth.Effect.{apply_report-reported}
use opus8_cf.Tests.Sample.{node_1}

abbrev numbers : Numbers
numbers = record { real_of = λ v. at 12 false false; number_of = λ v. whole 1000000 }

abbrev raw_probe : RawProbe
raw_probe = record {
  node_id = str (codes " n1 ");
  direct_ok = bool true;
  landing_ok = bool false;
  direct_latency_ms = num (whole 12);
  landing_latency_ms = null;
  direct_error = null;
  landing_error = undefined;
  vantages = null;
  vantages_json = [];
}

abbrev raw : RawReport
raw = record {
  run_id = str (codes "run-1");
  checked_at = undefined;
  results = some (raw_probe ∷ []);
}

abbrev probe : Probe
probe = record {
  node_id = codes "n1";
  direct_ok = true;
  landing_ok = false;
  direct_latency_ms = some 12;
  landing_latency_ms = none;
  direct_error = none;
  landing_error = none;
  vantages = none;
}

abbrev failed : Probe
failed = record probe { direct_ok = false }

abbrev good : Probe
good = record probe { landing_ok = true }

abbrev report : Report
report = record { run_id = codes "run-1"; checked_at = 1000000; results = probe ∷ [] }

abbrev before : HealthDb
before = record { nodes = node_1 ∷ []; states = []; runs = []; events = [] }

abbrev after : HealthDb
after = write_report before report 1000000

abbrev first_answer : Answer
first_answer = answer false report after.nodes (transitions before report.results)

normal_runs : normalize_report numbers raw 1000000 ≡ ok report
unfolding normalize_report short_id trim in_window checked_at_of normalize_probes normalize_probe
    bounded_latency clean_error clean_vantages
normal_runs = refl

apply_runs : apply_report numbers before raw 1000000 ≡ ok (after, first_answer)
unfolding apply_report normalize_report short_id trim in_window checked_at_of normalize_probes
    normalize_probe bounded_latency clean_error clean_vantages first_where unknown_ids get_node
    text_eq
apply_runs = refl

normalize_report-IsReport_example : IsReport numbers raw 1000000 report
normalize_report-IsReport_example = normalize_report-IsReport numbers raw 1000000 report normal_runs

report_twice_example :
    apply_report numbers after raw 1000000 ≡ ok (after, answer true report after.nodes [])
report_twice_example =
    report_twice numbers before after raw raw 1000000 1000000 first_answer report report apply_runs
      normal_runs normal_runs refl

apply_report-reported_example :
    (get_node after.nodes (codes "n1")
      ≡ some (set_health (judge (standing_of node_1 none) probe).0.health node_1))
    × (row : HealthRow) × (first_where (state_of (codes "n1")) after.states ≡ some row)
    × IsProbed report 1000000 node_1 none probe row
unfolding get_node first_where answer text_eq
apply_report-reported_example =
    apply_report-reported numbers before after raw 1000000 first_answer report probe node_1
      apply_runs normal_runs refl (Memᴰ.head refl) refl

abbrev out : Standing
out = record { health = banned; failures = 3; successes = 0 }

failure_lifts_ban_example :
    ((next out good).health ≡ banned) × ((next (next out good) failed).health ≡ degraded)
failure_lifts_ban_example = failure_lifts_ban out good failed refl refl refl refl

replay-is_out_example :
    is_banned (replay (failed ∷ good ∷ failed ∷ [])).health ≡ is_out (failed ∷ good ∷ failed ∷ [])
replay-is_out_example = replay-is_out (failed ∷ good ∷ failed ∷ [])
