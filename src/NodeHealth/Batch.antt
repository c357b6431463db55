-- ===== src/NodeHealth/Batch.antt =====
-- The batch that `applyNodeHealthReport` of packages/control-plane/src/node-health.ts sends, and its answer.
use opus8_cf.Base.{
  ℕ, ◌+◌, Bool, true, false, not, ◌&&◌, List, [], ◌∷◌, none, some, ltb, ◌==◌, if◌then◌else◌,
  is_some, length, any, map, keep, Text, text_eq, ok, err, ◌>>=◌, first_where, update_where,
  delete_where, upsert,
}
use opus8_cf.Nodes.{Node, Health, healthy, degraded, banned, unknown, has_id, get_node}
use opus8_cf.NodeHealth.Report.{
  Numbers, RawReport, Probe, Report, Checked, unknown_nodes, normalize_report,
}
use opus8_cf.NodeHealth.State.{
  event_retention_ms, Reason, judge, RunRow, EventRow, HealthDb, state_of, run_is, standing_of,
  event_row, health_row, set_health,
}

-- The statements for one result. `old` is the database that was read before the batch.
unfoldable pub write_probe : HealthDb → Report → ℕ → Probe → HealthDb → HealthDb
unfolding event_row
write_probe old report now p db = elim (get_node old.nodes p.node_id) [
  | none ↦ db
  | some n ↦
      let before = first_where (state_of p.node_id) old.states in
      let row = health_row report now n before p in
      record db {
        events = event_row report p ∷ db.events;
        states = upsert (state_of p.node_id) (λ _. row) row db.states;
        nodes =
            update_where (has_id p.node_id) (set_health (judge (standing_of n before) p).0.health)
              db.nodes;
      }
]

unfoldable pub write_probes : HealthDb → Report → ℕ → List Probe → HealthDb → HealthDb
write_probes old report now [] db = db
write_probes old report now (p ∷ ps) db =
    write_probes old report now ps (write_probe old report now p db)

abbrev expired_run : ℕ → RunRow → Bool
expired_run checked_at r = ltb (r.checked_at + event_retention_ms) checked_at

abbrev expired_event : ℕ → EventRow → Bool
expired_event checked_at r = ltb (r.checked_at + event_retention_ms) checked_at

-- The two DELETEs of the retention; the events of a deleted run go with it (`ON DELETE CASCADE`).
unfoldable pub drop_expired : ℕ → HealthDb → HealthDb
drop_expired checked_at db = record db {
  events =
      delete_where (λ e. any (λ r. expired_run checked_at r && text_eq r.run_id e.run_id) db.runs)
        (delete_where (expired_event checked_at) db.events);
  runs = delete_where (expired_run checked_at) db.runs;
}

pub record Transition : Type 0 where
  pub node_id : Text
  pub before : Health
  pub next : Health
  pub reason : Reason

abbrev pub same_health : Health → Health → Bool
same_health healthy healthy = true
same_health degraded degraded = true
same_health banned banned = true
same_health unknown unknown = true
same_health _ _ = false

-- The transitions that the answer lists.
unfoldable pub transitions : HealthDb → List Probe → List Transition
transitions old [] = []
transitions old (p ∷ ps) =
    let rest = transitions old ps in
    elim (get_node old.nodes p.node_id) [
      | none ↦ rest
      | some n ↦
          let (next, reason) =
            judge (standing_of n (first_where (state_of p.node_id) old.states)) p in
          if same_health n.health next.health
          then rest
          else record { node_id = n.id; before = n.health; next = next.health; reason = reason }
            ∷ rest
    ]

-- The numbers of nodes that `summary` gives.
pub record Summary : Type 0 where
  pub total : ℕ
  pub healthy_nodes : ℕ
  pub degraded_nodes : ℕ
  pub banned_nodes : ℕ
  pub disabled_nodes : ℕ

unfoldable pub summary : List Node → Summary
summary nodes = record {
  total = length nodes;
  healthy_nodes = length (keep (λ n. (n.enabled == 1) && same_health n.health healthy) nodes);
  degraded_nodes = length (keep (λ n. (n.enabled == 1) && same_health n.health degraded) nodes);
  banned_nodes = length (keep (λ n. (n.enabled == 1) && same_health n.health banned) nodes);
  disabled_nodes = length (keep (λ n. not (n.enabled == 1)) nodes);
}

pub record Answer : Type 0 where
  pub idempotent : Bool
  pub run_id : Text
  pub summary : Summary
  pub transitions : List Transition

unfoldable pub unknown_ids : List Node → List Probe → List Text
unknown_ids nodes ps =
    map (λ p. p.node_id) (keep (λ p. not (is_some (get_node nodes p.node_id))) ps)

abbrev is_empty : List Text → Bool
is_empty [] = true
is_empty (x ∷ xs) = false

-- The batch of a new report.
unfoldable pub write_report : HealthDb → Report → ℕ → HealthDb
unfolding drop_expired
write_report db report now =
    let run : RunRow = record {
      run_id = report.run_id;
      checked_at = report.checked_at;
      received_at = now;
    } in
    drop_expired report.checked_at
      (write_probes db report now report.results (record db { runs = run ∷ db.runs }))

unfoldable pub answer : Bool → Report → List Node → List Transition → Answer
answer idempotent report nodes changes = record {
  idempotent = idempotent;
  run_id = report.run_id;
  summary = summary nodes;
  transitions = changes;
}

-- What becomes of a report that has been normalised.
unfoldable pub take_report : HealthDb → Report → ℕ → Checked (HealthDb × Answer)
unfolding answer
take_report db report now =
    let missing = unknown_ids db.nodes report.results in
    let db' = write_report db report now in
    if is_some (first_where (run_is report.run_id) db.runs)
    then ok (db, answer true report db.nodes [])
    else if is_empty missing
    then ok (db', answer false report db'.nodes (transitions db report.results))
    else err (unknown_nodes missing)

-- `applyNodeHealthReport`. The clock is read once.
unfoldable pub apply_report : Numbers → HealthDb → RawReport → ℕ → Checked (HealthDb × Answer)
unfolding take_report
apply_report rt db input now = normalize_report rt input now >>= λ report. take_report db report now
