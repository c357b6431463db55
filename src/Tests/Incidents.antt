-- ===== src/Tests/Incidents.antt =====
-- Alerts that come and go.
use opus8_cf.Base.{◌≡◌, refl, List, [], ◌∷◌, codes, includes, first_where}
use opus8_cf.Alerts.{
  run_statement, put_alert, run_statements, resolve_statements, open_statements, Alert, Incident,
  AlertKind, danger, key_is, keys, current_alerts, reconcile,
}
use opus8_cf.Alerts.Resolved.{open_row, reconcile-open_row}
use opus8_cf.Alerts.Quiet.{reconcile_again}

abbrev down : Alert
down = record {
  kind = AlertKind.node;
  severity = danger;
  id = codes "n1";
  title = codes "down";
  detail = codes "no answer";
}

abbrev table : List Incident
table = (reconcile [] (down ∷ []) 10).0

reconcile_counts : (reconcile table [] 20).1 ≡ 1
unfolding reconcile open_statements current_alerts resolve_statements run_statements put_alert
    first_where run_statement
reconcile_counts = refl

reconcile-open_row_example :
    open_row (first_where (key_is (codes "node:n1")) (reconcile table (down ∷ []) 20).0)
    ≡ includes (keys (current_alerts (down ∷ []))) (codes "node:n1")
reconcile-open_row_example = reconcile-open_row table (down ∷ []) 20 (codes "node:n1")

reconcile_again_example :
    reconcile (reconcile [] (down ∷ []) 10).0 (down ∷ []) 30 ≡ ((reconcile [] (down ∷ []) 10).0, 0)
reconcile_again_example = reconcile_again [] (down ∷ []) 10 30
