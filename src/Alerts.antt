-- ===== src/Alerts.antt =====
-- packages/control-plane/src/alert-incidents.ts: the incidents that follow the current alerts.
pub mod Settled
pub mod Resolved
pub mod Quiet
use opus8_cf.Base.{
  ℕ, suc, ◌+◌, Bool, true, false, not, ◌&&◌, ◌||◌, List, [], ◌∷◌, ◌++◌, Option, none, some, ◌==◌,
  leb, if◌then◌else◌, length, any, map, keep, take, Text, codes, text_eq, includes, first_where,
  update_where,
}

-- `OperationAlertKind`, `OperationAlertSeverity` and `OperationAlert`.
pub data AlertKind : Type 0 where
  user node landing optimized_ip : AlertKind

pub data Severity : Type 0 where
  healthy warning danger : Severity

pub record Alert : Type 0 where
  pub kind : AlertKind
  pub severity : Severity
  pub id : Text
  pub title : Text
  pub detail : Text

pub data IncidentStatus : Type 0 where
  open_incident resolved : IncidentStatus

-- A row of `alert_incidents`, of which `AlertIncident` is the view.
pub record Incident : Type 0 where
  pub key : Text
  pub kind : AlertKind
  pub source_id : Text
  pub severity : Severity
  pub title : Text
  pub detail : Text
  pub status : IncidentStatus
  pub first_seen : ℕ
  pub last_changed : ℕ
  pub resolved_at : Option ℕ
  pub occurrence_count : ℕ

abbrev kind_name : AlertKind → Text
kind_name user = codes "user"
kind_name node = codes "node"
kind_name landing = codes "landing"
kind_name optimized_ip = codes "optimized_ip"

-- `incidentKey`.
unfoldable pub incident_key : Alert → Text
incident_key a = kind_name a.kind ++ (b':' ∷ a.id)

abbrev pub key_is : Text → Incident → Bool
key_is k r = text_eq r.key k

abbrev pub is_open : IncidentStatus → Bool
is_open open_incident = true
is_open resolved = false

abbrev pub same_severity : Severity → Severity → Bool
same_severity healthy healthy = true
same_severity warning warning = true
same_severity danger danger = true
same_severity _ _ = false

-- `new Map(…)`: a later alert of a key takes the place of an earlier one.
unfoldable pub put_alert : Text → Alert → List (Text × Alert) → List (Text × Alert)
put_alert k a [] = (k, a) ∷ []
put_alert k a (e ∷ es) =
    let rest = put_alert k a es in if text_eq e.0 k then (k, a) ∷ es else e ∷ rest

unfoldable pub put_alerts : List (Text × Alert) → List Alert → List (Text × Alert)
put_alerts m [] = m
put_alerts m (a ∷ alerts) = put_alerts (put_alert (incident_key a) a m) alerts

unfoldable pub current_alerts : List Alert → List (Text × Alert)
unfolding put_alerts
current_alerts alerts = put_alerts [] alerts

abbrev pub keys : List (Text × Alert) → List Text
keys m = map (λ e. e.0) m

-- `Number(row.occurrence_count) || 1`.
abbrev pub occurrences : Incident → ℕ
occurrences r = if r.occurrence_count == 0 then 1 else r.occurrence_count

unfoldable pub new_incident : Text → Alert → ℕ → Incident
new_incident k a now = record {
  key = k;
  kind = a.kind;
  source_id = a.id;
  severity = a.severity;
  title = a.title;
  detail = a.detail;
  status = open_incident;
  first_seen = now;
  last_changed = now;
  resolved_at = none;
  occurrence_count = 1;
}

-- The UPDATE for an incident whose state has changed.
unfoldable pub reopen : Alert → ℕ → ℕ → Incident → Incident
reopen a now count r = record r {
  severity = a.severity;
  title = a.title;
  detail = a.detail;
  status = open_incident;
  last_changed = now;
  resolved_at = none;
  occurrence_count = count;
}

unfoldable pub resolve : ℕ → Incident → Incident
resolve now r = record r { status = resolved; last_changed = now; resolved_at = some now }

-- The statements of the batch.
pub data Statement : Type 0 where
  insert_incident : Incident → Statement
  update_incident : Text → Alert → ℕ → Statement
  resolve_incident : Text → Statement

abbrev pub stale_row : Text → Incident → Bool
stale_row k r = key_is k r && is_open r.status

unfoldable pub run_statement : ℕ → Statement → List Incident → List Incident
run_statement now (insert_incident row) t = if any (key_is row.key) t then t else row ∷ t
run_statement now (update_incident k a count) t = update_where (key_is k) (reopen a now count) t
run_statement now (resolve_incident k) t = update_where (stale_row k) (resolve now) t

unfoldable pub run_statements : ℕ → List Statement → List Incident → List Incident
run_statements now [] t = t
run_statements now (s ∷ ss) t = run_statements now ss (run_statement now s t)

abbrev pub state_changed : Incident → Alert → Bool
state_changed r a =
    not (is_open r.status)
    || (not (same_severity r.severity a.severity) || not (text_eq r.title a.title))

-- The statement for one current alert, if it needs one, by the row of its key.
unfoldable pub open_statement : ℕ → Text → Alert → Option Incident → List Statement
unfolding new_incident
open_statement now k a none = insert_incident (new_incident k a now) ∷ []
open_statement now k a (some r) =
    if state_changed r a then update_incident k a (occurrences r + 1) ∷ [] else []

-- The loop over the current alerts; the rows are those read before the batch.
unfoldable pub open_statements : ℕ → List Incident → List (Text × Alert) → List Statement
unfolding open_statement
open_statements now old [] = []
open_statements now old (e ∷ es) =
    open_statement now e.0 e.1 (first_where (key_is e.0) old) ++ open_statements now old es

abbrev pub is_stale : List Text → Incident → Bool
is_stale ks r = is_open r.status && not (includes ks r.key)

-- The loop over the incidents that are open and no longer current.
unfoldable pub resolve_statements : List Text → List Incident → List Statement
resolve_statements ks old = map (λ r. resolve_incident r.key) (keep (is_stale ks) old)

unfoldable pub plan : ℕ → List Incident → List (Text × Alert) → List Statement
plan now old m = open_statements now old m ++ resolve_statements (keys m) old

-- `reconcileAlertIncidents`: the table after it and the number of writes.
unfoldable pub reconcile : List Incident → List Alert → ℕ → List Incident × ℕ
unfolding plan
reconcile old alerts now =
    let statements = plan now old (current_alerts alerts) in
    (run_statements now statements old, length statements)

-- `ORDER BY CASE status WHEN 'open' THEN 0 ELSE 1 END, last_changed DESC`.
abbrev stands_before : Incident → Incident → Bool
stands_before r s =
    if is_open r.status
    then (if is_open s.status then leb s.last_changed r.last_changed else true)
    else (if is_open s.status then false else leb s.last_changed r.last_changed)

insert_sorted : Incident → List Incident → List Incident
insert_sorted r [] = r ∷ []
insert_sorted r (s ∷ t) =
    let rest = insert_sorted r t in if stands_before r s then r ∷ s ∷ t else s ∷ rest

sorted : List Incident → List Incident
unfolding insert_sorted
sorted [] = []
sorted (r ∷ t) = insert_sorted r (sorted t)

abbrev shown : Incident → Incident
shown r = record r { occurrence_count = occurrences r }

-- `listAlertIncidents`; no status asks for all.
unfoldable pub list_alert_incidents : List Incident → Option IncidentStatus → ℕ → List Incident
unfolding sorted
list_alert_incidents t none limit = map shown (take limit (sorted t))
list_alert_incidents t (some open_incident) limit =
    map shown (take limit (sorted (keep (λ r. is_open r.status) t)))
list_alert_incidents t (some resolved) limit =
    map shown (take limit (sorted (keep (λ r. not (is_open r.status)) t)))
