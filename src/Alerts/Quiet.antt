-- ===== src/Alerts/Quiet.antt =====
-- A second run of `reconcileAlertIncidents` (packages/control-plane/src/alert-incidents.ts).
use opus8_cf.Base.{
  ℕ, ◌+◌, ◌≡◌, refl, ◌∙◌, sym, Bool, true, not, ◌&&◌, inl, inr, List, [], ◌∷◌, Option, none, some,
  arith, any, map, keep, All, Text, text_eq, text_eq_iff, text_eq_refl, includes, first_where,
  update_where, Bool-cases,
}
use opus8_cf.Enrollment.Distinct.{IsDistinct}
use opus8_cf.Alerts.{
  Alert, Incident, Severity, healthy, warning, danger, resolve_incident, key_is, current_alerts,
  keys, new_incident, reopen, resolve, occurrences, stale_row, run_statement, run_statements,
  state_changed, same_severity, open_statement, open_statements, is_stale, resolve_statements,
  reconcile,
}
use opus8_cf.Alerts.Settled.{alert_at, settled, run-append}
use opus8_cf.Alerts.Resolved.{alert_at-includes, row_keys, current-IsDistinct, reconcile-settled}

same_severity_refl : (s : Severity) → same_severity s s ≡ true
same_severity_refl healthy = refl
same_severity_refl warning = refl
same_severity_refl danger = refl

-- A row that is settled with its alert needs no statement.
settled_quiet :
    (now later : ℕ) (k : Text) (a : Alert) (r : Option Incident)
    → open_statement later k a (settled now k (some a) r) ≡ []
unfolding open_statement new_incident reopen
settled_quiet now later k a none = rw (same_severity_refl a.severity, text_eq_refl a.title) refl
settled_quiet now later k a (some r) = elim (Bool-cases (state_changed r a)) [
  | inl changed ↦ rw (changed, same_severity_refl a.severity, text_eq_refl a.title) refl
  | inr same ↦ rw (same, same) refl
]

opens_quiet :
    (later : ℕ) (t : List Incident) (es : List (Text × Alert))
    → IsDistinct (keys es)
    → ((k : Text) (a : Alert)
        → alert_at k es ≡ some a
        → open_statement later k a (first_where (key_is k) t) ≡ [])
    → open_statements later t es ≡ []
unfolding open_statements
opens_quiet later t [] d h = refl
opens_quiet later t (e ∷ es) (new, d) h = rw (h e.0 e.1 (rw (text_eq_refl e.0) refl)) (
    opens_quiet later t es d
      λ k a f. h k a (ground (arith, f, new, text_eq_iff e.0 k, alert_at-includes k es)))

reopened :
    (now : ℕ) (ks : List Text) (k : Text) (a : Alert) (count : ℕ) (t : List Incident)
    → includes ks k ≡ true
    → keep (is_stale ks) (update_where (key_is k) (reopen a now count) t) ≡ keep (is_stale ks) t
unfolding update_where reopen
reopened now ks k a count [] h = refl
reopened now ks k a count (x ∷ t) h = elim (Bool-cases (text_eq x.key k)) [
  | inl same ↦
      let current : includes ks x.key ≡ true = rw ((text_eq_iff x.key k).0 same) h in
      ground (arith, reopened now ks k a count t h)
  | inr other ↦ ground (arith, reopened now ks k a count t h)
]

-- The statements of current alerts leave the rows that are stale.
open_stale :
    (now : ℕ) (ks : List Text) (k : Text) (a : Alert) (o : Option Incident) (t : List Incident)
    → includes ks k ≡ true
    → keep (is_stale ks) (run_statements now (open_statement now k a o) t) ≡ keep (is_stale ks) t
unfolding open_statement run_statements run_statement new_incident
open_stale now ks k a none t h = elim (Bool-cases (any (key_is k) t)) [
  | inl there ↦ rw there refl
  | inr missing ↦ rw (missing, h) refl
]
open_stale now ks k a (some r) t h = elim (Bool-cases (state_changed r a)) [
  | inl changed ↦ rw changed (reopened now ks k a (occurrences r + 1) t h)
  | inr same ↦ rw same refl
]

opens_stale :
    (now : ℕ) (ks : List Text) (old : List Incident) (es : List (Text × Alert)) (t : List Incident)
    → All (λ k. includes ks k ≡ true) (keys es)
    → keep (is_stale ks) (run_statements now (open_statements now old es) t) ≡ keep (is_stale ks) t
unfolding open_statements run_statements
opens_stale now ks old [] t h = refl
opens_stale now ks old (e ∷ es) t h =
    rw
      (run-append now (open_statement now e.0 e.1 (first_where (key_is e.0) old))
        (open_statements now old es) t)
      (opens_stale now ks old es _ h.1 ∙ open_stale now ks e.0 e.1 _ t h.0)

-- Every member of a list is in it.
includes_more :
    (x : Text) (ks xs : List Text)
    → All (λ k. includes ks k ≡ true) xs
    → All (λ k. includes (x ∷ ks) k ≡ true) xs
includes_more x ks [] h = tt
includes_more x ks (y ∷ xs) h = (ground (arith, h.0), includes_more x ks xs h.1)

includes_self : (ks : List Text) → All (λ k. includes ks k ≡ true) ks
includes_self [] = tt
includes_self (k ∷ ks) = (rw (text_eq_refl k) refl, includes_more k ks ks (includes_self ks))

-- The stale rows that no resolution of a list concerns.
abbrev left_over : List Text → List Incident → Incident → Bool
left_over ks rs r = is_stale ks r && not (includes (row_keys rs) r.key)

resolved_row :
    (now : ℕ) (ks : List Text) (x : Incident) (rs t : List Incident)
    → keep (left_over ks rs) (update_where (stale_row x.key) (resolve now) t)
      ≡ keep (left_over ks (x ∷ rs)) t
unfolding update_where resolve
resolved_row now ks x rs [] = refl
resolved_row now ks x rs (r ∷ t) =
    ground (arith, resolved_row now ks x rs t, text_eq_iff r.key x.key, text_eq_iff x.key r.key)

resolves_stale :
    (now : ℕ) (ks : List Text) (rs t : List Incident)
    → keep (left_over ks []) (run_statements now (map (λ r. resolve_incident r.key) rs) t)
      ≡ keep (left_over ks rs) t
unfolding run_statements run_statement
resolves_stale now ks [] t = refl
resolves_stale now ks (x ∷ rs) t =
    resolves_stale now ks rs (update_where (stale_row x.key) (resolve now) t)
    ∙ resolved_row now ks x rs t

nothing_left :
    (ks : List Text) (rs t : List Incident)
    → All (λ k. includes (row_keys rs) k ≡ true) (row_keys (keep (is_stale ks) t))
    → keep (left_over ks rs) t ≡ []
nothing_left ks rs [] h = refl
nothing_left ks rs (x ∷ t) h = elim (Bool-cases (is_stale ks x)) [
  | inl stale ↦
      let both : All (λ k. includes (row_keys rs) k ≡ true)
          (x.key ∷ row_keys (keep (is_stale ks) t)) =
        rw stale at h in
      rw (stale, both.0) (nothing_left ks rs t both.1)
  | inr fresh ↦ rw fresh (nothing_left ks rs t (rw fresh at h))
]

left_over_none :
    (ks : List Text) (t : List Incident) → keep (left_over ks []) t ≡ keep (is_stale ks) t
left_over_none ks [] = refl
left_over_none ks (x ∷ t) = ground (arith, left_over_none ks t)

-- After a reconciliation no open row is without an alert.
reconcile-no_stale :
    (old : List Incident) (alerts : List Alert) (now : ℕ)
    → keep (is_stale (keys (current_alerts alerts))) (reconcile old alerts now).0 ≡ []
unfolding reconcile resolve_statements
reconcile-no_stale old alerts now =
    let m = current_alerts alerts in
    let ks = keys m in
    let opened = run_statements now (open_statements now old m) old in
    let rs = keep (is_stale ks) old in
    let same : keep (is_stale ks) opened ≡ rs = opens_stale now ks old m old (includes_self ks) in
    rw (run-append now (open_statements now old m) (resolve_statements ks old) old) (
      sym (left_over_none ks (run_statements now (map (λ r. resolve_incident r.key) rs) opened))
      ∙ resolves_stale now ks rs opened
      ∙ nothing_left ks rs opened (rw same (includes_self (row_keys rs))))

-- Reconciling once more with the same alerts, whenever it happens, writes nothing and leaves the
-- table as it is.
pub reconcile_again :
    (old : List Incident) (alerts : List Alert) (now later : ℕ)
    → let t = (reconcile old alerts now).0 in reconcile t alerts later ≡ (t, 0)
unfolding reconcile resolve_statements run_statements
reconcile_again old alerts now later =
    let m = current_alerts alerts in
    let t = (reconcile old alerts now).0 in
    let quiet : open_statements later t m ≡ [] =
      opens_quiet later t m (current-IsDistinct alerts) λ k a f.
        rw (reconcile-settled old alerts now k, f)
          (settled_quiet now later k a (first_where (key_is k) old)) in
    rw (quiet, reconcile-no_stale old alerts now) refl
