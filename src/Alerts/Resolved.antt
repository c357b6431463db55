-- ===== src/Alerts/Resolved.antt =====
-- The row of one key over the resolutions of `reconcileAlertIncidents`, and over the whole of it (packages/control-plane/src/alert-incidents.ts).
use opus8_cf.Base.{
  ℕ, ◌≡◌, refl, ap, ◌∙◌, sym, Bool, true, false, ◌&&◌, ◌||◌, inl, inr, List, [], ◌∷◌, Option, none,
  some, arith, if◌then◌else◌, map, keep, Text, text_eq, text_eq_iff, includes, first_where, is_some,
  update_where, Bool-cases, subst,
}
use opus8_cf.Enrollment.Distinct.{IsDistinct}
use opus8_cf.Alerts.{
  Alert, Incident, resolve_incident, key_is, is_open, put_alert, put_alerts, current_alerts,
  incident_key, keys, new_incident, reopen, resolve, stale_row, run_statement, run_statements,
  open_statements, is_stale, resolve_statements, reconcile,
}
use opus8_cf.Alerts.Settled.{opens-lookup, alert_at, settled, run-append, opened}

-- The UPDATEs that resolve rows, seen from one key.
abbrev pub row_keys : List Incident → List Text
row_keys rs = map (λ r. r.key) rs

abbrev closed : ℕ → Bool → Option Incident → Option Incident
closed now b none = none
closed now b (some r) = some (if b && is_open r.status then resolve now r else r)

resolve-lookup :
    (now : ℕ) (k j : Text) (t : List Incident)
    → first_where (key_is k) (update_where (stale_row j) (resolve now) t)
      ≡ closed now (text_eq j k) (first_where (key_is k) t)
unfolding first_where update_where resolve
resolve-lookup now k j [] = refl
resolve-lookup now k j (r ∷ t) =
    ground
      (arith, resolve-lookup now k j t, text_eq_iff r.key j, text_eq_iff r.key k, text_eq_iff j k)

closed_twice :
    (now : ℕ) (b c : Bool) (o : Option Incident)
    → closed now b (closed now c o) ≡ closed now (c || b) o
unfolding resolve
closed_twice now b c none = refl
closed_twice now b c (some r) = ground arith

closed_none : (now : ℕ) (o : Option Incident) → closed now false o ≡ o
closed_none now none = refl
closed_none now (some r) = refl

pub resolves-lookup :
    (now : ℕ) (k : Text) (rs t : List Incident)
    → first_where (key_is k) (run_statements now (map (λ r. resolve_incident r.key) rs) t)
      ≡ closed now (includes (row_keys rs) k) (first_where (key_is k) t)
unfolding run_statements run_statement
resolves-lookup now k [] t = sym (closed_none now (first_where (key_is k) t))
resolves-lookup now k (r ∷ rs) t =
    resolves-lookup now k rs (update_where (stale_row r.key) (resolve now) t)
    ∙ ap (closed now (includes (row_keys rs) k)) (resolve-lookup now k r.key t)
    ∙ closed_twice now (includes (row_keys rs) k) (text_eq r.key k) (first_where (key_is k) t)

current_not_stale :
    (ks : List Text) (k : Text) (t : List Incident)
    → includes ks k ≡ true
    → includes (row_keys (keep (is_stale ks) t)) k ≡ false
current_not_stale ks k [] h = refl
current_not_stale ks k (r ∷ t) h = elim (Bool-cases (text_eq r.key k)) [
  | inl same ↦
      let named : r.key ≡ k = (text_eq_iff r.key k).0 same in
      rw (named, h) (ground (arith, current_not_stale ks k t))
  | inr other ↦ ground (arith, current_not_stale ks k t)
]

open_is_stale :
    (ks : List Text) (k : Text) (t : List Incident) (r : Incident)
    → includes ks k ≡ false
    → first_where (key_is k) t ≡ some r
    → is_open r.status ≡ true
    → includes (row_keys (keep (is_stale ks) t)) k ≡ true
unfolding first_where
open_is_stale ks k [] r h e o = cc
open_is_stale ks k (x ∷ t) r h e o = elim (Bool-cases (text_eq x.key k)) [
  | inl same ↦
      let named : x.key ≡ k = (text_eq_iff x.key k).0 same in
      let here : x ≡ r = ground arith in
      let open_here : is_open x.status ≡ true = rw here o in
      let gone : includes ks x.key ≡ false = rw named h in rw (open_here, gone, same) refl
  | inr other ↦ ground (arith, open_is_stale ks k t r)
]

put-includes :
    (k j : Text) (a : Alert) (m : List (Text × Alert))
    → includes (keys (put_alert k a m)) j ≡ includes (keys m) j || text_eq k j
unfolding put_alert
put-includes k j a [] = ground arith
put-includes k j a (e ∷ es) = elim (Bool-cases (text_eq e.0 k)) [
  | inl same ↦ ground (arith, text_eq_iff e.0 k)
  | inr other ↦ ground (arith, put-includes k j a es)
]

put-IsDistinct :
    (k : Text) (a : Alert) (m : List (Text × Alert))
    → IsDistinct (keys m)
    → IsDistinct (keys (put_alert k a m))
unfolding put_alert
put-IsDistinct k a [] d = (refl, tt)
put-IsDistinct k a (e ∷ es) (new, d) = elim (Bool-cases (text_eq e.0 k)) [
  | inl same ↦
      let named : e.0 ≡ k = (text_eq_iff e.0 k).0 same in
      rw same (subst (λ (j : Text). includes (keys es) j ≡ false) named new, d)
  | inr other ↦ rw other (
    ground (arith, put-includes k e.0 a es, text_eq_iff e.0 k, text_eq_iff k e.0),
    put-IsDistinct k a es d,
  )
]

puts-IsDistinct :
    (m : List (Text × Alert)) (alerts : List Alert)
    → IsDistinct (keys m)
    → IsDistinct (keys (put_alerts m alerts))
unfolding put_alerts
puts-IsDistinct m [] d = d
puts-IsDistinct m (a ∷ alerts) d =
    puts-IsDistinct (put_alert (incident_key a) a m) alerts (put-IsDistinct (incident_key a) a m d)

pub current-IsDistinct : (alerts : List Alert) → IsDistinct (keys (current_alerts alerts))
unfolding current_alerts
current-IsDistinct alerts = puts-IsDistinct [] alerts tt

pub alert_at-includes :
    (k : Text) (es : List (Text × Alert)) → includes (keys es) k ≡ is_some (alert_at k es)
alert_at-includes k [] = refl
alert_at-includes k (e ∷ es) = ground (arith, alert_at-includes k es)

after_both :
    (now : ℕ) (old : List Incident) (k : Text) (m : List (Text × Alert)) (o : Option Alert)
    (r : Option Incident)
    → alert_at k m ≡ o
    → first_where (key_is k) old ≡ r
    → closed now (includes (row_keys (keep (is_stale (keys m)) old)) k) (opened now k o r)
      ≡ settled now k o r
unfolding resolve
after_both now old k m (some a) r e f =
    rw (current_not_stale (keys m) k old (alert_at-includes k m ∙ ap is_some e)) (closed_none now _)
after_both now old k m none none e f = refl
after_both now old k m none (some r) e f = elim (Bool-cases (is_open r.status)) [
  | inl still ↦
      rw (still, open_is_stale (keys m) k old r (alert_at-includes k m ∙ ap is_some e) f still) refl
  | inr shut ↦ rw shut (ground arith)
]

-- After a reconciliation the row of a key is what its alert and its row before say: new where there
-- was none, unchanged while status, severity and title stay, opened again with one more occurrence
-- where they do not, and resolved where an open one has no alert.
pub reconcile-settled :
    (old : List Incident) (alerts : List Alert) (now : ℕ) (k : Text)
    → first_where (key_is k) (reconcile old alerts now).0
      ≡ settled now k (alert_at k (current_alerts alerts)) (first_where (key_is k) old)
unfolding reconcile resolve_statements
reconcile-settled old alerts now k =
    let m = current_alerts alerts in
    rw (run-append now (open_statements now old m) (resolve_statements (keys m) old) old) (
      resolves-lookup now k (keep (is_stale (keys m)) old)
        (run_statements now (open_statements now old m) old)
      ∙ ap (closed now (includes (row_keys (keep (is_stale (keys m)) old)) k))
          (opens-lookup now old k m old (current-IsDistinct alerts) refl)
      ∙ after_both now old k m _ _ refl refl)

abbrev pub open_row : Option Incident → Bool
open_row none = false
open_row (some r) = is_open r.status

settled-open :
    (now : ℕ) (k : Text) (o : Option Alert) (r : Option Incident)
    → open_row (settled now k o r) ≡ is_some o
unfolding new_incident reopen resolve
settled-open now k none none = refl
settled-open now k none (some r) = ground arith
settled-open now k (some a) none = refl
settled-open now k (some a) (some r) = ground arith

-- After a reconciliation exactly the keys of the current alerts have an open incident.
pub reconcile-open_row :
    (old : List Incident) (alerts : List Alert) (now : ℕ) (k : Text)
    → open_row (first_where (key_is k) (reconcile old alerts now).0)
      ≡ includes (keys (current_alerts alerts)) k
reconcile-open_row old alerts now k =
    ap open_row (reconcile-settled old alerts now k)
    ∙ settled-open now k _ _
    ∙ sym (alert_at-includes k (current_alerts alerts))
