-- ===== src/Alerts/Settled.antt =====
-- The row of one key over `reconcileAlertIncidents` (packages/control-plane/src/alert-
-- incidents.ts).
use opus8_cf.Base.{
  ℕ, ◌+◌, ◌≡◌, refl, ◌∙◌, true, false, inl, inr, List, [], ◌∷◌, ◌++◌, Option, none, some, arith,
  if◌then◌else◌, any, Text, text_eq, text_eq_iff, text_eq_refl, includes, first_where,
  first_where-holds, first-update, first-update_other, Bool-cases, subst,
}
use opus8_cf.Enrollment.Distinct.{IsDistinct}
use opus8_cf.Alerts.{
  Alert, Incident, Statement, key_is, is_open, keys, new_incident, reopen, resolve, occurrences,
  run_statement, run_statements, state_changed, open_statement, open_statements,
}

-- The alert of a key.
abbrev pub alert_at : Text → List (Text × Alert) → Option Alert
alert_at k [] = none
alert_at k (e ∷ es) = if text_eq e.0 k then some e.1 else alert_at k es

-- The row of a key after a reconciliation, by its alert and its row before.
abbrev pub settled : ℕ → Text → Option Alert → Option Incident → Option Incident
settled now k (some a) none = some (new_incident k a now)
settled now k (some a) (some r) =
    some (if state_changed r a then reopen a now (occurrences r + 1) r else r)
settled now k none none = none
settled now k none (some r) = some (if is_open r.status then resolve now r else r)

pub run-append :
    (now : ℕ) (xs ys : List Statement) (t : List Incident)
    → run_statements now (xs ++ ys) t ≡ run_statements now ys (run_statements now xs t)
unfolding run_statements
run-append now [] ys t = refl
run-append now (x ∷ xs) ys t = run-append now xs ys (run_statement now x t)

apart : (r : Incident) (j k : Text) → text_eq j k ≡ false → key_is k r ≡ true → key_is j r ≡ false
apart r j k h e = ground (arith, text_eq_iff r.key j, text_eq_iff r.key k, text_eq_iff j k)

open_other :
    (now : ℕ) (j k : Text) (a : Alert) (o : Option Incident) (t : List Incident)
    → text_eq j k ≡ false
    → first_where (key_is k) (run_statements now (open_statement now j a o) t)
      ≡ first_where (key_is k) t
unfolding open_statement run_statements run_statement first_where new_incident reopen
open_other now j k a none t h = elim (Bool-cases (any (key_is j) t)) [
  | inl there ↦ rw there refl
  | inr missing ↦ rw (missing, h) refl
]
open_other now j k a (some r) t h = elim (Bool-cases (state_changed r a)) [
  | inl changed ↦ rw changed (
      first-update_other (key_is j) (key_is k) (reopen a now (occurrences r + 1)) t
        (λ x. ground arith) (λ x e. apart x j k h e))
  | inr same ↦ rw same refl
]

any-none :
    (k : Text) (t : List Incident) → first_where (key_is k) t ≡ none → any (key_is k) t ≡ false
unfolding first_where
any-none k [] h = refl
any-none k (r ∷ t) h = ground (arith, any-none k t)

open_here :
    (now : ℕ) (k : Text) (a : Alert) (o : Option Incident) (t : List Incident)
    → first_where (key_is k) t ≡ o
    → first_where (key_is k) (run_statements now (open_statement now k a o) t)
      ≡ settled now k (some a) o
unfolding open_statement run_statements run_statement first_where new_incident reopen
open_here now k a none t h = rw (any-none k t h, text_eq_refl k) refl
open_here now k a (some r) t h = elim (Bool-cases (state_changed r a)) [
  | inl changed ↦ rw changed (
      rw (first_where-holds (key_is k) t r h) at (
        first-update (key_is k) (key_is k) (reopen a now (occurrences r + 1)) t r
          (λ x. ground arith) h))
  | inr same ↦ rw same h
]

alert_at-none :
    (k : Text) (es : List (Text × Alert)) → includes (keys es) k ≡ false → alert_at k es ≡ none
alert_at-none k [] h = refl
alert_at-none k (e ∷ es) h = ground (arith, alert_at-none k es)

-- What the statements of the current alerts do to the row of a key.
abbrev pub opened : ℕ → Text → Option Alert → Option Incident → Option Incident
opened now k none o = o
opened now k (some a) o = settled now k (some a) o

opens_skip :
    (now : ℕ) (old : List Incident) (k : Text) (es : List (Text × Alert)) (t : List Incident)
    → includes (keys es) k ≡ false
    → first_where (key_is k) (run_statements now (open_statements now old es) t)
      ≡ first_where (key_is k) t
unfolding open_statements run_statements
opens_skip now old k [] t h = refl
opens_skip now old k (e ∷ es) t h =
    rw
      (run-append now (open_statement now e.0 e.1 (first_where (key_is e.0) old))
        (open_statements now old es) t)
      (opens_skip now old k es _ (ground arith) ∙ open_other now e.0 k e.1 _ t (ground arith))

opens_first :
    (now : ℕ) (old : List Incident) (e : Text × Alert) (es : List (Text × Alert))
    (t : List Incident)
    → includes (keys es) e.0 ≡ false
    → first_where (key_is e.0) t ≡ first_where (key_is e.0) old
    → first_where (key_is e.0) (run_statements now (open_statements now old (e ∷ es)) t)
      ≡ settled now e.0 (some e.1) (first_where (key_is e.0) old)
unfolding open_statements
opens_first now old e es t new h =
    rw
      (run-append now (open_statement now e.0 e.1 (first_where (key_is e.0) old))
        (open_statements now old es) t)
      (opens_skip now old e.0 es _ new ∙ open_here now e.0 e.1 _ t h)

pub opens-lookup :
    (now : ℕ) (old : List Incident) (k : Text) (es : List (Text × Alert)) (t : List Incident)
    → IsDistinct (keys es)
    → first_where (key_is k) t ≡ first_where (key_is k) old
    → first_where (key_is k) (run_statements now (open_statements now old es) t)
      ≡ opened now k (alert_at k es) (first_where (key_is k) old)
unfolding open_statements run_statements
opens-lookup now old k [] t d h = h
opens-lookup now old k (e ∷ es) t (new, d) h = elim (Bool-cases (text_eq e.0 k)) [
  | inl same ↦
      let named : e.0 ≡ k = (text_eq_iff e.0 k).0 same in
      rw same (
        subst
          (λ (j : Text).
            first_where (key_is j) (run_statements now (open_statements now old (e ∷ es)) t)
            ≡ settled now j (some e.1) (first_where (key_is j) old))
          named (opens_first now old e es t new (rw named h)))
  | inr other ↦
      rw
        (
          run-append now (open_statement now e.0 e.1 (first_where (key_is e.0) old))
              (open_statements now old es) t,
          other,
        )
        (opens-lookup now old k es _ d (open_other now e.0 k e.1 _ t other ∙ h))
]
