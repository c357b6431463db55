-- ===== src/Enrollment/Rotation.antt =====
-- The candidates of a node after `activateNodeEnrollment` (packages/control-plane/src/node-
-- enrollment.ts).
use opus8_cf.Base.{
  ℕ, ◌≡◌, refl, ap, ◌∙◌, sym, Bool, true, false, ◌||◌, ◌∷◌, Option, none, some, arith, Text,
  text_eq_refl, includes, ok, Result-cases, first_where, count_where, first-upsert, merged,
  Option-cases, inl, inr,
}
use mathlib.Core.List.{head?}
use opus8_cf.Nodes.{NodeReport}
use opus8_cf.Enrollment.Fields.{Runtime}
use opus8_cf.Enrollment.Tables.{
  isolated, Credential, Enrollment, NodeDb, Roots, Slot, root_candidates, of_node,
  derive_node_secret, migrate,
}
use opus8_cf.Enrollment.Candidates.{
  isolated_current, derived, isolated_values, stored_values, deduplicate_from,
  node_auth_secret_candidates, legacy_values,
}
use opus8_cf.Enrollment.Distinct.{
  secrets, candidates-includes, includes-append_left, includes-append_right,
}
use opus8_cf.Enrollment.Activate.{
  RegisterRequest, activatable, check_activation, new_credential, replace_credential,
  commit_activation, issued_with_id, activate_node_enrollment,
}

-- An activation that succeeds: the enrollment that it found and the database that it left.
pub record IsActivation (rt : Runtime) (db : NodeDb) (id : Text) (request : RegisterRequest)
    (ts now : ℕ) (db' : NodeDb) (report : NodeReport) : Type 0 where
  pub enrollment : Enrollment
  pub found : first_where (activatable id now) db.enrollments ≡ some enrollment
  pub checked : check_activation rt db id request ts now ≡ ok (enrollment, report)
  pub counted : count_where (issued_with_id enrollment.id) db.enrollments ≡ 1
  pub db_after : db' ≡ (commit_activation db enrollment report ts).0

module _ (rt : Runtime) (db : NodeDb) (id : Text) (request : RegisterRequest) (ts now : ℕ) where
  check_found :
      (enrollment : Enrollment) (report : NodeReport)
      → check_activation rt db id request ts now ≡ ok (enrollment, report)
      → first_where (activatable id now) db.enrollments ≡ some enrollment
  unfolding check_activation
  check_found enrollment report e =
      elim (Option-cases (first_where (activatable id now) db.enrollments)) [
        | inl missing ↦ ground arith
        | inr (row, found) ↦ ground arith
      ]

  committed :
      (enrollment : Enrollment) (found_report : NodeReport)
      → check_activation rt db id request ts now ≡ ok (enrollment, found_report)
      → (db' : NodeDb) (report : NodeReport)
      → activate_node_enrollment rt db id request ts now ≡ (db', ok report)
      → (report ≡ found_report)
        × (db' ≡ (commit_activation db enrollment found_report ts).0)
        × (count_where (issued_with_id enrollment.id) db.enrollments ≡ 1)
  unfolding activate_node_enrollment commit_activation
  committed enrollment found_report checked db' report e = ground arith

  pub activate-IsActivation :
      (db' : NodeDb) (report : NodeReport)
      → activate_node_enrollment rt db id request ts now ≡ (db', ok report)
      → IsActivation rt db id request ts now db' report
  unfolding activate_node_enrollment
  activate-IsActivation db' report e =
      elim (Result-cases (check_activation rt db id request ts now)) [
        | inr (error, failed) ↦ ground arith
        | inl ((enrollment, found_report), checked) ↦
            let (same, left, counted) = committed enrollment found_report checked db' report e in
            record {
              enrollment = enrollment;
              found = check_found enrollment found_report checked;
              checked = rw same checked;
              counted = counted;
              db_after = rw same left;
            }
      ]

of_node-replace :
    (e : Enrollment) (ts : ℕ) (c : Credential)
    → of_node e.node_id (replace_credential e ts c) ≡ of_node e.node_id c
unfolding replace_credential
of_node-replace e ts c = refl

of_node-new : (e : Enrollment) (ts : ℕ) → of_node e.node_id (new_credential e ts) ≡ true
unfolding new_credential
of_node-new e ts = text_eq_refl e.node_id

-- The credential of the node after the writes of an activation.
pub commit-credential :
    (db : NodeDb) (e : Enrollment) (report : NodeReport) (ts : ℕ)
    → first_where (of_node e.node_id) (commit_activation db e report ts).0.credentials
      ≡ some (
          merged
            (new_credential e ts)
            (replace_credential e ts)
            (first_where (of_node e.node_id) db.credentials))
unfolding commit_activation
commit-credential db e report ts =
    first-upsert (of_node e.node_id) (replace_credential e ts) (new_credential e ts) db.credentials
      (of_node-new e ts) (of_node-replace e ts)

-- Whatever was stored, the credential is isolated under the salt of the enrollment.
pub merged_current :
    (e : Enrollment) (ts : ℕ) (o : Option Credential)
    → let c = merged (new_credential e ts) (replace_credential e ts) o in
      (c.auth_mode ≡ isolated) × (c.current_salt ≡ some e.secret_salt)
unfolding new_credential replace_credential
merged_current e ts none = (refl, refl)
merged_current e ts (some c) = (refl, refl)

pub merged_fallback :
    (e : Enrollment) (ts : ℕ) (o : Option Credential)
    → e.kind ≡ migrate
    → (merged (new_credential e ts) (replace_credential e ts) o).legacy_fallback ≡ 1
unfolding new_credential replace_credential
merged_fallback e ts none k = rw k refl
merged_fallback e ts (some c) k = rw k refl

some-inj : {A : Type 0} {a b : A} → some a ≡ some b → a ≡ b
some-inj h = cc

or_true : (b : Bool) → (b || true) ≡ true
or_true true = refl
or_true false = refl

module _ (rt : Runtime) (roots : Roots) (db : NodeDb) (node_id : Text) (allow : Bool)
    (later : ℕ) where
  -- An isolated credential puts the secret of its salt first, under the current root.
  pub isolated_first :
      (c : Credential) (x : ℕ) (salt : Text)
      → first_where (of_node node_id) db.credentials ≡ some c
      → c.auth_mode ≡ isolated
      → c.current_salt ≡ some (x ∷ salt)
      → head? (node_auth_secret_candidates rt roots db node_id allow later)
        ≡ some (derived rt node_id isolated_current none (x ∷ salt) (roots.current, Slot.current))
  unfolding node_auth_secret_candidates stored_values isolated_values root_candidates
      deduplicate_from
  isolated_first c x salt e m s = rw (e, m, s) refl

  -- It keeps the secret of the salt before, where there is one.
  pub isolated_before :
      (c : Credential) (x y : ℕ) (salt before : Text)
      → first_where (of_node node_id) db.credentials ≡ some c
      → c.auth_mode ≡ isolated
      → c.current_salt ≡ some (x ∷ salt)
      → c.previous_salt ≡ some (y ∷ before)
      → includes
          (secrets (node_auth_secret_candidates rt roots db node_id allow later))
          (derive_node_secret rt roots.current node_id (y ∷ before))
        ≡ true
  unfolding stored_values isolated_values root_candidates derived
  isolated_before c x y salt before e m s p =
      rw
        (
          candidates-includes rt roots db node_id allow later _,
          e,
          m,
          s,
          p,
          text_eq_refl (derive_node_secret rt roots.current node_id (y ∷ before)),
        )
        (or_true _)

  -- And with the fallback set, the root secrets of the control plane itself.
  pub fallback_root :
      (c : Credential) (x : ℕ) (salt : Text)
      → first_where (of_node node_id) db.credentials ≡ some c
      → c.auth_mode ≡ isolated
      → c.current_salt ≡ some (x ∷ salt)
      → c.legacy_fallback ≡ 1
      → includes
          (secrets (node_auth_secret_candidates rt roots db node_id allow later))
          roots.current
        ≡ true
  unfolding stored_values root_candidates legacy_values
  fallback_root c x salt e m s f =
      rw (candidates-includes rt roots db node_id allow later roots.current) (
        includes-append_left
          (stored_values rt node_id (root_candidates roots)
            (first_where (of_node node_id) db.credentials))
          _ roots.current
          (rw (e, m, s, f)
            (includes-append_right
              (isolated_values rt node_id (x ∷ salt) c.previous_salt (root_candidates roots)) _
              roots.current (rw (text_eq_refl roots.current) refl))))

module _ (rt : Runtime) (roots : Roots) (db : NodeDb) (id : Text) (request : RegisterRequest)
    (ts now : ℕ) (db' : NodeDb) (report : NodeReport) (e : Enrollment) where
  pub activation_of :
      activate_node_enrollment rt db id request ts now ≡ (db', ok report)
      → first_where (activatable id now) db.enrollments ≡ some e
      → db' ≡ (commit_activation db e report ts).0
  activation_of done found =
      let a = activate-IsActivation rt db id request ts now db' report done in
      let same : a.enrollment ≡ e = some-inj (sym a.found ∙ found) in rw same at a.db_after

  -- On the tables that an activation leaves, the first candidate of the node is the secret of
  -- the enrollment's salt under the current root, at any time. (The salt is not empty.)
  pub activate-first :
      (x : ℕ) (salt : Text)
      → activate_node_enrollment rt db id request ts now ≡ (db', ok report)
      → first_where (activatable id now) db.enrollments ≡ some e
      → e.secret_salt ≡ x ∷ salt
      → (allow : Bool) (later : ℕ)
      → head? (node_auth_secret_candidates rt roots db' e.node_id allow later)
        ≡ some (derived rt e.node_id isolated_current none (x ∷ salt) (roots.current, Slot.current))
  activate-first x salt done found s allow later =
      let o = first_where (of_node e.node_id) db.credentials in
      let (mode, current) = merged_current e ts o in
      rw (activation_of done found) (
        isolated_first rt roots _ e.node_id allow later _ x salt (commit-credential db e report ts)
          mode (current ∙ ap some s))

  -- Where the node had an isolated credential with a salt, a successful activation leaves the
  -- secret of that salt, under the current root, among the candidates of the node, at any time.
  -- (Neither salt is empty.)
  pub activate-before :
      (c : Credential) (x y : ℕ) (salt before : Text)
      → activate_node_enrollment rt db id request ts now ≡ (db', ok report)
      → first_where (activatable id now) db.enrollments ≡ some e
      → e.secret_salt ≡ x ∷ salt
      → first_where (of_node e.node_id) db.credentials ≡ some c
      → c.auth_mode ≡ isolated
      → c.current_salt ≡ some (y ∷ before)
      → (allow : Bool) (later : ℕ)
      → includes
          (secrets (node_auth_secret_candidates rt roots db' e.node_id allow later))
          (derive_node_secret rt roots.current e.node_id (y ∷ before))
        ≡ true
  unfolding replace_credential
  activate-before c x y salt before done found s stored mode current allow later =
      rw (activation_of done found) (
        isolated_before rt roots _ e.node_id allow later (replace_credential e ts c) x y salt before
          (rw stored at (commit-credential db e report ts)) refl (ap some s) (rw mode current))
