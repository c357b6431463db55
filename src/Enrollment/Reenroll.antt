-- ===== src/Enrollment/Reenroll.antt =====
-- What becomes of a node that is enrolled again after its credential was revoked, and of an
-- activation whose enrollment is revoked between its reads and its writes.
use opus8_cf.Base.{
  ℕ, ◌≡◌, refl, ap, ◌∙◌, Bool, true, List, [], ◌∷◌, none, some, arith, Text, includes, ok,
  first_where, update_where, count_where,
}
use mathlib.Core.List.{head?}
use opus8_cf.Nodes.{Node, NodeReport, get_node}
use opus8_cf.Enrollment.Fields.{Runtime, enrollment_used, valid_node_id}
use opus8_cf.Enrollment.Tables.{
  AuthMode, migrate, Credential, Enrollment, NodeDb, Roots, Slot, of_node,
}
use opus8_cf.Enrollment.Candidates.{isolated_current, derived, node_auth_secret_candidates}
use opus8_cf.Enrollment.Distinct.{secrets}
use opus8_cf.Enrollment.Create.{
  CreateInput, Draws, prepare_enrollment, kind_of, open_with_id, close_enrollment,
  revoke_node_enrollment,
}
use opus8_cf.Enrollment.Prepared.{prepare-IsPrepared}
use opus8_cf.Enrollment.Activate.{
  RegisterRequest, activatable, commit_activation, issued_with_id, activate_node_enrollment,
}
use opus8_cf.Enrollment.Rotation.{
  isolated_first, fallback_root, commit-credential, merged_current, merged_fallback, activation_of,
}

closed-issued :
    (id : Text) (now : ℕ) (es : List Enrollment)
    → count_where (issued_with_id id) (update_where (open_with_id id) (close_enrollment now) es) ≡ 0
unfolding count_where update_where close_enrollment
closed-issued id now [] = refl
closed-issued id now (x ∷ es) = ground (arith, closed-issued id now es)

-- If an enrollment is revoked after an activation has read it, the writes of the activation end
-- in the error, and the credential is installed all the same: the secret of the revoked
-- enrollment is the node's first candidate. (The salt is not empty.)
pub late_activation :
    (rt : Runtime) (roots : Roots) (db : NodeDb) (e : Enrollment) (report : NodeReport) (ts now : ℕ)
    (x : ℕ) (salt : Text) (allow : Bool) (later : ℕ)
    → e.secret_salt ≡ x ∷ salt
    → let out = commit_activation (revoke_node_enrollment db e.id now).0 e report ts in
      (out.1 ≡ some enrollment_used)
      × (head? (node_auth_secret_candidates rt roots out.0 e.node_id allow later)
          ≡ some
              (derived rt e.node_id isolated_current none (x ∷ salt) (roots.current, Slot.current)))
unfolding commit_activation revoke_node_enrollment
late_activation rt roots db e report ts now x salt allow later s =
    let db₀ = (revoke_node_enrollment db e.id now).0 in
    let (mode, current) = merged_current e ts (first_where (of_node e.node_id) db.credentials) in
    (
      rw (closed-issued e.id now db.enrollments) refl,
      isolated_first rt roots _ e.node_id allow later _ x salt (commit-credential db₀ e report ts)
          mode (current ∙ ap some s),
    )

-- A node that is known and whose credential was revoked gets an enrollment of kind `migrate`.
pub revoked-migrate :
    (rt : Runtime) (root : Text) (db : NodeDb) (input : CreateInput) (allow : Bool) (now : ℕ)
    (draws : Draws) (row : Enrollment) (id : Text) (n : Node) (c : Credential)
    → valid_node_id input.node_id ≡ some id
    → get_node db.nodes id ≡ some n
    → first_where (of_node id) db.credentials ≡ some c
    → c.auth_mode ≡ AuthMode.revoked
    → prepare_enrollment rt root db input allow now draws ≡ ok row
    → row.kind ≡ migrate
unfolding kind_of
revoked-migrate rt root db input allow now draws row id n c v g f m e =
    let prepared = prepare-IsPrepared rt root db input allow now draws row e in
    let same : row.node_id ≡ id = cc (prepared.node, v) in prepared.kind ∙ rw (same, g, f, m) refl

-- On the tables that the activation of an enrollment of kind `migrate` leaves, the shared root
-- secret of the control plane is a candidate for the node, at any time. (The salt is not empty.)
pub migrate-root :
    (rt : Runtime) (roots : Roots) (db : NodeDb) (id : Text) (request : RegisterRequest)
    (ts now : ℕ) (db' : NodeDb) (report : NodeReport) (e : Enrollment) (x : ℕ) (salt : Text)
    (allow : Bool) (later : ℕ)
    → activate_node_enrollment rt db id request ts now ≡ (db', ok report)
    → first_where (activatable id now) db.enrollments ≡ some e
    → e.secret_salt ≡ x ∷ salt
    → e.kind ≡ migrate
    → includes
        (secrets (node_auth_secret_candidates rt roots db' e.node_id allow later))
        roots.current
      ≡ true
migrate-root rt roots db id request ts now db' report e x salt allow later done found s k =
    let o = first_where (of_node e.node_id) db.credentials in
    let (mode, current) = merged_current e ts o in
    rw (activation_of rt roots db id request ts now db' report e done found) (
      fallback_root rt roots _ e.node_id allow later _ x salt (commit-credential db e report ts)
        mode (current ∙ ap some s) (merged_fallback e ts o k))
