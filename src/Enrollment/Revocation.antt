-- ===== src/Enrollment/Revocation.antt =====
-- The candidates of a node after `revokeNodeCredential` and `deleteNodeRegistration`
-- (packages/control-plane/src/node-enrollment.ts).
use opus8_cf.Base.{
  ℕ, ◌≡◌, refl, Bool, true, false, List, [], ◌∷◌, Option, none, some, arith, keep, delete_where,
  Text, first_where, update_where,
}
use opus8_cf.Enrollment.Fields.{Runtime}
use opus8_cf.Enrollment.Tables.{
  AuthMode, Credential, Enrollment, NodeDb, Roots, Slot, root_candidates, of_node, for_node,
}
use opus8_cf.Enrollment.Candidates.{
  stored_values, each_enrollment, issued_values, usable, deduplicate_from,
  node_auth_secret_candidates,
}
use opus8_cf.Enrollment.Activate.{
  active_of_node, revoke_credential, open_of_node, close_at, revoke_node_credential,
  delete_node_registration,
}

revoked-first :
    (id : Text) (now : ℕ) (cs : List Credential) (c : Credential)
    → first_where (of_node id) (update_where (active_of_node id) (revoke_credential now) cs)
      ≡ some c
    → c.auth_mode ≡ AuthMode.revoked
unfolding first_where update_where revoke_credential
revoked-first id now [] c e = cc
revoked-first id now (x ∷ cs) c e = ground (arith, revoked-first id now cs c)

stored-revoked :
    (rt : Runtime) (id : Text) (roots : List (Text × Slot)) (o : Option Credential)
    → ((c : Credential) → o ≡ some c → c.auth_mode ≡ AuthMode.revoked)
    → stored_values rt id roots o ≡ []
unfolding stored_values
stored-revoked rt id roots none h = refl
stored-revoked rt id roots (some c) h = rw (h c refl) refl

closed-unusable :
    (id : Text) (now later : ℕ) (es : List Enrollment)
    → keep (usable id later) (update_where (open_of_node id) (close_at now) es) ≡ []
unfolding update_where
closed-unusable id now later [] = refl
closed-unusable id now later (x ∷ es) = ground (arith, closed-unusable id now later es)

-- No stored credential and no usable enrollment: no candidate.
no_candidates :
    (rt : Runtime) (roots : Roots) (db : NodeDb) (id : Text) (allow : Bool) (later : ℕ)
    → stored_values rt id (root_candidates roots) (first_where (of_node id) db.credentials) ≡ []
    → keep (usable id later) db.enrollments ≡ []
    → node_auth_secret_candidates rt roots db id allow later ≡ []
unfolding node_auth_secret_candidates issued_values each_enrollment deduplicate_from
no_candidates rt roots db id true later s k = rw (s, k) refl
no_candidates rt roots db id false later s k = rw s refl

-- On the tables that the revocation of a credential leaves, the node has no candidate, at any
-- time, for registration or otherwise.
pub revoked-no_candidates :
    (rt : Runtime) (roots : Roots) (db : NodeDb) (id : Text) (now : ℕ) (allow : Bool) (later : ℕ)
    → node_auth_secret_candidates rt roots (revoke_node_credential db id now).0 id allow later ≡ []
unfolding revoke_node_credential
revoked-no_candidates rt roots db id now allow later =
    no_candidates rt roots _ id allow later
      (stored-revoked rt id (root_candidates roots) _ (revoked-first id now db.credentials))
      (closed-unusable id now later db.enrollments)

deleted-first :
    (id : Text) (cs : List Credential)
    → first_where (of_node id) (delete_where (of_node id) cs) ≡ none
unfolding first_where
deleted-first id [] = refl
deleted-first id (x ∷ cs) = ground (arith, deleted-first id cs)

deleted-unusable :
    (id : Text) (later : ℕ) (es : List Enrollment)
    → keep (usable id later) (delete_where (for_node id) es) ≡ []
deleted-unusable id later [] = refl
deleted-unusable id later (x ∷ es) = ground (arith, deleted-unusable id later es)

-- On the tables that the deletion of a registration leaves, where there was one, the node has no
-- candidate, at any time, for registration or otherwise.
pub deleted-no_candidates :
    (rt : Runtime) (roots : Roots) (db : NodeDb) (id : Text) (allow : Bool) (later : ℕ)
    → (delete_node_registration db id).1 ≡ true
    → node_auth_secret_candidates rt roots (delete_node_registration db id).0 id allow later ≡ []
unfolding delete_node_registration stored_values
deleted-no_candidates rt roots db id allow later h =
    no_candidates rt roots _ id allow later (rw h (rw (deleted-first id db.credentials) refl))
      (deleted-unusable id later db.enrollments)
