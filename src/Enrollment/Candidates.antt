-- ===== src/Enrollment/Candidates.antt =====
-- `nodeAuthSecretCandidates` of packages/control-plane/src/node-enrollment.ts: the secrets under
-- which the requests of a node are accepted.
use opus8_cf.Base.{
  ℕ, Bool, true, false, ◌&&◌, List, [], ◌∷◌, ◌++◌, Option, none, some, leb, ltb, ◌==◌,
  if◌then◌else◌, or_else, take, keep, Text, includes, first_where,
}
use opus8_cf.Enrollment.Fields.{Runtime}
use opus8_cf.Enrollment.Tables.{
  AuthMode, legacy, isolated, Credential, Enrollment, NodeDb, is_issued, of_node, for_node, Roots,
  Slot, root_candidates, derive_node_secret,
}

pub data AuthKind : Type 0 where
  isolated_current isolated_previous enrollment legacy_root : AuthKind

-- `NodeAuthSecretCandidate`.
pub record Candidate : Type 0 where
  pub secret : Text
  pub auth_kind : AuthKind
  pub root_slot : Slot
  pub enrollment_id : Option Text

module _ (rt : Runtime) (node_id : Text) where
  unfoldable pub derived : AuthKind → Option Text → Text → Text × Slot → Candidate
  derived auth_kind enrollment_id salt root = record {
    secret = derive_node_secret rt root.0 node_id salt;
    auth_kind = auth_kind;
    root_slot = root.1;
    enrollment_id = enrollment_id;
  }

  -- A salt that is null or empty gives no candidate.
  previous_values : Option Text → Text × Slot → List Candidate
  unfolding derived
  previous_values none root = []
  previous_values (some []) root = []
  previous_values (some (c ∷ p)) root = derived isolated_previous none (c ∷ p) root ∷ []

  -- The loop over the roots for an isolated credential.
  unfoldable pub isolated_values : Text → Option Text → List (Text × Slot) → List Candidate
  unfolding previous_values
  isolated_values salt before [] = []
  isolated_values salt before (root ∷ roots) =
      derived isolated_current none salt root
      ∷ (previous_values before root ++ isolated_values salt before roots)

  enrollment_values : Enrollment → List (Text × Slot) → List Candidate
  enrollment_values e [] = []
  enrollment_values e (root ∷ roots) =
      derived enrollment (some e.id) e.secret_salt root ∷ enrollment_values e roots

  unfoldable pub each_enrollment : List Enrollment → List (Text × Slot) → List Candidate
  unfolding enrollment_values
  each_enrollment [] roots = []
  each_enrollment (e ∷ es) roots = enrollment_values e roots ++ each_enrollment es roots

unfoldable pub legacy_values : List (Text × Slot) → List Candidate
legacy_values [] = []
legacy_values (root ∷ roots) =
    record { secret = root.0; auth_kind = legacy_root; root_slot = root.1; enrollment_id = none }
    ∷ legacy_values roots

-- The candidates that a row of `node_credentials` gives.
unfoldable pub credential_values :
    Runtime → Text → List (Text × Slot) → AuthMode → Option Text → Option Text → ℕ → List Candidate
credential_values rt node_id roots isolated (some (c ∷ salt)) before fallback =
    isolated_values rt node_id (c ∷ salt) before roots
    ++ (if fallback == 1 then legacy_values roots else [])
credential_values rt node_id roots isolated _ before fallback = []
credential_values rt node_id roots legacy salt before fallback = legacy_values roots
credential_values rt node_id roots AuthMode.revoked salt before fallback = []

unfoldable pub stored_values :
    Runtime → Text → List (Text × Slot) → Option Credential → List Candidate
unfolding credential_values
stored_values rt node_id roots none = []
stored_values rt node_id roots (some c) =
    credential_values rt node_id roots c.auth_mode c.current_salt c.previous_salt c.legacy_fallback

-- `ORDER BY issued_at DESC`.
unfoldable pub insert_by_issue : Enrollment → List Enrollment → List Enrollment
insert_by_issue e [] = e ∷ []
insert_by_issue e (x ∷ xs) =
    let rest = insert_by_issue e xs in
    if leb (or_else x.issued_at 0) (or_else e.issued_at 0) then e ∷ x ∷ xs else x ∷ rest

unfoldable pub by_issue : List Enrollment → List Enrollment
by_issue [] = []
by_issue (e ∷ es) = insert_by_issue e (by_issue es)

abbrev pub usable : Text → ℕ → Enrollment → Bool
usable node_id now e = for_node node_id e && (is_issued e.status && ltb now e.expires_at)

unfoldable pub issued_values :
    Runtime → Text → List (Text × Slot) → List Enrollment → ℕ → List Candidate
unfolding by_issue
issued_values rt node_id roots enrollments now =
    each_enrollment rt node_id (take 2 (by_issue (keep (usable node_id now) enrollments))) roots

-- The first candidate of each secret stays.
unfoldable pub deduplicate_from : List Text → List Candidate → List Candidate
deduplicate_from seen [] = []
deduplicate_from seen (v ∷ vs) =
    let skipped = deduplicate_from seen vs in
    let kept = v ∷ deduplicate_from (v.secret ∷ seen) vs in
    elim (includes seen v.secret) [ true ↦ skipped | false ↦ kept ]

unfoldable pub node_auth_secret_candidates :
    Runtime → Roots → NodeDb → Text → Bool → ℕ → List Candidate
node_auth_secret_candidates rt roots db node_id allow_enrollment now =
    let all_roots = root_candidates roots in
    deduplicate_from [] (
      stored_values rt node_id all_roots (first_where (of_node node_id) db.credentials)
      ++ (if allow_enrollment then issued_values rt node_id all_roots db.enrollments now else []))
