-- ===== src/NodeAuth.antt =====
-- packages/control-plane/src/node-auth.ts: which requests of a node are taken for genuine.
pub mod Laws
use opus8_cf.Base.{
  ℕ, ◌+◌, ◌*◌, ◌-◌, Bool, true, false, not, ◌&&◌, ◌||◌, List, [], ◌∷◌, ◌++◌, Option, none, some,
  leb, ltb, ◌==◌, if◌then◌else◌, within, or_else, is_some, length, all, any, keep, map, Text, codes,
  text_eq, includes, truthy, trim, lower, upper, split, is_digit, Number, whole,
}
use opus8_cf.Enrollment.Fields.{Runtime, node_id_pattern, is_hex}
use opus8_cf.Enrollment.Tables.{NodeDb, Roots, Slot, root_candidates}
use opus8_cf.Enrollment.Create.{max_safe_integer}
use opus8_cf.Enrollment.Candidates.{
  AuthKind, legacy_root, Candidate, legacy_values, node_auth_secret_candidates,
}
use opus8_cf.Signing.{
  sign_window_ms, timing_safe_equal, canonical_request_target, node_signature_message_v1,
  node_signature_message_v2,
}

-- A request with its URL parsed, and the headers `x-opus8-ts`, `x-opus8-node`, `x-opus8-sign` and
-- `x-opus8-sign-v2`.
pub record Request : Type 0 where
  pub method : Text
  pub pathname : Text
  pub search : Text
  pub ts : Option Text
  pub node : Option Text
  pub sign : Option Text
  pub sign_v2 : Option Text

-- `NodeAuthEnv`: `db` is none where no database is bound.
pub record NodeAuthEnv : Type 0 where
  pub db : Option NodeDb
  pub roots : Roots
  pub hmac_v1_accept_until : Option Text
  pub hmac_v1_node_ids : Option Text

pub record AuthResult : Type 0 where
  pub node_id : Text
  pub timestamp : ℕ
  pub version : ℕ
  pub secret_slot : Slot
  pub auth_kind : AuthKind
  pub enrollment_id : Option Text
  pub secret : Text

-- The value of a string of decimal digits.
unfoldable pub decimal_from : ℕ → Text → ℕ
decimal_from n [] = n
decimal_from n (c ∷ s) = decimal_from (n * 10 + (c - b'0')) s

-- `validTimestamp`: thirteen digits are always a safe integer.
unfoldable pub valid_timestamp : Text → Option ℕ
unfolding decimal_from
valid_timestamp s = if (length s == 13) && all is_digit s then some (decimal_from 0 s) else none

unfoldable pub valid_signature : Text → Bool
valid_signature s = (length s == 64) && all is_hex s

deadline_open : Number → ℕ → Bool
deadline_open (whole n) now = leb n max_safe_integer && leb now n
deadline_open _ now = false

-- `legacyWindowOpen`.
unfoldable pub legacy_window_open : Runtime → NodeAuthEnv → ℕ → Bool
unfolding deadline_open
legacy_window_open rt env now = elim env.hmac_v1_accept_until [
  | none ↦ deadline_open (whole 0) now
  | some s ↦ deadline_open (if truthy s then rt.number_of s else whole 0) now
]

-- `legacyNodeAllowed`.
unfoldable pub legacy_node_allowed : NodeAuthEnv → Text → Bool
legacy_node_allowed env node_id =
    includes (keep node_id_pattern (map trim (split b',' (or_else env.hmac_v1_node_ids []))))
      node_id

unfoldable pub legacy_target_allowed : Request → Text → Bool
legacy_target_allowed r node_id =
    if truthy r.search
    then false
    else if text_eq (upper r.method) (codes "GET")
    then text_eq r.pathname (codes "/api/nodes/" ++ (node_id ++ codes "/uuids"))
    else text_eq (upper r.method) (codes "POST")
      && includes
          (codes "/api/nodes/heartbeat"
            ∷ codes "/api/nodes/admission"
            ∷ codes "/api/nodes/usage"
            ∷ [])
          r.pathname

unfoldable pub enrollment_target : Request → Bool
enrollment_target r =
    text_eq (upper r.method) (codes "POST")
    && (text_eq r.pathname (codes "/api/nodes/register") && not (truthy r.search))

-- `fallbackCandidates`.
unfoldable pub fallback_candidates : NodeAuthEnv → List Candidate
fallback_candidates env = legacy_values (root_candidates env.roots)

unfoldable pub candidates_for : Runtime → NodeAuthEnv → Text → Bool → ℕ → List Candidate
candidates_for rt env node_id allow now = elim env.db [
  | none ↦ fallback_candidates env
  | some db ↦ node_auth_secret_candidates rt env.roots db node_id allow now
]

-- `requestCandidates`.
unfoldable pub request_candidates : Runtime → Request → NodeAuthEnv → Text → ℕ → List Candidate
request_candidates rt r env node_id now = candidates_for rt env node_id (enrollment_target r) now

unfoldable pub first_seen : List Text → List Text → List Text
first_seen seen [] = []
first_seen seen (x ∷ xs) =
    let skipped = first_seen seen xs in
    let kept = x ∷ first_seen (x ∷ seen) xs in
    elim (includes seen x) [ true ↦ skipped | false ↦ kept ]

-- `nodeRuntimeSecretCandidates`.
unfoldable pub node_runtime_secret_candidates : Runtime → NodeAuthEnv → Text → ℕ → List Text
node_runtime_secret_candidates rt env node_id now =
    first_seen [] (map (λ c. c.secret) (candidates_for rt env node_id false now))

-- The loops over the candidates: the first whose signature of the message is the one given.
unfoldable pub first_match : Runtime → Text → Text → List Candidate → Option Candidate
first_match rt message signature [] = none
first_match rt message signature (c ∷ cs) =
    let rest = first_match rt message signature cs in
    if timing_safe_equal (rt.hmac_sign c.secret message) (lower signature) then some c else rest

abbrev pub is_legacy_kind : AuthKind → Bool
is_legacy_kind legacy_root = true
is_legacy_kind _ = false

-- The answer for a version, from the candidate that matched.
unfoldable pub auth_result : ℕ → Text → ℕ → Option Candidate → Option AuthResult
auth_result version node_id timestamp none = none
auth_result version node_id timestamp (some c) = some (record {
  node_id = node_id;
  timestamp = timestamp;
  version = version;
  secret_slot = c.root_slot;
  auth_kind = c.auth_kind;
  enrollment_id = if version == 2 then c.enrollment_id else none;
  secret = c.secret;
})

unfoldable pub message_v2 : Request → Text → Text → Text → Text
message_v2 r ts_text node_id body =
    node_signature_message_v2 ts_text node_id r.method
      (canonical_request_target r.pathname r.search) body

-- The part of `verifyNodeRequest` for a request with a v2 signature.
unfoldable pub verify_v2 :
    Runtime → Request → Text → Text → ℕ → Text → List Candidate → Text → Option AuthResult
verify_v2 rt r ts_text node_id timestamp body candidates signature =
    if valid_signature signature
    then auth_result 2 node_id timestamp
        (first_match rt (message_v2 r ts_text node_id body) signature candidates)
    else none

-- The part for a request without one.
unfoldable pub verify_v1 :
    Runtime
    → Request
    → NodeAuthEnv
    → Text
    → Text
    → ℕ
    → ℕ
    → Text
    → List Candidate
    → Option AuthResult
verify_v1 rt r env ts_text node_id timestamp now body candidates =
    if legacy_window_open rt env now
      && (legacy_node_allowed env node_id
          && (legacy_target_allowed r node_id && valid_signature (or_else r.sign [])))
    then auth_result 1 node_id timestamp (
        first_match rt (node_signature_message_v1 ts_text node_id body) (or_else r.sign [])
          (keep (λ c. is_legacy_kind c.auth_kind) candidates))
    else none

unfoldable pub verify_signed :
    Runtime → Request → NodeAuthEnv → Text → ℕ → Text → ℕ → Text → Option AuthResult
unfolding verify_v1 verify_v2
verify_signed rt r env body now ts_text timestamp node_id =
    let candidates = request_candidates rt r env node_id now in
    elim r.sign_v2 [
      | some signature ↦ verify_v2 rt r ts_text node_id timestamp body candidates signature
      | none ↦ verify_v1 rt r env ts_text node_id timestamp now body candidates
    ]

-- `verifyNodeRequest`.
unfoldable pub verify_node_request : Runtime → Request → NodeAuthEnv → Text → ℕ → Option AuthResult
verify_node_request rt r env body now =
    let ts_text = or_else r.ts [] in
    let node_id = or_else r.node [] in
    elim (valid_timestamp ts_text) [
      | none ↦ none
      | some timestamp ↦
          if node_id_pattern node_id && within sign_window_ms now timestamp
          then verify_signed rt r env body now ts_text timestamp node_id
          else none
    ]
