-- ===== src/Tests/Auth.antt =====
-- Signed requests of a node.
use opus8_cf.Signing.{timing_safe_equal, node_signature_message_v2}
use opus8_cf.Enrollment.Fields.{node_id_pattern}
use opus8_cf.Base.{
  text_eq, first_where, ◌≡◌, refl, arith, [], some, none, codes, true, Text, is_some,
}
use mathlib.Core.List.{Memᴰ}
use opus8_cf.Enrollment.Tables.{root_candidates, derive_node_secret, Slot}
use opus8_cf.Enrollment.Candidates.{
  isolated_values, stored_values, deduplicate_from, node_auth_secret_candidates, Candidate, derived,
  isolated_current,
}
use opus8_cf.Enrollment.Activate.{revoke_node_credential}
use opus8_cf.NodeAuth.{
  enrollment_target, first_match, auth_result, verify_signed, candidates_for, Request, NodeAuthEnv,
  AuthResult, message_v2, request_candidates, verify_node_request, valid_timestamp, valid_signature,
}
use opus8_cf.NodeAuth.Laws.{verify-IsGenuine, IsGenuine, revoked_refused, signed_accepted_v2}
use opus8_cf.Tests.Sample.{rt, roots, rotating, sign}

abbrev unsigned : Request
unsigned = record {
  method = codes "post";
  pathname = codes "/api/nodes/usage";
  search = [];
  ts = some (codes "1700000000000");
  node = some (codes "n1");
  sign = none;
  sign_v2 = none;
}

abbrev candidate : Candidate
candidate = derived rt (codes "n1") isolated_current none (codes "s1") (codes "root", Slot.current)

abbrev signature : Text
signature =
    sign candidate.secret (message_v2 unsigned (codes "1700000000000") (codes "n1") (codes "{}"))

abbrev request : Request
request = record unsigned { sign_v2 = some signature }

abbrev env : NodeAuthEnv
env = record {
  db = some rotating;
  roots = roots;
  hmac_v1_accept_until = none;
  hmac_v1_node_ids = none;
}

abbrev result : AuthResult
result = record {
  node_id = codes "n1";
  timestamp = 1700000000000;
  version = 2;
  secret_slot = Slot.current;
  auth_kind = isolated_current;
  enrollment_id = none;
  secret = candidate.secret;
}

signed_accepted_v2_example :
    is_some (verify_node_request rt request env (codes "{}") 1700000000500) ≡ true
unfolding valid_timestamp valid_signature request_candidates derived message_v2 node_id_pattern
    derive_node_secret node_signature_message_v2 candidates_for node_auth_secret_candidates
    deduplicate_from stored_values first_where text_eq isolated_values root_candidates
signed_accepted_v2_example =
    signed_accepted_v2 rt request env (codes "{}") signature 1700000000500 1700000000000 candidate
      refl refl (omega arith) (omega arith) refl refl (Memᴰ.head refl) refl

verify-IsGenuine_example : IsGenuine rt request env (codes "{}") 1700000000500 result
unfolding verify_node_request derived message_v2 valid_timestamp node_id_pattern verify_signed
    valid_signature derive_node_secret node_signature_message_v2 auth_result first_match
    request_candidates candidates_for node_auth_secret_candidates deduplicate_from stored_values
    first_where text_eq isolated_values root_candidates enrollment_target timing_safe_equal
verify-IsGenuine_example = verify-IsGenuine rt request env (codes "{}") 1700000000500 result refl

revoked_refused_example :
    verify_node_request rt request
      (record env { db = some (revoke_node_credential rotating (codes "n1") 1699999999000).0 })
      (codes "{}")
      1700000000500
    ≡ none
revoked_refused_example =
    revoked_refused rt request
      (record env { db = some (revoke_node_credential rotating (codes "n1") 1699999999000).0 })
      rotating (codes "n1") (codes "{}") 1699999999000 1700000000500 refl refl
