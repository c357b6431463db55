-- ===== src/Tests/Requests.antt =====
-- Requests of the automation, and the gates in front of others.
use opus8_cf.Signing.{timing_safe_equal}
use opus8_cf.NodeAuth.{valid_signature}
use opus8_cf.Base.{
  text_eq, trim, split, ◌≡◌, ◌<◌, ◌≤◌, refl, arith, true, false, List, [], ◌∷◌, none, some, codes,
  first_where, text_eq,
}
use opus8_cf.SignedRequests.{
  fresh_timestamp, Crypto, SignedRequest, AutomationEnv, Authenticated, Nonce, new_nonce,
  automation_message, insert_nonce, verify_automation_request,
}
use opus8_cf.SignedRequests.Laws.{IsTrusted, verify_automation-IsTrusted}
use opus8_cf.Maintenance.{RuntimeRow}
use opus8_cf.Maintenance.Replay.{here, next, clean_up, replay_refused}
use opus8_cf.PolicyCache.{policy_version_key, get_edge_policy_version, publish_edge_policy_change}
use opus8_cf.PolicyCache.Versions.{after_maintenance, publish-version}
use opus8_cf.RateLimits.{
  enforce_subscription_rate_limit, SubscriptionEnv, Limiter, private_key, source_identity,
}
use opus8_cf.RateLimits.Closed.{subscription-asked}
use opus8_cf.Tests.Sample.{repeat, sign}

abbrev crypto : Crypto
crypto = record { hmac_sign = sign; sha256_hex = λ s. repeat b'0' 64 }

abbrev automation_env : AutomationEnv
automation_env = record { secret = some (repeat b'k' 32); allowed_ids = none }

abbrev unsigned : SignedRequest
unsigned = record {
  method = codes "POST";
  pathname = codes "/api/admin/nodes";
  search = [];
  identity = some (codes "github-node-deploy");
  timestamp = some (codes "1700000000000");
  request_id = some (codes "request-0000000001");
  signature = none;
}

abbrev deploy : SignedRequest
deploy = record unsigned {
  signature = some (sign (repeat b'k' 32) (automation_message crypto unsigned (codes "{}")));
}

abbrev accepted : Authenticated
accepted = record {
  identity = codes "github-node-deploy";
  request_id = codes "request-0000000001";
  timestamp = 1700000000000;
}

deploy-accepted :
    verify_automation_request crypto deploy automation_env (codes "{}") 1700000001000
    ≡ some accepted
unfolding verify_automation_request split trim text_eq valid_signature fresh_timestamp
    timing_safe_equal
deploy-accepted = refl

verify_automation-IsTrusted_example :
    IsTrusted crypto deploy automation_env (codes "{}") 1700000001000 accepted
verify_automation-IsTrusted_example =
    verify_automation-IsTrusted crypto deploy automation_env (codes "{}") 1700000001000 accepted
      deploy-accepted

abbrev claimed : List Nonce
claimed = new_nonce accepted 1700000000500 ∷ []

replay_refused_example : (insert_nonce accepted 1700000001000 claimed).1 ≡ false
unfolding insert_nonce
replay_refused_example =
    replay_refused crypto deploy automation_env (codes "{}") accepted 1700000000500 [] claimed
      1700000000900 1700000001000 refl (next here (clean_up 1700000000900 (omega arith)))
      (omega arith) deploy-accepted

abbrev versions : List RuntimeRow
versions = record { key = policy_version_key; value = 7; updated_at = 0 } ∷ []

publish-version_example :
    let (left, version, _) = publish_edge_policy_change (λ v t. true) [] versions 5 in
    (get_edge_policy_version versions < version)
    × (5 ≤ version)
    × (get_edge_policy_version (after_maintenance left ((2, 6) ∷ [])) ≡ version)
    × (version
        < (publish_edge_policy_change (λ v t. true) [] (after_maintenance left ((2, 6) ∷ [])) 3).1)
unfolding first_where text_eq
publish-version_example =
    publish-version (λ v t. true) [] versions 5 ((2, 6) ∷ []) 3 (omega arith)
      (λ e. ground (arith, e))

abbrev lenient : Limiter
lenient key = some true

abbrev limited : SubscriptionEnv
limited = record {
  sign = λ s. s;
  required = some (codes "1");
  source_limiter = some lenient;
  token_limiter = some lenient;
}

subscription-asked_example :
    (by_source : Limiter) × (by_token : Limiter) × (limited.source_limiter ≡ some by_source)
    × (limited.token_limiter ≡ some by_token)
    × (by_source (private_key limited (codes "source") (source_identity none)) ≡ some true)
    × (by_token (private_key limited (codes "token") (codes "t")) ≡ some true)
unfolding text_eq enforce_subscription_rate_limit
subscription-asked_example = subscription-asked limited none (codes "t") refl refl
