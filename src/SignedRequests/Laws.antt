-- ===== src/SignedRequests/Laws.antt =====
-- Which signed requests of packages/control-plane/src/automation-auth.ts and
-- packages/control-plane/src/integration-auth.ts are accepted.
use opus8_cf.Base.{
  ℕ, ◌+◌, ◌≤◌, ◌≡◌, arith, Bool, true, false, ◌&&◌, [], Option, none, some, Bool-cases, inl, inr,
  or_else, length, includes, Text, lower, leb, if◌then◌else◌,
}
use opus8_cf.Enrollment.Create.{max_safe_integer}
use opus8_cf.Signing.{timing_safe_equal}
use opus8_cf.Signing.Laws.{timing_safe_equal_iff}
use opus8_cf.SignedRequests.{
  Crypto, SignedRequest, AutomationEnv, Authenticated, signature_window_ms, automation_message,
  fresh_timestamp, automation_headers_valid, allowed_identities, verify_automation_request,
}

-- What an accepted request shows.
pub record IsTrusted (crypto : Crypto) (r : SignedRequest) (env : AutomationEnv) (body : Text)
    (now : ℕ) (a : Authenticated) : Type 0 where
  pub signed :
      crypto.hmac_sign (or_else env.secret []) (automation_message crypto r body)
      ≡ lower (or_else r.signature [])
  pub long_secret : 32 ≤ length (or_else env.secret [])
  pub listed : includes (allowed_identities env) a.identity ≡ true
  pub not_old : now ≤ a.timestamp + signature_window_ms
  pub not_early : a.timestamp ≤ now + signature_window_ms

fresh_timestamp-within :
    (s : Text) (now t : ℕ)
    → fresh_timestamp s now ≡ some t
    → (now ≤ t + signature_window_ms) × (t ≤ now + signature_window_ms)
unfolding fresh_timestamp
fresh_timestamp-within s now t h = ground arith

headers-listed :
    (env : AutomationEnv) (r : SignedRequest)
    → automation_headers_valid env r ≡ true
    → includes (allowed_identities env) (or_else r.identity []) ≡ true
unfolding automation_headers_valid
headers-listed env r h = ground arith

-- The end of both checks: the time is fresh and the signatures are equal.
accepted_inv :
    (stamp : Option ℕ) (same : Bool) (identity request_id : Text) (a : Authenticated)
    → elim stamp [
      | none ↦ none
      | some t ↦
          if same
          then some (record { identity = identity; request_id = request_id; timestamp = t })
          else none
    ]
      ≡ some a
    → (stamp ≡ some a.timestamp)
      × (same ≡ true)
      × (a.identity ≡ identity)
      × (a.request_id ≡ request_id)
accepted_inv none same identity request_id a h = cc
accepted_inv (some t) true identity request_id a h = ground arith
accepted_inv (some t) false identity request_id a h = cc

-- A request that verifyAutomationRequest accepts carries, in upper or lower case digits, the HMAC of
-- its own message under the configured secret, which has at least 32 characters; its identity is on
-- the list of identities, and its time is within five minutes of the clock on either side.
pub verify_automation-IsTrusted :
    (crypto : Crypto) (r : SignedRequest) (env : AutomationEnv) (body : Text) (now : ℕ)
    (a : Authenticated)
    → verify_automation_request crypto r env body now ≡ some a
    → IsTrusted crypto r env body now a
unfolding verify_automation_request
verify_automation-IsTrusted crypto r env body now a h =
    elim (Bool-cases (
      leb 32 (length (or_else env.secret []))
      && (leb now max_safe_integer && automation_headers_valid env r))) [
        | inr fails ↦ absurd (ground arith)
        | inl passes ↦
            let (stamp, same, identity, _) =
              accepted_inv (fresh_timestamp (or_else r.timestamp []) now)
                (timing_safe_equal
                  (crypto.hmac_sign (or_else env.secret []) (automation_message crypto r body))
                  (lower (or_else r.signature [])))
                (or_else r.identity []) (or_else r.request_id []) a (rw passes at h) in
            record {
              signed = (timing_safe_equal_iff _ _).0 same;
              long_secret = ground arith;
              listed = rw identity (headers-listed env r (ground arith));
              not_old = (fresh_timestamp-within (or_else r.timestamp []) now a.timestamp stamp).0;
              not_early = (fresh_timestamp-within (or_else r.timestamp []) now a.timestamp stamp).1;
            }
      ]
