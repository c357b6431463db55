-- ===== src/RateLimits/Closed.antt =====
-- What a required rate limit lets through.
use opus8_cf.Base.{◌≡◌, arith, true, Option, some, Text, codes, text_is, Option-cases, inl, inr}
use opus8_cf.RateLimits.{
  Limiter, LoginEnv, admitted, login_key, login_unavailable, enforce_admin_login_rate_limit,
  SubscriptionEnv, served, private_key, source_identity, subscription_unavailable, ask_limiters,
  enforce_subscription_rate_limit,
}

-- Where the limit is required, a login is let through only by a limiter that is bound and that
-- answered success for the key of the source.
pub login-asked :
    (env : LoginEnv) (ip : Option Text)
    → text_is env.required (codes "1") ≡ true
    → enforce_admin_login_rate_limit env ip ≡ admitted
    → (limit : Limiter) × (env.limiter ≡ some limit) × (limit (login_key env ip) ≡ some true)
unfolding enforce_admin_login_rate_limit login_unavailable
login-asked env ip required h = ground arith

asked_both :
    (env : SubscriptionEnv) (by_source by_token : Limiter) (ip : Option Text) (t : Text)
    → text_is env.required (codes "1") ≡ true
    → ask_limiters env by_source by_token ip t ≡ served
    → (by_source (private_key env (codes "source") (source_identity ip)) ≡ some true)
      × (by_token (private_key env (codes "token") t) ≡ some true)
unfolding ask_limiters subscription_unavailable
asked_both env by_source by_token ip t required h = ground arith

-- Where the limit is required, a subscription is served only if both limiters are bound and both
-- answered success, one for the key of the source and one for that of the token.
pub subscription-asked :
    (env : SubscriptionEnv) (ip : Option Text) (t : Text)
    → text_is env.required (codes "1") ≡ true
    → enforce_subscription_rate_limit env ip t ≡ served
    → (by_source : Limiter) × (by_token : Limiter) × (env.source_limiter ≡ some by_source)
      × (env.token_limiter ≡ some by_token)
      × (by_source (private_key env (codes "source") (source_identity ip)) ≡ some true)
      × (by_token (private_key env (codes "token") t) ≡ some true)
unfolding enforce_subscription_rate_limit subscription_unavailable
subscription-asked env ip t required h = elim (Option-cases env.source_limiter) [
  | inl missing ↦ absurd (ground arith)
  | inr (by_source, s) ↦ elim (Option-cases env.token_limiter) [
    | inl missing ↦ absurd (ground arith)
    | inr (by_token, k) ↦
        let (x, y) = asked_both env by_source by_token ip t required (ground arith) in
        (by_source, by_token, s, k, x, y)
  ]
]
