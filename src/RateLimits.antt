-- ===== src/RateLimits.antt =====
-- packages/control-plane/src/admin-login-rate-limit.ts and
-- packages/control-plane/src/subscription-rate-limit.ts.
pub mod Closed
use opus8_cf.Base.{
  ℕ, Bool, true, false, not, ◌&&◌, ◌||◌, List, [], ◌∷◌, ◌++◌, Option, none, some, ◌==◌,
  if◌then◌else◌, or_else, length, all, take, Text, codes, text_is, trim, truthy, is_alnum,
}

-- A rate limiter binding: none where the call throws, otherwise whether it succeeds.
abbrev pub Limiter : Type 0
Limiter = Text → Option Bool

-- `AdminLoginRateLimitEnv`, with the HMAC of Web Crypto under `JWT_SECRET`.
pub record LoginEnv : Type 0 where
  pub sign : Text → Text
  pub required : Option Text
  pub limiter : Option Limiter

pub data LoginDecision : Type 0 where
  admitted : LoginDecision
  refused : ℕ → ℕ → LoginDecision

abbrev is_required : Option Text → Bool
is_required flag = text_is flag (codes "1")

abbrev login_period : ℕ
login_period = 60

-- The decision without an answer of the limiter.
unfoldable pub login_unavailable : LoginEnv → LoginDecision
login_unavailable env = if is_required env.required then refused 503 60 else admitted

abbrev unknown_source : Text
unknown_source = codes "unknown-source"

abbrev or_unknown : Text → Text
or_unknown [] = unknown_source
or_unknown (c ∷ s) = c ∷ s

-- The header `cf-connecting-ip`.
unfoldable pub login_key : LoginEnv → Option Text → Text
login_key env ip =
    env.sign
      (codes "admin-login-rate-v1:" ++ or_unknown (take 128 (trim (or_unknown (or_else ip [])))))

-- `enforceAdminLoginRateLimit`.
unfoldable pub enforce_admin_login_rate_limit : LoginEnv → Option Text → LoginDecision
unfolding login_key login_unavailable
enforce_admin_login_rate_limit env ip = elim env.limiter [
  | none ↦ login_unavailable env
  | some limit ↦ elim (limit (login_key env ip)) [
    | none ↦ login_unavailable env
    | some success ↦ if success then admitted else refused 429 login_period
  ]
]

-- `SubscriptionRateLimitEnv`, with the HMAC under `NODE_HMAC_SECRET`.
pub record SubscriptionEnv : Type 0 where
  pub sign : Text → Text
  pub required : Option Text
  pub source_limiter : Option Limiter
  pub token_limiter : Option Limiter

pub data LimitReason : Type 0 where
  source token unavailable : LimitReason

pub data SubscriptionDecision : Type 0 where
  served : SubscriptionDecision
  denied : LimitReason → ℕ → ℕ → SubscriptionDecision

abbrev subscription_period : ℕ
subscription_period = 60

unfoldable pub source_identity : Option Text → Text
source_identity ip =
    let value = trim (or_else ip []) in if truthy value then take 128 value else unknown_source

-- `privateKey`, by the name of its scope.
unfoldable pub private_key : SubscriptionEnv → Text → Text → Text
private_key env scope value = env.sign (codes "subscription-rate-v1:" ++ (scope ++ (b':' ∷ value)))

abbrev is_token_char : ℕ → Bool
is_token_char c = is_alnum c || (c == b'_' || c == b'-')

-- `validSubscriptionToken`.
unfoldable pub valid_subscription_token : Text → Bool
valid_subscription_token t = (length t == 32) && all is_token_char t

unfoldable pub subscription_unavailable : SubscriptionEnv → SubscriptionDecision
subscription_unavailable env =
    if is_required env.required then denied unavailable 60 503 else served

-- The two calls, where both bindings are there.
unfoldable pub ask_limiters :
    SubscriptionEnv → Limiter → Limiter → Option Text → Text → SubscriptionDecision
unfolding subscription_unavailable private_key source_identity
ask_limiters env by_source by_token ip t =
    elim (by_source (private_key env (codes "source") (source_identity ip))) [
      | none ↦ subscription_unavailable env
      | some false ↦ denied source subscription_period 429
      | some true ↦ elim (by_token (private_key env (codes "token") t)) [
        | none ↦ subscription_unavailable env
        | some false ↦ denied token subscription_period 429
        | some true ↦ served
      ]
    ]

-- `enforceSubscriptionRateLimit`.
unfoldable pub enforce_subscription_rate_limit :
    SubscriptionEnv → Option Text → Text → SubscriptionDecision
unfolding ask_limiters
enforce_subscription_rate_limit env ip t = elim env.source_limiter [
  | none ↦ subscription_unavailable env
  | some by_source ↦ elim env.token_limiter [
    | none ↦ subscription_unavailable env
    | some by_token ↦ ask_limiters env by_source by_token ip t
  ]
]
