-- ===== src/Cors.antt =====
-- packages/control-plane/src/cors.ts: which requests of a browser reach the admin API.
pub mod Preflight
use opus8_cf.Base.{
  ℕ, Bool, true, false, not, ◌&&◌, ◌||◌, List, [], ◌∷◌, ◌++◌, Option, none, some, ◌==◌,
  if◌then◌else◌, or_else, is_some, all, any, keep, map, Text, codes, text_eq, includes, starts_with,
  trim, truthy, lower, upper, split, is_alnum,
}

-- A URL that was parsed.
pub record Url : Type 0 where
  pub protocol : Text
  pub username : Text
  pub password : Text
  pub pathname : Text
  pub search : Text
  pub hash : Text
  pub origin : Text

abbrev pub admin_api_prefixes : List Text
admin_api_prefixes =
    codes "/api/admin"
    ∷ codes "/api/operations"
    ∷ codes "/api/users"
    ∷ codes "/api/settings"
    ∷ codes "/api/landings"
    ∷ codes "/api/optimized-ips"
    ∷ []

abbrev pub allowed_methods : List Text
allowed_methods = codes "GET" ∷ codes "POST" ∷ codes "PUT" ∷ codes "PATCH" ∷ codes "DELETE" ∷ []

abbrev pub allowed_headers : List Text
allowed_headers = codes "authorization" ∷ codes "content-type" ∷ []

-- `s.slice(p.length)` where `s` starts with `p`.
unfoldable pub after_prefix : Text → Text → Option Text
after_prefix s [] = some s
after_prefix [] (d ∷ p) = none
after_prefix (c ∷ s) (d ∷ p) = let rest = after_prefix s p in if c == d then rest else none

abbrev is_enrollment_char : ℕ → Bool
is_enrollment_char c = is_alnum c || c == b'-'

abbrev is_node_char : ℕ → Bool
is_node_char c = is_alnum c || (c == b'.' || (c == b'_' || (c == b':' || c == b'-')))

-- `/^\/api\/node-enrollments\/[A-Za-z0-9-]+$/`.
unfoldable pub enrollment_path : Text → Bool
unfolding after_prefix
enrollment_path p = elim (after_prefix p (codes "/api/node-enrollments/")) [
  | none ↦ false
  | some id ↦ truthy id && all is_enrollment_char id
]

-- `/^\/api\/nodes\/[A-Za-z0-9._:-]+(?:\/credential(?:\/previous)?)?$/`, by the segments after
-- "/api/nodes/".
abbrev node_segments : List Text → Bool
node_segments (id ∷ []) = truthy id && all is_node_char id
node_segments (id ∷ c ∷ []) = truthy id && (all is_node_char id && text_eq c (codes "credential"))
node_segments (id ∷ c ∷ p ∷ []) =
    truthy id
    && (all is_node_char id && (text_eq c (codes "credential") && text_eq p (codes "previous")))
node_segments _ = false

unfoldable pub node_path : Text → Bool
unfolding after_prefix
node_path p = elim (after_prefix p (codes "/api/nodes/")) [
  | none ↦ false
  | some rest ↦ node_segments (split b'/' rest)
]

abbrev pub node_endpoints : List Text
node_endpoints =
    codes "/api/nodes/register"
    ∷ codes "/api/nodes/heartbeat"
    ∷ codes "/api/nodes/admission"
    ∷ codes "/api/nodes/usage"
    ∷ []

-- `isAdminApiPath`.
unfoldable pub is_admin_api_path : Text → Bool
unfolding enrollment_path node_path
is_admin_api_path p =
    if text_eq p (codes "/api/nodes") || text_eq p (codes "/api/node-enrollments")
    then true
    else if enrollment_path p
    then not (text_eq p (codes "/api/node-enrollments/exchange"))
    else if node_path p
    then not (includes node_endpoints p)
    else any (λ prefix. text_eq p prefix || starts_with p (prefix ++ codes "/")) admin_api_prefixes

abbrev pub plain_origin : Url → Bool
plain_origin u =
    (text_eq u.protocol (codes "https:") || text_eq u.protocol (codes "http:"))
    && (not (truthy u.username)
        && (not (truthy u.password)
            && ((text_eq u.pathname (codes "/") || not (truthy u.pathname))
                && (not (truthy u.search) && not (truthy u.hash)))))

-- `configuredOrigins`; `parse_url` is `new URL`, none where it throws.
unfoldable pub origins_of : (Text → Option Url) → List Text → List Text
origins_of parse_url [] = []
origins_of parse_url (v ∷ vs) =
    let rest = origins_of parse_url vs in
    if truthy (trim v)
    then elim (parse_url (trim v)) [
      | none ↦ rest
      | some u ↦ if plain_origin u then u.origin ∷ rest else rest
    ]
    else rest

unfoldable pub configured_origins : (Text → Option Url) → Option Text → List Text
unfolding origins_of
configured_origins parse_url admin_ui_origins =
    origins_of parse_url (split b',' (or_else admin_ui_origins []))

-- `ControlCorsPolicy`; the headers of the answer stand where `allowed` is true.
pub record CorsPolicy : Type 0 where
  pub admin_api : Bool
  pub origin : Option Text
  pub allowed : Bool

abbrev pub origin_listed : List Text → Option Text → Bool
origin_listed origins none = false
origin_listed origins (some o) = includes origins o

-- `controlCorsPolicy`.
unfoldable pub control_cors_policy :
    (Text → Option Url) → Option Text → Option Text → Text → CorsPolicy
unfolding is_admin_api_path configured_origins
control_cors_policy parse_url admin_ui_origins origin pathname = record {
  admin_api = is_admin_api_path pathname;
  origin = origin;
  allowed =
      is_admin_api_path pathname
      && origin_listed (configured_origins parse_url admin_ui_origins) origin;
}

pub data Refusal : Type 0 where
  not_admin_api origin_required origin_denied method_denied headers_denied : Refusal

abbrev pub requested_headers : Option Text → List Text
requested_headers headers =
    keep truthy (map (λ h. lower (trim h)) (split b',' (or_else headers [])))

abbrev has_origin : Option Text → Bool
has_origin none = false
has_origin (some o) = truthy o

-- `validateAdminPreflight`, with the two headers of the request.
unfoldable pub validate_admin_preflight : CorsPolicy → Option Text → Option Text → Option Refusal
validate_admin_preflight policy method headers =
    if not policy.admin_api
    then some not_admin_api
    else if not (has_origin policy.origin)
    then some origin_required
    else if not policy.allowed
    then some origin_denied
    else if not (includes allowed_methods (upper (or_else method [])))
    then some method_denied
    else if any (λ h. not (includes allowed_headers h)) (requested_headers headers)
    then some headers_denied
    else none
