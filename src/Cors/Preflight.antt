-- ===== src/Cors/Preflight.antt =====
-- Which paths and origins packages/control-plane/src/cors.ts opens to a browser.
use opus8_cf.Base.{
  ℕ, ◌≡◌, ◌≢◌, refl, arith, Bool, true, false, not, ◌&&◌, [], ◌∷◌, ◌++◌, Option, none, some, any,
  All, Text, codes, text_eq, includes, or_else, upper, split, split_from, starts_with,
  if◌then◌else◌,
}
use mathlib.Core.List.{reverse}
use opus8_cf.Cors.{
  Url, is_admin_api_path, node_path, enrollment_path, after_prefix, configured_origins,
  origin_listed, control_cors_policy, allowed_methods, allowed_headers, requested_headers,
  validate_admin_preflight, not_admin_api, origin_required, origin_denied, method_denied,
  headers_denied,
}

split_from-segment :
    (sep : ℕ) (cur id rest : Text)
    → All (λ c. c ≢ sep) id
    → (first : Text) × (split_from sep cur (id ++ (sep ∷ rest)) ≡ first ∷ split_from sep [] rest)
unfolding split_from
split_from-segment sep cur [] rest h = (reverse cur, ground arith)
split_from-segment sep cur (c ∷ id) rest h =
    let (first, e) = split_from-segment sep (c ∷ cur) id rest h.1 in (first, ground (arith, h.0, e))

-- What a preflight that is answered shows.
pub record IsAnswered (parse_url : Text → Option Url) (listed : Option Text) (origin : Option Text)
    (pathname : Text) (method headers : Option Text) : Type 0 where
  pub admin : is_admin_api_path pathname ≡ true
  pub from_listed : origin_listed (configured_origins parse_url listed) origin ≡ true
  pub by_method : includes allowed_methods (upper (or_else method [])) ≡ true
  pub with_headers : any (λ h. not (includes allowed_headers h)) (requested_headers headers) ≡ false

-- The chain of tests, on their outcomes.
chain_passed :
    (a b c d e : Bool)
    → (if not a
        then some not_admin_api
        else if not b
        then some origin_required
        else if not c
        then some origin_denied
        else if not d
        then some method_denied
        else if e
        then some headers_denied
        else none)
      ≡ none
    → (a ≡ true) × (c ≡ true) × (d ≡ true) × (e ≡ false)
chain_passed a b c d e h = ground arith

both : (a b : Bool) → (a && b) ≡ true → (a ≡ true) × (b ≡ true)
both a b h = ground arith

-- A preflight is answered only for a path of the admin API, from an origin that the configuration
-- lists, and for a method and headers that are allowed.
pub preflight-IsAnswered :
    (parse_url : Text → Option Url) (listed origin : Option Text) (pathname : Text)
    (method headers : Option Text)
    → validate_admin_preflight (control_cors_policy parse_url listed origin pathname) method headers
      ≡ none
    → IsAnswered parse_url listed origin pathname method headers
unfolding validate_admin_preflight control_cors_policy
preflight-IsAnswered parse_url listed origin pathname method headers h =
    let (admin, allowed, by_method, with_headers) =
      chain_passed (is_admin_api_path pathname) _ _ _ _ h in
    record {
      admin = admin;
      from_listed = (both (is_admin_api_path pathname) _ allowed).1;
      by_method = by_method;
      with_headers = with_headers;
    }

uuids-segments :
    (id : Text)
    → All (λ c. c ≢ b'/') id
    → (first : Text) × (split b'/' (id ++ codes "/uuids") ≡ first ∷ codes "uuids" ∷ [])
unfolding split split_from
uuids-segments id h = split_from-segment b'/' [] id (codes "uuids") h

uuids-not_node :
    (id : Text)
    → All (λ c. c ≢ b'/') id
    → node_path (codes "/api/nodes/" ++ (id ++ codes "/uuids")) ≡ false
unfolding node_path after_prefix text_eq
uuids-not_node id h = let (first, e) = uuids-segments id h in rw e (ground arith)

-- The paths under which nodes fetch their policy are no paths of the admin API, for any id that
-- holds no slash: a browser of another origin gets no answer there.
pub uuids-not_admin :
    (id : Text)
    → All (λ c. c ≢ b'/') id
    → is_admin_api_path (codes "/api/nodes/" ++ (id ++ codes "/uuids")) ≡ false
unfolding is_admin_api_path enrollment_path after_prefix text_eq starts_with
uuids-not_admin id h = rw (uuids-not_node id h) refl
