-- ===== src/NodeAuth/Laws.antt =====
-- The requests that `verifyNodeRequest` (packages/control-plane/src/node-auth.ts) accepts and
-- refuses.
use mathlib.Core.List.{Memᴰ}
use opus8_cf.Base.{
  ℕ, ◌+◌, ◌≤◌, ◌≡◌, refl, ap, ◌∙◌, sym, ◌⊎◌, inl, inr, Bool, true, List, [], ◌∷◌, Option, none,
  some, arith, or_else, is_some, Bool-cases, Option-cases, subst, keep, Text, lower,
}
use opus8_cf.Enrollment.Fields.{Runtime, node_id_pattern}
use opus8_cf.Enrollment.Tables.{NodeDb}
use opus8_cf.Enrollment.Candidates.{AuthKind, legacy_root, Candidate}
use opus8_cf.Enrollment.Activate.{revoke_node_credential}
use opus8_cf.Enrollment.Revocation.{revoked-no_candidates}
use opus8_cf.Signing.{sign_window_ms, timing_safe_equal, node_signature_message_v1}
use opus8_cf.Signing.Laws.{timing_safe_equal_iff}
use opus8_cf.NodeAuth.{
  Request, NodeAuthEnv, AuthResult, valid_timestamp, valid_signature, legacy_window_open,
  legacy_node_allowed, legacy_target_allowed, candidates_for, request_candidates, first_match,
  is_legacy_kind, auth_result, message_v2, verify_v2, verify_v1, verify_signed, verify_node_request,
}

module _ (rt : Runtime) (message signature : Text) where
  first_match-mem :
      (cs : List Candidate) (c : Candidate)
      → first_match rt message signature cs ≡ some c
      → Memᴰ c cs × (lower signature ≡ rt.hmac_sign c.secret message)
  unfolding first_match
  first_match-mem [] c e = cc
  first_match-mem (x ∷ cs) c e =
      elim (Bool-cases (timing_safe_equal (rt.hmac_sign x.secret message) (lower signature))) [
        | inl hit ↦
            let same : x ≡ c = ground arith in
            (Memᴰ.head (sym same), rw (← same) (sym ((timing_safe_equal_iff _ _).0 hit)))
        | inr miss ↦ let (m, s) = first_match-mem cs c (ground arith) in (Memᴰ.tail m, s)
      ]

  mem-first_match :
      (cs : List Candidate) (c : Candidate)
      → Memᴰ c cs
      → lower signature ≡ rt.hmac_sign c.secret message
      → (d : Candidate) × (first_match rt message signature cs ≡ some d)
  unfolding first_match
  mem-first_match [] c m s = elim m [ ]
  mem-first_match (x ∷ cs) c (Memᴰ.head same) s =
      let hit : timing_safe_equal (rt.hmac_sign x.secret message) (lower signature) ≡ true =
        (timing_safe_equal_iff _ _).1
          (ap (λ (k : Candidate). rt.hmac_sign k.secret message) (sym same) ∙ sym s) in
      (x, rw hit refl)
  mem-first_match (x ∷ cs) c (Memᴰ.tail m) s =
      elim (Bool-cases (timing_safe_equal (rt.hmac_sign x.secret message) (lower signature))) [
        | inl hit ↦ (x, rw hit refl)
        | inr miss ↦ (let (d, e) = mem-first_match cs c m s in (d, rw miss e))
      ]

mem-cases : {c x : Candidate} {cs : List Candidate} → Memᴰ c (x ∷ cs) → (c ≡ x) ⊎ Memᴰ c cs
mem-cases (Memᴰ.head same) = inl same
mem-cases (Memᴰ.tail m) = inr m

keep-mem :
    (p : Candidate → Bool) (cs : List Candidate) (c : Candidate)
    → Memᴰ c (keep p cs)
    → Memᴰ c cs × (p c ≡ true)
keep-mem p [] c m = elim m [ ]
keep-mem p (x ∷ cs) c m = elim (Bool-cases (p x)) [
  | inl kept ↦ elim (mem-cases (rw kept at m)) [
    | inl same ↦ (Memᴰ.head same, ap p same ∙ kept)
    | inr deeper ↦ (let (later, h) = keep-mem p cs c deeper in (Memᴰ.tail later, h))
  ]
  | inr dropped ↦ (let (later, h) = keep-mem p cs c (rw dropped at m) in (Memᴰ.tail later, h))
]

-- How the signature of an accepted request was checked: under v2, or, where the request has no v2
-- signature, under v1 with the candidate a shared root, and all the limits of v1 kept.
pub data IsSigned (rt : Runtime) (r : Request) (env : NodeAuthEnv) (body : Text) (now : ℕ)
    (a : AuthResult) : Type 0 where
  by_v2 :
      (signature : Text)
      → a.version ≡ 2
      → r.sign_v2 ≡ some signature
      → lower signature ≡ rt.hmac_sign a.secret (message_v2 r (or_else r.ts []) a.node_id body)
      → IsSigned rt r env body now a
  by_v1 :
      a.version ≡ 1
      → r.sign_v2 ≡ none
      → a.auth_kind ≡ legacy_root
      → legacy_window_open rt env now ≡ true
      → legacy_node_allowed env a.node_id ≡ true
      → legacy_target_allowed r a.node_id ≡ true
      → lower (or_else r.sign [])
        ≡ rt.hmac_sign a.secret (node_signature_message_v1 (or_else r.ts []) a.node_id body)
      → IsSigned rt r env body now a

pub record IsGenuine (rt : Runtime) (r : Request) (env : NodeAuthEnv) (body : Text) (now : ℕ)
    (a : AuthResult) : Type 0 where
  pub timed : valid_timestamp (or_else r.ts []) ≡ some a.timestamp
  pub named : or_else r.node [] ≡ a.node_id
  pub well_named : node_id_pattern a.node_id ≡ true
  pub not_late : now ≤ a.timestamp + sign_window_ms
  pub not_early : a.timestamp ≤ now + sign_window_ms
  pub candidate : Candidate
  pub listed : Memᴰ candidate (request_candidates rt r env a.node_id now)
  pub secret : candidate.secret ≡ a.secret
  pub kind : candidate.auth_kind ≡ a.auth_kind
  pub signed : IsSigned rt r env body now a

auth_result-candidate :
    (version : ℕ) (id : Text) (timestamp : ℕ) (o : Option Candidate) (a : AuthResult)
    → auth_result version id timestamp o ≡ some a
    → (c : Candidate) × (o ≡ some c)
      × (a.node_id ≡ id)
      × (a.timestamp ≡ timestamp)
      × (a.version ≡ version)
      × (c.secret ≡ a.secret)
      × (c.auth_kind ≡ a.auth_kind)
unfolding auth_result
auth_result-candidate version id timestamp none a e = cc
auth_result-candidate version id timestamp (some c) a e =
    (c, refl, ground arith, ground arith, ground arith, ground arith, ground arith)

is_legacy_kind-eq : (k : AuthKind) → is_legacy_kind k ≡ true → k ≡ legacy_root
is_legacy_kind-eq legacy_root h = refl
is_legacy_kind-eq _ h = cc

module _ (rt : Runtime) (r : Request) (env : NodeAuthEnv) (body : Text) (now timestamp : ℕ)
    (a : AuthResult) where
  -- What the two branches give of an accepted request.
  abbrev Accepted : Type 0
  Accepted =
      (c : Candidate) × Memᴰ c (request_candidates rt r env (or_else r.node []) now)
      × (c.secret ≡ a.secret)
      × (c.auth_kind ≡ a.auth_kind)
      × (a.node_id ≡ or_else r.node [])
      × (a.timestamp ≡ timestamp)
      × IsSigned rt r env body now a

  v2_accepted :
      (signature : Text)
      → r.sign_v2 ≡ some signature
      → verify_v2 rt r
          (or_else r.ts [])
          (or_else r.node [])
          timestamp
          body
          (request_candidates rt r env (or_else r.node []) now)
          signature
        ≡ some a
      → Accepted
  unfolding verify_v2
  v2_accepted signature given e =
      let id = or_else r.node [] in
      let (c, hit, named, timed, version, secret, kind) =
        auth_result-candidate 2 id timestamp _ a (ground arith) in
      let (listed, signed) =
        first_match-mem rt (message_v2 r (or_else r.ts []) id body) signature _ c hit in
      (
        c,
        listed,
        secret,
        kind,
        named,
        timed,
        by_v2 signature version given (rw (named, ← secret) signed),
      )

  v1_accepted :
      r.sign_v2 ≡ none
      → verify_v1 rt r env
          (or_else r.ts [])
          (or_else r.node [])
          timestamp
          now
          body
          (request_candidates rt r env (or_else r.node []) now)
        ≡ some a
      → Accepted
  unfolding verify_v1
  v1_accepted absent e =
      let id = or_else r.node [] in
      let (c, hit, named, timed, version, secret, kind) =
        auth_result-candidate 1 id timestamp _ a (ground arith) in
      let (kept, signed) =
        first_match-mem rt (node_signature_message_v1 (or_else r.ts []) id body) (or_else r.sign [])
          _ c hit in
      let (listed, legacy) = keep-mem (λ k. is_legacy_kind k.auth_kind) _ c kept in
      (
        c,
        listed,
        secret,
        kind,
        named,
        timed,
        by_v1 version absent (sym kind ∙ is_legacy_kind-eq c.auth_kind legacy) (ground arith)
            (rw named (ground arith)) (rw named (ground arith)) (rw (named, ← secret) signed),
      )

  signed_accepted :
      verify_signed rt r env body now (or_else r.ts []) timestamp (or_else r.node []) ≡ some a
      → Accepted
  unfolding verify_signed
  signed_accepted e = elim (Option-cases r.sign_v2) [
    | inl absent ↦ v1_accepted absent (rw (absent, verify_signed) at e)
    | inr (signature, given) ↦ v2_accepted signature given (rw (given, verify_signed) at e)
  ]

-- A request that is accepted came within five minutes of its time stamp, names a node in the
-- allowed form, and is signed under a secret that is a candidate of that node; under v1 only if it
-- has no v2 signature and v1 is still open for the node and the target, and then under a shared
-- root.
pub verify-IsGenuine :
    (rt : Runtime) (r : Request) (env : NodeAuthEnv) (body : Text) (now : ℕ) (a : AuthResult)
    → verify_node_request rt r env body now ≡ some a
    → IsGenuine rt r env body now a
unfolding verify_node_request
verify-IsGenuine rt r env body now a e = elim (Option-cases (valid_timestamp (or_else r.ts []))) [
  | inl bad ↦ ground arith
  | inr (timestamp, t) ↦
      let (c, listed, secret, kind, named, timed, signed) =
        signed_accepted rt r env body now timestamp a (ground arith) in
      record {
        timed = rw timed t;
        named = sym named;
        well_named = rw named (ground arith);
        not_late = rw timed (ground arith);
        not_early = rw timed (ground arith);
        candidate = c;
        listed = rw named listed;
        secret = secret;
        kind = kind;
        signed = signed;
      }
]

no_member : {c : Candidate} → Memᴰ c [] → ⊥
no_member m = elim m [ ]

-- No candidate, no acceptance.
refused_without_candidates :
    (rt : Runtime) (r : Request) (env : NodeAuthEnv) (body : Text) (now : ℕ)
    → request_candidates rt r env (or_else r.node []) now ≡ []
    → verify_node_request rt r env body now ≡ none
refused_without_candidates rt r env body now h =
    elim (Option-cases (verify_node_request rt r env body now)) [
      | inl refused ↦ refused
      | inr (a, accepted) ↦
          let g = verify-IsGenuine rt r env body now a accepted in
          let empty : request_candidates rt r env a.node_id now ≡ [] =
            subst (λ (t : Text). request_candidates rt r env t now ≡ []) g.named h in
          absurd (no_member (subst (λ (cs : List Candidate). Memᴰ g.candidate cs) empty g.listed))
    ]

-- On the tables that `revokeNodeCredential` leaves for a node, no request in the name of the
-- node is accepted, whatever it is signed with and at whatever time.
pub revoked_refused :
    (rt : Runtime) (r : Request) (env : NodeAuthEnv) (db : NodeDb) (id body : Text)
    (revoked_at now : ℕ)
    → env.db ≡ some (revoke_node_credential db id revoked_at).0
    → or_else r.node [] ≡ id
    → verify_node_request rt r env body now ≡ none
unfolding request_candidates candidates_for
revoked_refused rt r env db id body revoked_at now stored named =
    refused_without_candidates rt r env body now
      (rw (stored, named) (revoked-no_candidates rt env.roots db id revoked_at _ now))

-- A request that is well formed, in time and signed under one of the node's candidates is
-- accepted under v2, where its v2 signature reads as 64 hexadecimal digits.
pub signed_accepted_v2 :
    (rt : Runtime) (r : Request) (env : NodeAuthEnv) (body signature : Text) (now timestamp : ℕ)
    (c : Candidate)
    → valid_timestamp (or_else r.ts []) ≡ some timestamp
    → node_id_pattern (or_else r.node []) ≡ true
    → now ≤ timestamp + sign_window_ms
    → timestamp ≤ now + sign_window_ms
    → r.sign_v2 ≡ some signature
    → valid_signature signature ≡ true
    → Memᴰ c (request_candidates rt r env (or_else r.node []) now)
    → lower signature
      ≡ rt.hmac_sign c.secret (message_v2 r (or_else r.ts []) (or_else r.node []) body)
    → is_some (verify_node_request rt r env body now) ≡ true
unfolding verify_node_request verify_signed verify_v2 auth_result
signed_accepted_v2 rt r env body signature now timestamp c timed named late early given valid listed
      signed =
    let (d, hit) =
      mem-first_match rt (message_v2 r (or_else r.ts []) (or_else r.node []) body) signature _ c
        listed signed in
    ground (arith, timed, named, given, valid, hit)
