-- ===== src/Enrollment/Prepared.antt =====
-- What `createNodeEnrollment` has checked of an enrollment that it makes.
use opus8_cf.Base.{
  ℕ, ◌+◌, ◌*◌, ◌≤◌, ◌≡◌, refl, Bool, true, false, ◌||◌, List, Option, none, some, arith, Text,
  is_some, Number, whole, ok, first_where, Option-cases, Result-cases, inl, inr, Value, undefined,
}
use opus8_cf.Nodes.{get_node}
use opus8_cf.Transport.{normalize_text}
use opus8_cf.Enrollment.Fields.{
  Runtime, valid_node_id, normalize_account_alias, normalize_account_id, normalize_hostname,
  normalize_capabilities, parse_capabilities, normalize_region, normalize_preferred_ip, to_number,
}
use opus8_cf.Enrollment.Tables.{pending, Enrollment, NodeDb, of_node, enrollment_token_hash}
use opus8_cf.Enrollment.Create.{
  CreateInput, Draws, prepare_enrollment, kind_of, same_identity, is_live, requested_path,
  ttl_in_range, ttl_of, or_value, node_region, node_preferred_ip, node_capabilities,
  max_enrollment_ttl_ms,
}

pub record IsPrepared (rt : Runtime) (root : Text) (db : NodeDb) (input : CreateInput)
    (allow : Bool) (now : ℕ) (draws : Draws) (row : Enrollment) : Type 0 where
  pub node : valid_node_id input.node_id ≡ some row.node_id
  pub alias : normalize_account_alias input.account_alias ≡ some row.account_alias
  pub account : normalize_account_id input.account_id ≡ some row.account_id
  pub hostname : normalize_hostname input.hostname ≡ some row.hostname
  pub allowed : (is_some (get_node db.nodes row.node_id) || allow) ≡ true
  pub identity : same_identity (get_node db.nodes row.node_id) row.account_alias row.hostname ≡ true
  pub none_live : first_where (is_live row.node_id now) db.enrollments ≡ none
  pub path :
      normalize_text
        (requested_path rt input.transport_path (get_node db.nodes row.node_id) draws.path_hex)
      ≡ some row.transport_path
  pub kind :
      row.kind
      ≡ kind_of (get_node db.nodes row.node_id) (first_where (of_node row.node_id) db.credentials)
  pub is_pending : row.status ≡ pending
  pub expires_after : now + 60000 ≤ row.expires_at
  pub expires_before : row.expires_at ≤ now + max_enrollment_ttl_ms
  pub drawn_id : row.id ≡ draws.id
  pub drawn_salt : row.secret_salt ≡ draws.salt
  pub hashed : row.token_hash ≡ enrollment_token_hash rt root draws.token

ttl_in_range-bounds :
    (n : Number) (t : ℕ) → ttl_in_range n ≡ some t → (60 ≤ t) × (t * 1000 ≤ max_enrollment_ttl_ms)
unfolding ttl_in_range
ttl_in_range-bounds (whole n) t h = ground arith
ttl_in_range-bounds _ t h = cc

ttl_of-bounds :
    (rt : Runtime) (v : Value) (t : ℕ)
    → ttl_of rt v ≡ some t
    → (60 ≤ t) × (t * 1000 ≤ max_enrollment_ttl_ms)
unfolding ttl_of
ttl_of-bounds rt undefined t h = ground arith
ttl_of-bounds rt v t h = ttl_in_range-bounds (to_number rt v) t h

none_of_not_some : {A : Type 0} (o : Option A) → is_some o ≡ false → o ≡ none
none_of_not_some none h = refl
none_of_not_some (some a) h = cc

module _ (rt : Runtime) (root : Text) (db : NodeDb) (input : CreateInput) (allow : Bool) (now : ℕ)
    (draws : Draws) (row : Enrollment) where
  -- The checks behind those of the four names.
  module _ (node_id alias account hostname : Text) (v : valid_node_id input.node_id ≡ some node_id)
      (a : normalize_account_alias input.account_alias ≡ some alias)
      (i : normalize_account_id input.account_id ≡ some account)
      (h : normalize_hostname input.hostname ≡ some hostname) where
    prepare_rest :
        (capabilities : List Text) (path : Text) (ttl : ℕ) (region ip : Option Text)
        → normalize_capabilities input.capabilities
            (parse_capabilities rt (node_capabilities (get_node db.nodes node_id)))
          ≡ ok capabilities
        → normalize_text
            (requested_path rt input.transport_path (get_node db.nodes node_id) draws.path_hex)
          ≡ some path
        → ttl_of rt input.ttl_seconds ≡ some ttl
        → normalize_region (or_value input.region (node_region (get_node db.nodes node_id)))
          ≡ ok region
        → normalize_preferred_ip
            (or_value input.preferred_ip (node_preferred_ip (get_node db.nodes node_id)))
          ≡ ok ip
        → prepare_enrollment rt root db input allow now draws ≡ ok row
        → IsPrepared rt root db input allow now draws row
    unfolding prepare_enrollment
    prepare_rest capabilities path ttl region ip c p t r q e =
        let same : row.node_id ≡ node_id = ground arith in
        record {
          node = ground arith;
          alias = ground arith;
          account = ground arith;
          hostname = ground arith;
          allowed = rw same (ground arith);
          identity = rw same (ground arith);
          none_live = rw same (none_of_not_some _ (ground arith));
          path = ground arith;
          kind = ground arith;
          is_pending = ground arith;
          expires_after = ground (arith, ttl_of-bounds rt input.ttl_seconds ttl t);
          expires_before = ground (arith, ttl_of-bounds rt input.ttl_seconds ttl t);
          drawn_id = ground arith;
          drawn_salt = ground arith;
          hashed = ground arith;
        }

    prepare_late :
        (capabilities : List Text) (path : Text) (ttl : ℕ)
        → normalize_capabilities input.capabilities
            (parse_capabilities rt (node_capabilities (get_node db.nodes node_id)))
          ≡ ok capabilities
        → normalize_text
            (requested_path rt input.transport_path (get_node db.nodes node_id) draws.path_hex)
          ≡ some path
        → ttl_of rt input.ttl_seconds ≡ some ttl
        → prepare_enrollment rt root db input allow now draws ≡ ok row
        → IsPrepared rt root db input allow now draws row
    unfolding prepare_enrollment
    prepare_late capabilities path ttl c p t e =
        elim (Result-cases
          (normalize_region (or_value input.region (node_region (get_node db.nodes node_id))))) [
            | inr bad ↦ ground arith
            | inl (region, r) ↦
                elim (Result-cases (
                  normalize_preferred_ip (
                    or_value input.preferred_ip (node_preferred_ip (get_node db.nodes node_id))))) [
                      | inr bad ↦ ground arith
                      | inl (ip, q) ↦ prepare_rest capabilities path ttl region ip c p t r q e
                    ]
          ]

    prepare_named :
        prepare_enrollment rt root db input allow now draws ≡ ok row
        → IsPrepared rt root db input allow now draws row
    unfolding prepare_enrollment
    prepare_named e =
        elim (Result-cases (
          normalize_capabilities input.capabilities
            (parse_capabilities rt (node_capabilities (get_node db.nodes node_id))))) [
              | inr bad ↦ ground arith
              | inl (capabilities, c) ↦
                  elim (Option-cases (
                    normalize_text (
                      requested_path rt input.transport_path (get_node db.nodes node_id)
                        draws.path_hex))) [
                          | inl bad ↦ ground arith
                          | inr (path, p) ↦ elim (Option-cases (ttl_of rt input.ttl_seconds)) [
                            | inl bad ↦ ground arith
                            | inr (ttl, t) ↦ prepare_late capabilities path ttl c p t e
                          ]
                        ]
            ]

  pub prepare-IsPrepared :
      prepare_enrollment rt root db input allow now draws ≡ ok row
      → IsPrepared rt root db input allow now draws row
  unfolding prepare_enrollment
  prepare-IsPrepared e = elim (Option-cases (valid_node_id input.node_id)) [
    | inl bad ↦ ground arith
    | inr (node_id, v) ↦ elim (Option-cases (normalize_account_alias input.account_alias)) [
      | inl bad ↦ ground arith
      | inr (alias, a) ↦ elim (Option-cases (normalize_account_id input.account_id)) [
        | inl bad ↦ ground arith
        | inr (account, i) ↦ elim (Option-cases (normalize_hostname input.hostname)) [
          | inl bad ↦ ground arith
          | inr (hostname, h) ↦ prepare_named node_id alias account hostname v a i h e
        ]
      ]
    ]
  ]
