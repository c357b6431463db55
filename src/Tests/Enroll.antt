-- ===== src/Tests/Enroll.antt =====
-- The way of one enrollment through the control plane.
use opus8_cf.Transport.{
  check_path, is_dot_segment, normalize_text, normalize_transport_path, safe_path, under,
}
use opus8_cf.Base.{
  update_where, text_eq, trim, ℕ, ◌≡◌, refl, ◌≢◌, ◌≤◌, arith, List, [], ◌∷◌, some, none, codes,
  true, false, includes, str, ok, err, first_where, count_where, has_text, split, split_from,
  starts_with, trim_start,
}
use mathlib.Core.List.{head?}
use opus8_cf.Nodes.{get_node, NodeReport, healthy}
use opus8_cf.Enrollment.Fields.{
  normalize_account_id, node_id_pattern, valid_node_id, no_enrollment, enrollment_used, bad_label,
  check_hostname, drop_last_dot, label_pattern, normalize_account_alias, normalize_capabilities,
  normalize_hostname, normalize_preferred_ip, normalize_region, parse_capabilities,
}
use opus8_cf.Enrollment.Tables.{
  root_candidates, Enrollment, NodeDb, PublicEnrollment, provision, migrate, pending,
  public_enrollment, enrollment_token_hash, derive_node_secret, Slot, AuthMode,
}
use opus8_cf.Enrollment.Create.{
  create_node_enrollment, exchange_node_enrollment, revoke_node_enrollment, issue_enrollment,
  is_live, prepare_enrollment, insert_enrollment, kind_of, requested_path, same_identity,
  ttl_in_range, ttl_of, valid_token,
}
use opus8_cf.Enrollment.Candidates.{node_auth_secret_candidates, derived, isolated_current}
use opus8_cf.Enrollment.Activate.{activate_node_enrollment, commit_activation, check_activation}
use opus8_cf.Enrollment.SingleUse.{exchange_twice}
use opus8_cf.Enrollment.Distinct.{secrets}
use opus8_cf.Enrollment.Rotation.{activate-before}
use opus8_cf.Enrollment.Reenroll.{late_activation, migrate-root}
use opus8_cf.Enrollment.History.{start, next, look, insert, exchange, withdraw}
use opus8_cf.Enrollment.Lifecycle.{History-OneLive}
use opus8_cf.Enrollment.Overlap.{overlapping_creates}
use opus8_cf.Enrollment.Create.{Draws}
use opus8_cf.Enrollment.RoundTrip.{create-exchange, activate_twice}
use opus8_cf.Tests.Sample.{
  repeat, rt, roots, account, token, empty_db, draws, create_input, exchange_input, node_1,
  handed_out, credential, rotating, register,
}

abbrev made_row : Enrollment
made_row = record {
  id = codes "e1";
  node_id = codes "n1";
  kind = provision;
  status = pending;
  account_alias = codes "main";
  account_id = account;
  hostname = codes "n1.example.com";
  region = none;
  capabilities = codes "[]";
  preferred_ip = none;
  transport_path = codes "/ws/00ff";
  token_hash = enrollment_token_hash rt (codes "root") token;
  secret_salt = codes "s1";
  expires_at = 900100;
  issued_at = none;
  activated_at = none;
  created_at = 100;
  updated_at = 100;
}

abbrev made : NodeDb
made = record empty_db { enrollments = made_row ∷ [] }

abbrev issued_db : NodeDb
issued_db = record empty_db { enrollments = issue_enrollment 200 made_row ∷ [] }

abbrev shown : PublicEnrollment
shown = public_enrollment rt (issue_enrollment 200 made_row) 200

abbrev secret : List ℕ
secret = derive_node_secret rt (codes "root") (codes "n1") (codes "s1")

create_runs :
    create_node_enrollment rt roots empty_db create_input true 100 draws
    ≡ ok (made, public_enrollment rt made_row 100, token)
unfolding create_node_enrollment insert_enrollment prepare_enrollment valid_node_id node_id_pattern
    normalize_account_alias label_pattern trim trim_start normalize_account_id normalize_hostname
    check_hostname drop_last_dot split split_from bad_label starts_with normalize_capabilities
    has_text text_eq kind_of requested_path ttl_in_range ttl_of normalize_region
    normalize_preferred_ip normalize_text check_path safe_path is_dot_segment under
    parse_capabilities first_where get_node same_identity
create_runs = refl

exchange_runs :
    exchange_node_enrollment rt roots made exchange_input 200 ≡ ok (issued_db, shown, secret)
unfolding exchange_node_enrollment valid_token valid_node_id node_id_pattern normalize_account_id
    trim trim_start first_where text_eq count_where update_where root_candidates derive_node_secret
    enrollment_token_hash
exchange_runs = refl

create-exchange_example :
    (db : NodeDb) × (shown' : PublicEnrollment) × (exchange_node_enrollment rt roots made
        (record { token = str token; node_id = str (codes "n1"); account_id = str account })
        200
      ≡ ok (db, shown', derive_node_secret rt (codes "root") (codes "n1") (codes "s1")))
unfolding public_enrollment valid_token
create-exchange_example =
    create-exchange rt roots empty_db create_input true 100 draws made
      (public_enrollment rt made_row 100) token 200 create_runs refl (omega arith)

exchange_twice_example :
    exchange_node_enrollment rt roots issued_db exchange_input 300 ≢ ok (issued_db, shown, secret)
exchange_twice_example =
    exchange_twice rt roots made exchange_input 200 issued_db shown secret exchange_input 300
      exchange_runs refl (issued_db, shown, secret)

abbrev second_draws : Draws
second_draws = record {
  path_hex = codes "00ff";
  token = repeat b'2' 64;
  id = codes "e2";
  salt = codes "s2";
}

abbrev second_row : Enrollment
second_row = record made_row {
  id = codes "e2";
  token_hash = enrollment_token_hash rt (codes "root") (repeat b'2' 64);
  secret_salt = codes "s2";
}

prepare_runs :
    prepare_enrollment rt (codes "root") empty_db create_input true 100 draws ≡ ok made_row
unfolding prepare_enrollment valid_node_id node_id_pattern normalize_account_alias label_pattern
    trim trim_start normalize_account_id normalize_hostname check_hostname drop_last_dot split
    split_from bad_label starts_with normalize_capabilities has_text text_eq kind_of requested_path
    ttl_in_range ttl_of normalize_region normalize_preferred_ip normalize_text check_path safe_path
    is_dot_segment under parse_capabilities first_where get_node same_identity
prepare_runs = refl

second_runs :
    prepare_enrollment rt (codes "root") empty_db create_input true 100 second_draws ≡ ok second_row
unfolding prepare_enrollment valid_node_id node_id_pattern normalize_account_alias label_pattern
    trim trim_start normalize_account_id normalize_hostname check_hostname drop_last_dot split
    split_from bad_label starts_with normalize_capabilities has_text text_eq kind_of requested_path
    ttl_in_range ttl_of normalize_region normalize_preferred_ip normalize_text check_path safe_path
    is_dot_segment under parse_capabilities first_where get_node same_identity
second_runs = refl

-- A creation that another request's statement comes in between, an exchange and a later creation's look.
History-OneLive_example : count_where (is_live (codes "n1") 200) issued_db.enrollments ≤ 1
unfolding insert_enrollment issue_enrollment update_where revoke_node_enrollment text_eq
History-OneLive_example =
    History-OneLive rt roots 200 issued_db []
      (next 200
        (next 103
          (next 102
            (next 101 (start empty_db refl) (omega arith) (
              look empty_db create_input true 100 draws made_row refl (omega arith) prepare_runs
                refl))
            (omega arith) (withdraw (codes "e0") 102))
          (omega arith) (insert [] made_row [] {db' = made} refl refl))
        (omega arith) (exchange (codes "e1") 200))
      (codes "n1")

-- Two creations that overlap leave two open enrollments.
overlap_runs : count_where (is_live (codes "n1") 100) (second_row ∷ made_row ∷ []) ≡ 2
unfolding insert_enrollment text_eq enrollment_token_hash
overlap_runs =
    overlapping_creates rt (codes "root") empty_db made
      (record empty_db { enrollments = second_row ∷ made_row ∷ [] }) create_input create_input true
      true 100 draws second_draws made_row second_row prepare_runs second_runs refl refl refl

abbrev registered : NodeReport
registered = record {
  id = codes "n1";
  account_alias = codes "main";
  hostname = codes "n1.example.com";
  region = none;
  capabilities = some (codes "[]");
  preferred_ip = none;
  transport_path = some (codes "/ws/00ff");
  health = healthy;
  last_seen = 90;
  created_at = 50;
}

abbrev rotated : NodeDb
rotated = (commit_activation rotating handed_out registered 90).0

activate_runs :
    activate_node_enrollment rt rotating (codes "e2") register 90 95 ≡ (rotated, ok registered)
unfolding activate_node_enrollment check_activation commit_activation first_where text_eq
    normalize_hostname check_hostname drop_last_dot trim trim_start split split_from bad_label
    starts_with normalize_account_alias label_pattern normalize_transport_path normalize_text
    check_path safe_path is_dot_segment under has_text normalize_capabilities count_where
    parse_capabilities
activate_runs = refl

activate-before_example :
    includes
      (secrets (node_auth_secret_candidates rt roots rotated (codes "n1") false 100))
      (derive_node_secret rt (codes "root") (codes "n1") (codes "s1"))
    ≡ true
unfolding first_where text_eq
activate-before_example =
    activate-before rt roots rotating (codes "e2") register 90 95 rotated registered handed_out
      credential b's' b's' (codes "2") (codes "1") activate_runs refl refl refl refl refl false 100

activate_twice_example :
    activate_node_enrollment rt rotated (codes "e2") register 96 97 ≡ (rotated, err no_enrollment)
activate_twice_example =
    activate_twice rt rotating (codes "e2") register register 90 96 95 97 rotated registered
      activate_runs

late_activation_example :
    ((commit_activation
        (revoke_node_enrollment rotating (codes "e2") 80).0
        handed_out
        registered
        90).1
      ≡ some enrollment_used)
    × (head? (
          node_auth_secret_candidates rt roots
            (commit_activation
              (revoke_node_enrollment rotating (codes "e2") 80).0
              handed_out
              registered
              90).0
            (codes "n1")
            false
            100)
        ≡ some (
            derived rt
              (codes "n1")
              isolated_current
              none
              (codes "s2")
              (codes "root", Slot.current)))
late_activation_example =
    late_activation rt roots rotating handed_out registered 90 80 b's' (codes "2") false 100 refl

abbrev lapsed : NodeDb
lapsed = record {
  nodes = node_1 ∷ [];
  credentials = record credential { auth_mode = AuthMode.revoked; current_salt = none } ∷ [];
  enrollments = [];
}

reenroll_runs :
    prepare_enrollment rt (codes "root") lapsed create_input false 100 draws
    ≡ ok (record made_row { kind = migrate })
unfolding prepare_enrollment valid_node_id node_id_pattern normalize_account_alias label_pattern
    trim trim_start normalize_account_id normalize_hostname check_hostname drop_last_dot split
    split_from bad_label starts_with normalize_capabilities has_text text_eq kind_of requested_path
    ttl_in_range ttl_of normalize_region normalize_preferred_ip normalize_text check_path safe_path
    is_dot_segment under parse_capabilities first_where get_node same_identity
reenroll_runs = refl

migrate-root_example :
    includes
      (secrets (node_auth_secret_candidates rt roots rotated (codes "n1") false 100))
      (codes "root")
    ≡ true
unfolding first_where text_eq
migrate-root_example =
    migrate-root rt roots rotating (codes "e2") register 90 95 rotated registered handed_out b's'
      (codes "2") false 100 activate_runs refl refl refl
