-- ===== src/Enrollment/SingleUse.antt =====
-- Exchanges of one token by `exchangeNodeEnrollment` (packages/control-plane/src/node-
-- enrollment.ts).
use opus8_cf.Base.{
  ℕ, ◌<◌, ◌≡◌, refl, ap, ◌∙◌, sym, ◌≢◌, true, List, some, arith, if◌then◌else◌, Text, text_eq_iff,
  text_eq_refl, ok, first_where, update_where, count_where, first-update, Option-cases, lt→ltb,
  Bool-cases, inl, inr,
}
use opus8_cf.Enrollment.Fields.{Runtime, valid_node_id, normalize_account_id}
use opus8_cf.Enrollment.Tables.{
  Enrollment, NodeDb, PublicEnrollment, pending, is_pending, Status, public_enrollment, Roots, Slot,
  root_candidates, derive_node_secret,
}
use opus8_cf.Enrollment.Create.{
  ExchangeInput, valid_token, has_hash, claimable, issue_enrollment, exchange_node_enrollment,
}

-- What an exchange that succeeds has found and done.
pub record IsExchange (rt : Runtime) (roots : Roots) (db : NodeDb) (input : ExchangeInput) (now : ℕ)
    (db' : NodeDb) (shown : PublicEnrollment) (secret : Text) : Type 0 where
  pub token : Text
  pub row : Enrollment
  pub well_formed : valid_token input.token ≡ some token
  pub found : first_where (has_hash rt (root_candidates roots) token) db.enrollments ≡ some row
  pub was_pending : row.status ≡ pending
  pub unexpired : now < row.expires_at
  pub node : valid_node_id input.node_id ≡ some row.node_id
  pub account : normalize_account_id input.account_id ≡ some row.account_id
  pub unique : count_where (claimable row.id now) db.enrollments ≡ 1
  pub db_after : db' ≡ record db {
    enrollments = update_where (claimable row.id now) (issue_enrollment now) db.enrollments;
  }
  pub shown_row : shown ≡ public_enrollment rt (issue_enrollment now row) now
  pub handed_out : secret ≡ derive_node_secret rt roots.current row.node_id row.secret_salt

is_pending-eq : (s : Status) → is_pending s ≡ true → s ≡ pending
is_pending-eq pending h = refl
is_pending-eq _ h = cc

module _ (rt : Runtime) (roots : Roots) (db : NodeDb) (input : ExchangeInput) (now : ℕ) where
  pub exchange_node_enrollment-IsExchange :
      (db' : NodeDb) (shown : PublicEnrollment) (secret : Text)
      → exchange_node_enrollment rt roots db input now ≡ ok (db', shown, secret)
      → IsExchange rt roots db input now db' shown secret
  unfolding exchange_node_enrollment
  exchange_node_enrollment-IsExchange db' shown secret e =
      elim (Option-cases (valid_token input.token)) [
        | inl no_token ↦ ground arith
        | inr (token, t) ↦ elim (Option-cases (valid_node_id input.node_id)) [
          | inl no_node ↦ ground arith
          | inr (node_id, n) ↦ elim (Option-cases (normalize_account_id input.account_id)) [
            | inl no_account ↦ ground arith
            | inr (account, a) ↦
                elim (Option-cases
                  (first_where (has_hash rt (root_candidates roots) token) db.enrollments)) [
                    | inl no_row ↦ ground arith
                    | inr (row, r) ↦ record {
                      token = token;
                      row = row;
                      well_formed = t;
                      found = r;
                      was_pending = ground (arith, is_pending-eq row.status);
                      unexpired = ground arith;
                      node = ground (arith, text_eq_iff row.node_id node_id);
                      account = ground (arith, text_eq_iff row.account_id account);
                      unique = ground arith;
                      db_after = ground arith;
                      shown_row = ground arith;
                      handed_out = ground arith;
                    }
                  ]
          ]
        ]
      ]

has_hash-issue :
    (rt : Runtime) (roots : List (Text × Slot)) (token id : Text) (now : ℕ) (e : Enrollment)
    → has_hash rt roots token (if claimable id now e then issue_enrollment now e else e)
      ≡ has_hash rt roots token e
unfolding issue_enrollment
has_hash-issue rt roots token id now e = elim (Bool-cases (claimable id now e)) [
  | inl yes_claimable ↦ rw yes_claimable refl
  | inr not_claimable ↦ rw not_claimable refl
]

claimable_row :
    (e : Enrollment) (now : ℕ)
    → e.status ≡ pending
    → now < e.expires_at
    → claimable e.id now e ≡ true
claimable_row e now p u = rw (text_eq_refl e.id, p) (lt→ltb _ _ u)

issued-ne-pending : (e : Enrollment) (now : ℕ) → (issue_enrollment now e).status ≢ pending
unfolding issue_enrollment
issued-ne-pending e now h = cc

some-inj : {a b : Text} → some a ≡ some b → a ≡ b
some-inj h = cc

module _ (rt : Runtime) (roots : Roots) (db : NodeDb) (input : ExchangeInput) (now : ℕ) where
  -- The row that the token names after an exchange of it is the same row, issued.
  pub exchange-found :
      (db' : NodeDb) (shown : PublicEnrollment) (secret : Text)
      (x : IsExchange rt roots db input now db' shown secret)
      → first_where (has_hash rt (root_candidates roots) x.token) db'.enrollments
        ≡ some (issue_enrollment now x.row)
  exchange-found db' shown secret x = rw x.db_after (
      rw (claimable_row x.row now x.was_pending x.unexpired) at (
        first-update (claimable x.row.id now) (has_hash rt (root_candidates roots) x.token)
          (issue_enrollment now) db.enrollments x.row
          (has_hash-issue rt (root_candidates roots) x.token x.row.id now) x.found))

  exchanges_clash :
      (db' db'' : NodeDb) (shown shown' : PublicEnrollment) (secret secret' : Text)
      (input' : ExchangeInput) (now' : ℕ)
      → input'.token ≡ input.token
      → IsExchange rt roots db input now db' shown secret
      → IsExchange rt roots db' input' now' db'' shown' secret'
      → ⊥
  exchanges_clash db' db'' shown shown' secret secret' input' now' same x y =
      let tokens : y.token ≡ x.token =
        some-inj (sym y.well_formed ∙ ap valid_token same ∙ x.well_formed) in
      let rows : some y.row ≡ some (issue_enrollment now x.row) =
        sym y.found
        ∙ ap (λ t. first_where (has_hash rt (root_candidates roots) t) db'.enrollments) tokens
        ∙ exchange-found db' shown secret x in
      issued-ne-pending x.row now (cc (rows, y.was_pending))

  -- On the tables that the exchange of a token leaves, no exchange of the same token succeeds,
  -- whatever the rest of its input is and whenever it is tried.
  pub exchange_twice :
      (db' : NodeDb) (shown : PublicEnrollment) (secret : Text) (input' : ExchangeInput) (now' : ℕ)
      → exchange_node_enrollment rt roots db input now ≡ ok (db', shown, secret)
      → input'.token ≡ input.token
      → (r : NodeDb × PublicEnrollment × Text)
      → exchange_node_enrollment rt roots db' input' now' ≢ ok r
  exchange_twice db' shown secret input' now' e same (db'', shown', secret') e' =
      exchanges_clash db' db'' shown shown' secret secret' input' now' same
        (exchange_node_enrollment-IsExchange rt roots db input now db' shown secret e)
        (exchange_node_enrollment-IsExchange rt roots db' input' now' db'' shown' secret' e')
