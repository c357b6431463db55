-- ===== src/Enrollment/RoundTrip.antt =====
-- The way of a token through packages/control-plane/src/node-enrollment.ts: made, exchanged,
-- activated.
use opus8_cf.Base.{
  ℕ, ◌<◌, ◌≡◌, refl, Bool, true, false, ◌&&◌, List, [], ◌∷◌, none, some, arith, all, any, length,
  lower, trim_of_NoSpace, NoSpace, is_space, to_lower, Text, text_eq_iff, text_eq_refl, Value, str,
  ok, err, first_where, first_where-holds, update_where, count_where, subst,
}
use opus8_cf.Nodes.{NodeReport}
use opus8_cf.Enrollment.Fields.{
  Runtime, no_enrollment, valid_node_id, normalize_account_id, is_hex_lower,
}
use opus8_cf.Enrollment.Tables.{
  Enrollment, NodeDb, PublicEnrollment, public_enrollment, Roots, pending, root_candidates,
  enrollment_token_hash, derive_node_secret,
}
use opus8_cf.Enrollment.Create.{
  CreateInput, Draws, insert_enrollment, clashes, create_node_enrollment, exchange_node_enrollment,
  valid_token, has_hash, claimable, issue_enrollment,
}
use opus8_cf.Enrollment.Prepared.{IsPrepared, prepare-IsPrepared}
use opus8_cf.Enrollment.Created.{create_inv, insert-enrollments}
use opus8_cf.Enrollment.Activate.{
  RegisterRequest, activatable, check_activation, issued_with_id, finish_enrollment,
  activate_node_enrollment, commit_activation,
}
use opus8_cf.Enrollment.Rotation.{activate-IsActivation}

and_left : (a b : Bool) → (a && b) ≡ true → a ≡ true
and_left true b h = refl
and_left false b h = h

valid_node_id-str :
    (v : Value) (id : Text) → valid_node_id v ≡ some id → valid_node_id (str id) ≡ some id
unfolding valid_node_id
valid_node_id-str (str s) id h = ground arith
valid_node_id-str _ id h = cc

hex-lower : (c : ℕ) → is_hex_lower c ≡ true → (to_lower c ≡ c) × (is_space c ≡ false)
hex-lower c h = ground arith

hex_text : (s : Text) → all is_hex_lower s ≡ true → (lower s ≡ s) × NoSpace s
hex_text [] h = (refl, tt)
hex_text (c ∷ s) h =
    let (l, n) = hex_text s (ground arith) in
    let (lc, nc) = hex-lower c (ground arith) in (cc, (nc, n))

account_id-hex :
    (v : Value) (id : Text)
    → normalize_account_id v ≡ some id
    → (all is_hex_lower id ≡ true) × (length id ≡ 32)
unfolding normalize_account_id
account_id-hex (str s) id h = ground arith
account_id-hex _ id h = cc

account_id-str :
    (v : Value) (id : Text)
    → normalize_account_id v ≡ some id
    → normalize_account_id (str id) ≡ some id
unfolding normalize_account_id
account_id-str v id h =
    let (hex, long) = account_id-hex v id h in
    let (l, n) = hex_text id hex in rw (trim_of_NoSpace id n, l) (ground arith)

unclaimed :
    (row : Enrollment) (now : ℕ) (es : List Enrollment)
    → any (clashes row) es ≡ false
    → count_where (claimable row.id now) es ≡ 0
unfolding count_where
unclaimed row now [] h = refl
unclaimed row now (e ∷ es) h = ground (arith, unclaimed row now es)

hash_found :
    (rt : Runtime) (roots : Roots) (row : Enrollment) (token : Text) (es : List Enrollment)
    → row.token_hash ≡ enrollment_token_hash rt roots.current token
    → first_where (has_hash rt (root_candidates roots) token) (row ∷ es) ≡ some row
unfolding first_where root_candidates
hash_found rt roots row token es h =
    ground (arith, text_eq_iff row.token_hash (enrollment_token_hash rt roots.current token))

one_claim :
    (row : Enrollment) (now : ℕ) (es : List Enrollment)
    → row.status ≡ pending
    → now < row.expires_at
    → any (clashes row) es ≡ false
    → count_where (claimable row.id now) (row ∷ es) ≡ 1
unfolding count_where
one_claim row now es p u c = ground (arith, unclaimed row now es c, text_eq_refl row.id)

exchange_row :
    (rt : Runtime) (roots : Roots) (db db' : NodeDb) (input : CreateInput) (allow : Bool) (now : ℕ)
    (draws : Draws) (row : Enrollment) (later : ℕ)
    → IsPrepared rt roots.current db input allow now draws row
    → insert_enrollment db row ≡ ok db'
    → valid_token (str draws.token) ≡ some draws.token
    → later < row.expires_at
    → exchange_node_enrollment rt roots db'
        (record {
          token = str draws.token;
          node_id = str row.node_id;
          account_id = str row.account_id;
        })
        later
      ≡ ok (
        record db' {
          enrollments =
              update_where (claimable row.id later) (issue_enrollment later) db'.enrollments;
        },
        public_enrollment rt (issue_enrollment later row) later,
        derive_node_secret rt roots.current row.node_id row.secret_salt,
      )
unfolding exchange_node_enrollment
exchange_row rt roots db db' input allow now draws row later p i v l =
    let (es, _, _, fresh) = insert-enrollments db db' row i in
    let found : first_where (has_hash rt (root_candidates roots) draws.token) db'.enrollments
        ≡ some row =
      rw es (hash_found rt roots row draws.token db.enrollments p.hashed) in
    let once : count_where (claimable row.id later) db'.enrollments ≡ 1 =
      rw es (one_claim row later db.enrollments p.is_pending l fresh) in
    ground (
      arith,
      v,
      valid_node_id-str input.node_id row.node_id p.node,
      account_id-str input.account_id row.account_id p.account,
      p.is_pending,
      text_eq_refl row.node_id,
      text_eq_refl row.account_id,
    )

-- On the tables that the making of a token leaves, the token can be exchanged until it expires,
-- by the node and under the account that it was made for, and yields the secret of the row's
-- salt under the current root. (That the token is 64 hexadecimal digits is what the generator of
-- random bytes gives.)
pub create-exchange :
    (rt : Runtime) (roots : Roots) (db : NodeDb) (input : CreateInput) (allow : Bool) (now : ℕ)
    (draws : Draws) (db' : NodeDb) (shown : PublicEnrollment) (token : Text) (later : ℕ)
    → create_node_enrollment rt roots db input allow now draws ≡ ok (db', shown, token)
    → valid_token (str draws.token) ≡ some draws.token
    → later < shown.expires_at
    → (db'' : NodeDb) × (shown' : PublicEnrollment) × (exchange_node_enrollment rt roots db'
          (record {
            token = str token;
            node_id = str shown.node_id;
            account_id = str shown.account_id;
          })
          later
        ≡ ok (db'', shown', derive_node_secret rt roots.current shown.node_id draws.salt))
unfolding public_enrollment
create-exchange rt roots db input allow now draws db' shown token later e v l =
    let (row, p, i, s, t) = create_inv rt roots db input allow now draws db' shown token e in
    let prepared = prepare-IsPrepared rt roots.current db input allow now draws row p in
    rw (s, t, ← prepared.drawn_salt)
      (
        _,
        _,
        exchange_row rt roots db db' input allow now draws row later prepared i v
            (subst (λ (x : PublicEnrollment). later < x.expires_at) s l),
      )

finished :
    (id : Text) (later ts : ℕ) (es : List Enrollment)
    → first_where
        (activatable id later)
        (update_where (issued_with_id id) (finish_enrollment ts) es)
      ≡ none
unfolding first_where update_where finish_enrollment
finished id later ts [] = refl
finished id later ts (e ∷ es) = ground (arith, finished id later ts es)

-- On the tables that an activation leaves, an activation of the same enrollment fails for want
-- of an enrollment and changes nothing, whatever the request and the times are.
pub activate_twice :
    (rt : Runtime) (db : NodeDb) (id : Text) (request request' : RegisterRequest)
    (ts ts' now now' : ℕ) (db' : NodeDb) (report : NodeReport)
    → activate_node_enrollment rt db id request ts now ≡ (db', ok report)
    → activate_node_enrollment rt db' id request' ts' now' ≡ (db', err no_enrollment)
unfolding activate_node_enrollment check_activation commit_activation
activate_twice rt db id request request' ts ts' now now' db' report e =
    let a = activate-IsActivation rt db id request ts now db' report e in
    let named : a.enrollment.id ≡ id =
      (text_eq_iff a.enrollment.id id).0 (
        and_left _ _
          (first_where-holds (activatable id now) db.enrollments a.enrollment a.found)) in
    let gone : first_where (activatable id now') db'.enrollments ≡ none =
      rw (a.db_after, named) (finished id now' ts db.enrollments) in
    rw (gone, activate_node_enrollment, check_activation) refl
