-- ===== src/Enrollment/Lifecycle.antt =====
-- A node has one open enrollment at most, in histories in which creations for it do not overlap.
use opus8_cf.Base.{
  ℕ, ◌+◌, ◌≤◌, ◌≡◌, refl, Bool, true, false, not, List, [], ◌∷◌, ◌++◌, none, arith, if◌then◌else◌,
  any, Text, text_eq, text_eq_iff, ok, first_where, update_where, count_where, count-update-le,
  count-keep-le, count_mono, count_where-none, Bool-cases, inl, inr,
}
use opus8_cf.Enrollment.Fields.{Runtime}
use opus8_cf.Enrollment.Tables.{Enrollment, NodeDb, Roots, for_node}
use opus8_cf.Enrollment.Create.{
  is_live, insert_enrollment, revoke_node_enrollment, claimable, issue_enrollment, open_with_id,
  close_enrollment,
}
use opus8_cf.Enrollment.Prepared.{prepare-IsPrepared}
use opus8_cf.Enrollment.Created.{insert-enrollments}
use opus8_cf.Enrollment.Activate.{
  commit_activation, issued_with_id, finish_enrollment, open_of_node, close_at,
  revoke_node_credential, retire_previous_node_credential, delete_node_registration,
}
use opus8_cf.Enrollment.History.{
  Step, look, insert, give_up, exchange, activate, withdraw, revoke, retire, delete, elsewhere,
  History, start, next,
}

-- No node has two enrollments that are open or under way, and not expired.
abbrev OneLive : ℕ → NodeDb → List Enrollment → Type 0
OneLive now db rows =
    (id : Text)
    → count_where (is_live id now) db.enrollments + count_where (is_live id now) rows ≤ 1

live-later :
    (id : Text) (t now : ℕ) (e : Enrollment)
    → t ≤ now
    → is_live id now e ≡ true
    → is_live id t e ≡ true
live-later id t now e h k = ground arith

OneLive-later :
    (t now : ℕ) (db : NodeDb) (rows : List Enrollment)
    → t ≤ now
    → OneLive t db rows
    → OneLive now db rows
OneLive-later t now db rows h o id = omega (
  arith,
  o id,
  count_mono (is_live id t) (is_live id now) db.enrollments (λ e. live-later id t now e h),
  count_mono (is_live id t) (is_live id now) rows (λ e. live-later id t now e h),
)

-- An update that opens no enrollment keeps the invariant.
OneLive-update :
    (now : ℕ) (db : NodeDb) (rows : List Enrollment) (s : Enrollment → Bool)
    (f : Enrollment → Enrollment)
    → ((id : Text) (e : Enrollment)
        → is_live id now (if s e then f e else e) ≡ true
        → is_live id now e ≡ true)
    → OneLive now db rows
    → (id : Text)
    → count_where (is_live id now) (update_where s f db.enrollments)
        + count_where (is_live id now) rows
      ≤ 1
OneLive-update now db rows s f h o id =
    omega (arith, o id, count-update-le (is_live id now) (is_live id now) s f db.enrollments (h id))

finish-live :
    (now t : ℕ) (x id : Text) (e : Enrollment)
    → is_live id now (if issued_with_id x e then finish_enrollment t e else e) ≡ true
    → is_live id now e ≡ true
unfolding finish_enrollment
finish-live now t x id e h = ground arith

close-live :
    (now t : ℕ) (x id : Text) (e : Enrollment)
    → is_live id now (if open_with_id x e then close_enrollment t e else e) ≡ true
    → is_live id now e ≡ true
unfolding close_enrollment
close-live now t x id e h = ground arith

close_node-live :
    (now t : ℕ) (x id : Text) (e : Enrollment)
    → is_live id now (if open_of_node x e then close_at t e else e) ≡ true
    → is_live id now e ≡ true
close_node-live now t x id e h = ground arith

issue-live :
    (now t : ℕ) (x id : Text) (e : Enrollment)
    → is_live id now (if claimable x t e then issue_enrollment t e else e) ≡ true
    → is_live id now e ≡ true
unfolding issue_enrollment
issue-live now t x id e h = ground arith

count-append :
    (p : Enrollment → Bool) (xs ys : List Enrollment)
    → count_where p (xs ++ ys) ≡ count_where p xs + count_where p ys
unfolding count_where
count-append p [] ys = omega arith
count-append p (x ∷ xs) ys = ground (arith, count-append p xs ys)

-- A row that leaves the creations under way.
count-middle :
    (p : Enrollment → Bool) (before : List Enrollment) (row : Enrollment) (after : List Enrollment)
    → count_where p (before ++ (row ∷ after)) ≡ count_where p (row ∷ (before ++ after))
unfolding count_where
count-middle p before row after =
    ground (arith, count-append p before (row ∷ after), count-append p before after)

none_under_way :
    (now : ℕ) (id : Text) (rows : List Enrollment)
    → any (for_node id) rows ≡ false
    → count_where (is_live id now) rows ≡ 0
unfolding count_where
none_under_way now id [] h = refl
none_under_way now id (x ∷ rows) h = ground (arith, none_under_way now id rows)

-- A creation that has found no open enrollment and no creation under way for its node.
looked-live :
    (now began : ℕ) (row : Enrollment) (es rows : List Enrollment) (id : Text)
    → began ≤ now
    → first_where (is_live row.node_id began) es ≡ none
    → any (for_node row.node_id) rows ≡ false
    → count_where (is_live id now) es + count_where (is_live id now) rows ≤ 1
    → count_where (is_live id now) es + count_where (is_live id now) (row ∷ rows) ≤ 1
unfolding count_where
looked-live now began row es rows id h n free o = elim (Bool-cases (text_eq row.node_id id)) [
  | inr other ↦ rw other o
  | inl same ↦
      let node : row.node_id ≡ id = (text_eq_iff row.node_id id).0 same in
      let stored : count_where (is_live id began) es ≡ 0 =
        count_where-none (is_live id began) es (rw node at n) in
      let fewer : count_where (is_live id now) es ≤ count_where (is_live id began) es =
        count_mono (is_live id began) (is_live id now) es (λ e. live-later id began now e h) in
      let free' : count_where (is_live id now) rows ≡ 0 =
        none_under_way now id rows (rw node at free) in
      ground arith
]

inserted-live :
    (now : ℕ) (id : Text) (db db' : NodeDb) (row : Enrollment) (rows : List Enrollment)
    → insert_enrollment db row ≡ ok db'
    → count_where (is_live id now) db.enrollments + count_where (is_live id now) (row ∷ rows) ≤ 1
    → count_where (is_live id now) db'.enrollments + count_where (is_live id now) rows ≤ 1
unfolding count_where
inserted-live now id db db' row rows i h = rw ((insert-enrollments db db' row i).0) (ground arith)

given_up-live :
    (now : ℕ) (id : Text) (row : Enrollment) (es rows : List Enrollment)
    → count_where (is_live id now) es + count_where (is_live id now) (row ∷ rows) ≤ 1
    → count_where (is_live id now) es + count_where (is_live id now) rows ≤ 1
unfolding count_where
given_up-live now id row es rows h = ground arith

Step-OneLive :
    (rt : Runtime) (roots : Roots) (now : ℕ) {db db' : NodeDb} {rows rows' : List Enrollment}
    → OneLive now db rows
    → Step rt roots now db rows db' rows'
    → OneLive now db' rows'
unfolding revoke_node_enrollment revoke_node_credential retire_previous_node_credential
    delete_node_registration commit_activation count_where
Step-OneLive rt roots now {db} {rows = rows} o
      (look read input allow began draws row same le p free) id =
    looked-live now began row db.enrollments rows id le
      (rw same at
        (prepare-IsPrepared rt roots.current read input allow began draws row p).none_live)
      free (o id)
Step-OneLive rt roots now {db} {db'} o (insert before row after e i) id =
    inserted-live now id db db' row (before ++ after) i
      (rw (e, count-middle (is_live id now) before row after) at (o id))
Step-OneLive rt roots now {db} o (give_up before row after e) id =
    given_up-live now id row db.enrollments (before ++ after)
      (rw (e, count-middle (is_live id now) before row after) at (o id))
Step-OneLive rt roots now {db} {rows = rows} o (exchange id t) node =
    OneLive-update now db rows (claimable id t) (issue_enrollment t) (issue-live now t id) o node
Step-OneLive rt roots now {db} {rows = rows} o (activate e report t) node =
    OneLive-update now db rows (issued_with_id e.id) (finish_enrollment t) (finish-live now t e.id)
      o node
Step-OneLive rt roots now {db} {rows = rows} o (withdraw id t) node =
    OneLive-update now db rows (open_with_id id) (close_enrollment t) (close-live now t id) o node
Step-OneLive rt roots now {db} {rows = rows} o (revoke id t) node =
    OneLive-update now db rows (open_of_node id) (close_at t) (close_node-live now t id) o node
Step-OneLive rt roots now o (retire id t) node = o node
Step-OneLive rt roots now {db} o (delete id) node = omega (
  arith,
  o node,
  count-keep-le (is_live node now) (is_live node now) (λ e. not (for_node id e)) db.enrollments
      (λ e h. h),
)
Step-OneLive rt roots now o (elsewhere db' same) node = rw same (o node)

History-AllOneLive :
    (rt : Runtime) (roots : Roots) (now : ℕ) (db : NodeDb) (rows : List Enrollment)
    → History rt roots now db rows
    → OneLive now db rows
unfolding count_where
History-AllOneLive rt roots now db rows (start _ empty) id = rw empty (omega arith)
History-AllOneLive rt roots now db rows (next {t} {db = before} {rows = flying} _ h le step) id =
    Step-OneLive rt roots now
      (OneLive-later t now before flying le (History-AllOneLive rt roots t before flying h)) step id

-- In every history that begins without enrollments a node has at most one enrollment that is open and not
-- expired at the time of the last step, however the statements of the operations interleave, as long as no
-- two creations for the same node overlap: none is begun while another one for its node has looked for open
-- enrollments and has not inserted its own yet.
pub History-OneLive :
    (rt : Runtime) (roots : Roots) (now : ℕ) (db : NodeDb) (under_way : List Enrollment)
    → History rt roots now db under_way
    → (id : Text) → count_where (is_live id now) db.enrollments ≤ 1
History-OneLive rt roots now db under_way h id =
    omega (arith, History-AllOneLive rt roots now db under_way h id)
