-- ===== src/Enrollment/Overlap.antt =====
-- Two creations of packages/control-plane/src/node-enrollment.ts that overlap.
use opus8_cf.Base.{
  ℕ, ◌≡◌, refl, Bool, true, arith, Text, ok, count_where, count_where-none, text_eq_iff,
}
use opus8_cf.Enrollment.Fields.{Runtime}
use opus8_cf.Enrollment.Tables.{Enrollment, NodeDb}
use opus8_cf.Enrollment.Create.{CreateInput, Draws, is_live, insert_enrollment, prepare_enrollment}
use opus8_cf.Enrollment.Prepared.{prepare-IsPrepared}
use opus8_cf.Enrollment.Created.{insert-enrollments}

prepared-live :
    (rt : Runtime) (root : Text) (db : NodeDb) (input : CreateInput) (allow : Bool) (now : ℕ)
    (draws : Draws) (row : Enrollment) (id : Text)
    → prepare_enrollment rt root db input allow now draws ≡ ok row
    → row.node_id ≡ id
    → is_live id now row ≡ true
prepared-live rt root db input allow now draws row id h same =
    let p = prepare-IsPrepared rt root db input allow now draws row h in
    rw ((text_eq_iff row.node_id id).1 same, p.is_pending) (ground (arith, p.expires_after))

-- Where two creations for one node both look for open enrollments before either inserts its row, and no
-- key is taken, both rows are inserted, and the node has two open enrollments.
pub overlapping_creates :
    (rt : Runtime) (root : Text) (db left left' : NodeDb) (input input' : CreateInput)
    (allow allow' : Bool) (now : ℕ) (draws draws' : Draws) (row row' : Enrollment)
    → prepare_enrollment rt root db input allow now draws ≡ ok row
    → prepare_enrollment rt root db input' allow' now draws' ≡ ok row'
    → row'.node_id ≡ row.node_id
    → insert_enrollment db row ≡ ok left
    → insert_enrollment left row' ≡ ok left'
    → count_where (is_live row.node_id now) left'.enrollments ≡ 2
unfolding count_where
overlapping_creates rt root db left left' input input' allow allow' now draws draws' row row' p p'
      same i i' =
    let live = prepared-live rt root db input allow now draws row row.node_id p refl in
    let live' : is_live row.node_id now row' ≡ true =
      prepared-live rt root db input' allow' now draws' row' row.node_id p' same in
    let none_before =
      count_where-none (is_live row.node_id now) db.enrollments
        (prepare-IsPrepared rt root db input allow now draws row p).none_live in
    rw
      (
        (insert-enrollments left left' row' i').0,
        (insert-enrollments db left row i).0,
        live',
        live,
        none_before,
      )
      refl
