-- ===== src/Enrollment/Created.antt =====
-- What a successful `createNodeEnrollment` of packages/control-plane/src/node-enrollment.ts has done.
use opus8_cf.Base.{ℕ, ◌≡◌, Bool, false, ◌∷◌, arith, any, Text, ok, Result-cases, inl, inr}
use opus8_cf.Enrollment.Fields.{Runtime}
use opus8_cf.Enrollment.Tables.{Enrollment, NodeDb, PublicEnrollment, public_enrollment, Roots}
use opus8_cf.Enrollment.Create.{
  CreateInput, Draws, clashes, insert_enrollment, prepare_enrollment, create_node_enrollment,
}

pub create_inv :
    (rt : Runtime) (roots : Roots) (db : NodeDb) (input : CreateInput) (allow : Bool) (now : ℕ)
    (draws : Draws) (db' : NodeDb) (shown : PublicEnrollment) (token : Text)
    → create_node_enrollment rt roots db input allow now draws ≡ ok (db', shown, token)
    → (row : Enrollment) × (prepare_enrollment rt roots.current db input allow now draws ≡ ok row)
      × (insert_enrollment db row ≡ ok db')
      × (shown ≡ public_enrollment rt row now)
      × (token ≡ draws.token)
unfolding create_node_enrollment
create_inv rt roots db input allow now draws db' shown token e =
    elim (Result-cases (prepare_enrollment rt roots.current db input allow now draws)) [
      | inr (bad, b) ↦ ground arith
      | inl (row, p) ↦ elim (Result-cases (insert_enrollment db row)) [
        | inr (bad, b) ↦ ground arith
        | inl (left, i) ↦ (row, p, ground arith, ground arith, ground arith)
      ]
    ]

pub insert-enrollments :
    (db db' : NodeDb) (row : Enrollment)
    → insert_enrollment db row ≡ ok db'
    → (db'.enrollments ≡ row ∷ db.enrollments)
      × (db'.nodes ≡ db.nodes)
      × (db'.credentials ≡ db.credentials)
      × (any (clashes row) db.enrollments ≡ false)
unfolding insert_enrollment
insert-enrollments db db' row h = ground arith
