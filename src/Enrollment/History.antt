-- ===== src/Enrollment/History.antt =====
-- Histories of the node tables: the reads and the writes of the operations, in every order.
use opus8_cf.Base.{ℕ, ◌≤◌, ◌≡◌, Bool, false, List, [], ◌∷◌, ◌++◌, any, Text, ok, update_where}
use opus8_cf.Nodes.{NodeReport}
use opus8_cf.Enrollment.Fields.{Runtime}
use opus8_cf.Enrollment.Tables.{Enrollment, NodeDb, Roots, for_node}
use opus8_cf.Enrollment.Create.{
  CreateInput, Draws, insert_enrollment, prepare_enrollment, revoke_node_enrollment, claimable,
  issue_enrollment,
}
use opus8_cf.Enrollment.Activate.{
  commit_activation, revoke_node_credential, retire_previous_node_credential,
  delete_node_registration,
}

-- One statement or batch at time `now`, between which other requests may run. `under_way` has the rows of
-- the creations that have looked for open enrollments and have not inserted their row yet.
--
-- A creation looks for open enrollments of its node, with a clock that was read at `began`; what it has
-- read of the other tables may be older. It is not begun while another creation for the node is under way.
-- Later it inserts its row, or it is given up. An exchange and an activation may have read anything before
-- they write, and their clocks may be late.
pub data Step (rt : Runtime) (roots : Roots) (now : ℕ) (db : NodeDb) (under_way : List Enrollment)
    : NodeDb → List Enrollment → Type 0 where
  look :
      (read : NodeDb) (input : CreateInput) (allow : Bool) (began : ℕ) (draws : Draws)
      (row : Enrollment)
      → read.enrollments ≡ db.enrollments
      → began ≤ now
      → prepare_enrollment rt roots.current read input allow began draws ≡ ok row
      → any (for_node row.node_id) under_way ≡ false
      → Step rt roots now db under_way db (row ∷ under_way)
  insert :
      (before : List Enrollment) (row : Enrollment) (after : List Enrollment) {db' : NodeDb}
      → under_way ≡ before ++ (row ∷ after)
      → insert_enrollment db row ≡ ok db'
      → Step rt roots now db under_way db' (before ++ after)
  give_up :
      (before : List Enrollment) (row : Enrollment) (after : List Enrollment)
      → under_way ≡ before ++ (row ∷ after)
      → Step rt roots now db under_way db (before ++ after)
  exchange :
      (id : Text) (t : ℕ)
      → Step rt roots now db under_way
          (record db {
            enrollments = update_where (claimable id t) (issue_enrollment t) db.enrollments;
          })
          under_way
  activate :
      (row : Enrollment) (report : NodeReport) (t : ℕ)
      → Step rt roots now db under_way (commit_activation db row report t).0 under_way
  withdraw :
      (id : Text) (t : ℕ)
      → Step rt roots now db under_way (revoke_node_enrollment db id t).0 under_way
  revoke :
      (id : Text) (t : ℕ)
      → Step rt roots now db under_way (revoke_node_credential db id t).0 under_way
  retire :
      (id : Text) (t : ℕ)
      → Step rt roots now db under_way (retire_previous_node_credential db id t).0 under_way
  delete : (id : Text) → Step rt roots now db under_way (delete_node_registration db id).0 under_way
  -- Any other statement, which leaves the enrollments.
  elsewhere :
      (db' : NodeDb)
      → db'.enrollments ≡ db.enrollments
      → Step rt roots now db under_way db' under_way

-- Time does not run backwards between the steps.
pub data History (rt : Runtime) (roots : Roots) : ℕ → NodeDb → List Enrollment → Type 0 where
  start : (db : NodeDb) → db.enrollments ≡ [] → History rt roots 0 db []
  next :
      {t : ℕ} {db db' : NodeDb} {rows rows' : List Enrollment} (now : ℕ)
      → History rt roots t db rows
      → t ≤ now
      → Step rt roots now db rows db' rows'
      → History rt roots now db' rows'
