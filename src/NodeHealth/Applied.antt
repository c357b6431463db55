-- ===== src/NodeHealth/Applied.antt =====
-- What `applyNodeHealthReport` leaves in the tables.
use opus8_cf.Base.{
  ℕ, ◌+◌, ◌≡◌, refl, ◌∙◌, true, ◌&&◌, inl, inr, List, [], ◌∷◌, arith, leb, ltb, is_some, Text,
  text_eq_refl, ok, first_where, delete_where, Bool-cases,
}
use opus8_cf.NodeHealth.Report.{Numbers, RawReport, Probe, Report, normalize_report}
use opus8_cf.NodeHealth.State.{HealthDb, RunRow, run_is, event_retention_ms}
use opus8_cf.NodeHealth.Batch.{
  Answer, answer, write_probe, write_probes, write_report, take_report, apply_report,
}

write_probe-runs :
    (old : HealthDb) (report : Report) (now : ℕ) (p : Probe) (db : HealthDb)
    → (write_probe old report now p db).runs ≡ db.runs
unfolding write_probe
write_probe-runs old report now p db = ground arith

write_probes-runs :
    (old : HealthDb) (report : Report) (now : ℕ) (ps : List Probe) (db : HealthDb)
    → (write_probes old report now ps db).runs ≡ db.runs
unfolding write_probes
write_probes-runs old report now [] db = refl
write_probes-runs old report now (p ∷ ps) db =
    write_probes-runs old report now ps (write_probe old report now p db)
    ∙ write_probe-runs old report now p db

-- A run that the retention spares is still found.
spared :
    (checked_at : ℕ) (id : Text) (runs : List RunRow)
    → is_some
        (first_where (λ r. run_is id r && leb checked_at (r.checked_at + event_retention_ms)) runs)
      ≡ true
    → is_some (
        first_where
          (run_is id)
          (delete_where (λ r. ltb (r.checked_at + event_retention_ms) checked_at) runs))
      ≡ true
unfolding first_where
spared checked_at id [] h = cc
spared checked_at id (r ∷ runs) h = ground (arith, spared checked_at id runs)

write_report-run :
    (db : HealthDb) (report : Report) (now : ℕ)
    → is_some (first_where (run_is report.run_id) (write_report db report now).runs) ≡ true
unfolding write_report first_where
write_report-run db report now =
    spared report.checked_at report.run_id _ (
      rw (write_probes-runs db report now report.results, text_eq_refl report.run_id)
        (ground arith))

take_report-run :
    (db db' : HealthDb) (report : Report) (now : ℕ) (a : Answer)
    → take_report db report now ≡ ok (db', a)
    → is_some (first_where (run_is report.run_id) db'.runs) ≡ true
unfolding take_report
take_report-run db db' report now a h =
    elim (Bool-cases (is_some (first_where (run_is report.run_id) db.runs))) [
      | inl known ↦ ground arith
      | inr new ↦ ground (arith, write_report-run db report now)
    ]

-- On the tables that a report leaves, a report of the same run changes nothing, whatever its
-- results are and whenever it comes, and is answered as a repetition without transitions.
pub report_twice :
    (rt : Numbers) (db db' : HealthDb) (input input' : RawReport) (now now' : ℕ) (a : Answer)
    (r r' : Report)
    → apply_report rt db input now ≡ ok (db', a)
    → normalize_report rt input now ≡ ok r
    → normalize_report rt input' now' ≡ ok r'
    → r'.run_id ≡ r.run_id
    → apply_report rt db' input' now' ≡ ok (db', answer true r' db'.nodes [])
unfolding apply_report take_report
report_twice rt db db' input input' now now' a r r' done first second same =
    rw (second, same, take_report-run db db' r now a (rw first at done)) refl
