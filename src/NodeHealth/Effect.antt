-- ===== src/NodeHealth/Effect.antt =====
-- What a report that `applyNodeHealthReport` takes does to each node.
use mathlib.Core.List.{Memᴰ}
use opus8_cf.Base.{
  ℕ, ◌≡◌, refl, ◌∙◌, ◌≢◌, true, false, inl, inr, List, [], ◌∷◌, some, arith, is_some, Text, text_eq,
  text_eq_iff, text_eq_refl, includes, ok, first_where, first_where-holds, first-update,
  first-update_other, first-upsert_set, first-upsert_other, Option-cases, Bool-cases,
}
use opus8_cf.Nodes.{Node, has_id, get_node}
use opus8_cf.Enrollment.Distinct.{IsDistinct}
use opus8_cf.NodeHealth.Report.{Numbers, RawReport, Probe, Report, normalize_report}
use opus8_cf.NodeHealth.State.{
  HealthDb, HealthRow, state_of, standing_of, judge, set_health, health_row, run_is,
}
use opus8_cf.NodeHealth.Batch.{
  Answer, write_probe, write_probes, write_report, drop_expired, take_report, apply_report,
}
use opus8_cf.NodeHealth.Probed.{IsProbed, health_row-IsProbed}
use opus8_cf.NodeHealth.Normal.{ids, normalize_report-IsReport}

differ : (a b : Text) → text_eq a b ≡ false → a ≢ b
differ a b h e = cc (h, (text_eq_iff a b).1 e)

other_row : (r a b : Text) → text_eq a b ≡ false → text_eq r a ≡ true → text_eq r b ≡ false
other_row r a b h k = ground (arith, text_eq_iff r a, text_eq_iff r b, text_eq_iff a b)

module _ (old : HealthDb) (report : Report) (now : ℕ) where
  -- A result about another node touches neither the node nor its counters.
  write_probe_other :
      (p : Probe) (db : HealthDb) (id : Text)
      → text_eq p.node_id id ≡ false
      → (get_node (write_probe old report now p db).nodes id ≡ get_node db.nodes id)
        × (first_where (state_of id) (write_probe old report now p db).states
            ≡ first_where (state_of id) db.states)
  unfolding write_probe get_node health_row
  write_probe_other p db id h = elim (Option-cases (get_node old.nodes p.node_id)) [
    | inl missing ↦ rw (missing, write_probe) (refl, refl)
    | inr (n, found) ↦
        let before = first_where (state_of p.node_id) old.states in
        let row = health_row report now n before p in
        rw (found, write_probe)
          (
            first-update_other (has_id p.node_id) (has_id id)
                (set_health (judge (standing_of n before) p).0.health) db.nodes (λ r. ground arith)
                (λ r k. ground (
                  arith,
                  text_eq_iff r.id p.node_id,
                  text_eq_iff r.id id,
                  text_eq_iff p.node_id id,
                )),
            first-upsert_other (state_of p.node_id) (state_of id) (λ _. row) row db.states h
                (λ r k. (h, other_row r.node_id p.node_id id h k)),
          )
  ]

  write_probe_here :
      (p : Probe) (db : HealthDb) (n : Node)
      → get_node old.nodes p.node_id ≡ some n
      → get_node db.nodes p.node_id ≡ some n
      → let before = first_where (state_of p.node_id) old.states in
        (get_node (write_probe old report now p db).nodes p.node_id
          ≡ some (set_health (judge (standing_of n before) p).0.health n))
        × (first_where (state_of p.node_id) (write_probe old report now p db).states
            ≡ some (health_row report now n before p))
  unfolding write_probe get_node health_row
  write_probe_here p db n was here =
      let before = first_where (state_of p.node_id) old.states in
      let health = (judge (standing_of n before) p).0.health in
      rw (was, write_probe)
        (
          rw (first_where-holds (has_id p.node_id) db.nodes n here) at (
              first-update (has_id p.node_id) (has_id p.node_id) (set_health health) db.nodes n
                (λ r. ground arith) here),
          first-upsert_set (state_of p.node_id) (health_row report now n before p) db.states
              (text_eq_refl p.node_id),
        )

  write_probes_other :
      (ps : List Probe) (db : HealthDb) (id : Text)
      → includes (ids ps) id ≡ false
      → (get_node (write_probes old report now ps db).nodes id ≡ get_node db.nodes id)
        × (first_where (state_of id) (write_probes old report now ps db).states
            ≡ first_where (state_of id) db.states)
  unfolding write_probes
  write_probes_other [] db id h = (refl, refl)
  write_probes_other (p ∷ ps) db id h =
      let (nodes, states) = write_probe_other p db id (ground arith) in
      let (nodes', states') =
        write_probes_other ps (write_probe old report now p db) id (ground arith) in
      (nodes' ∙ nodes, states' ∙ states)

  mem-includes : (ps : List Probe) (p : Probe) → Memᴰ p ps → includes (ids ps) p.node_id ≡ true
  mem-includes [] p m = elim m [ ]
  mem-includes (x ∷ ps) p (Memᴰ.head e) = rw (e, text_eq_refl x.node_id) refl
  mem-includes (x ∷ ps) p (Memᴰ.tail m) = ground (arith, mem-includes ps p m)

  write_probes_here :
      (ps : List Probe) (p : Probe) (db : HealthDb) (n : Node)
      → Memᴰ p ps
      → IsDistinct (ids ps)
      → get_node old.nodes p.node_id ≡ some n
      → get_node db.nodes p.node_id ≡ some n
      → let before = first_where (state_of p.node_id) old.states in
        (get_node (write_probes old report now ps db).nodes p.node_id
          ≡ some (set_health (judge (standing_of n before) p).0.health n))
        × (first_where (state_of p.node_id) (write_probes old report now ps db).states
            ≡ some (health_row report now n before p))
  unfolding write_probes
  write_probes_here [] p db n m d was here = elim m [ ]
  write_probes_here (x ∷ ps) p db n (Memᴰ.head e) (new, d) was here =
      let (nodes, states) = write_probe_here p db n was here in
      let (nodes', states') =
        write_probes_other ps (write_probe old report now p db) p.node_id (rw e new) in
      rw (← e) (nodes' ∙ nodes, states' ∙ states)
  write_probes_here (x ∷ ps) p db n (Memᴰ.tail m) (new, d) was here =
      let apart : text_eq x.node_id p.node_id ≡ false =
        ground (arith, text_eq_iff x.node_id p.node_id, mem-includes ps p m) in
      write_probes_here ps p (write_probe old report now x db) n m d was
        ((write_probe_other x db p.node_id apart).0 ∙ here)

take_report-db :
    (db db' : HealthDb) (r : Report) (now : ℕ) (a : Answer)
    → take_report db r now ≡ ok (db', a)
    → a.idempotent ≡ false
    → db' ≡ write_report db r now
unfolding take_report
take_report-db db db' r now a h i =
    elim (Bool-cases (is_some (first_where (run_is r.run_id) db.runs))) [
      | inl known ↦ ground arith
      | inr new ↦ ground arith
    ]

module _ (rt : Numbers) (db db' : HealthDb) (input : RawReport) (now : ℕ) (a : Answer)
    (r : Report) where
  applied-db :
      apply_report rt db input now ≡ ok (db', a)
      → normalize_report rt input now ≡ ok r
      → a.idempotent ≡ false
      → db' ≡ write_report db r now
  unfolding apply_report
  applied-db done normal new = take_report-db db db' r now a (rw normal at done) new

  -- A report of a new run gives each node that it names the health that the rules give for the standing
  -- before it, and changes nothing else of the node. The node's row of counters has the result: after a
  -- direct failure one failure more and no success, after a direct success no failure and one success
  -- more, so that the next report starts from the standing that the rules gave; and the times of the last
  -- success and of the last failure, of which the other one is kept.
  pub apply_report-reported :
      (p : Probe) (n : Node)
      → apply_report rt db input now ≡ ok (db', a)
      → normalize_report rt input now ≡ ok r
      → a.idempotent ≡ false
      → Memᴰ p r.results
      → get_node db.nodes p.node_id ≡ some n
      → let before = first_where (state_of p.node_id) db.states in
        (get_node db'.nodes p.node_id
          ≡ some (set_health (judge (standing_of n before) p).0.health n))
        × (row : HealthRow) × (first_where (state_of p.node_id) db'.states ≡ some row)
        × IsProbed r now n before p row
  unfolding write_report drop_expired
  apply_report-reported p n done normal new m found =
      let before = first_where (state_of p.node_id) db.states in
      let (node, state) : (get_node db'.nodes p.node_id
            ≡ some (set_health (judge (standing_of n before) p).0.health n))
          × (first_where (state_of p.node_id) db'.states ≡ some (health_row r now n before p)) =
        rw (applied-db done normal new) (
          write_probes_here db r now r.results p _ n m
            (normalize_report-IsReport rt input now r normal).distinct found found) in
      (node, health_row r now n before p, state, health_row-IsProbed r now n before p)

  -- A report of a new run leaves the health and the counters of the nodes that it does not name.
  pub apply_report-unreported :
      (id : Text)
      → apply_report rt db input now ≡ ok (db', a)
      → normalize_report rt input now ≡ ok r
      → a.idempotent ≡ false
      → includes (ids r.results) id ≡ false
      → (get_node db'.nodes id ≡ get_node db.nodes id)
        × (first_where (state_of id) db'.states ≡ first_where (state_of id) db.states)
  unfolding write_report drop_expired
  apply_report-unreported id done normal new missing =
      rw (applied-db done normal new) (write_probes_other db r now r.results _ id missing)
