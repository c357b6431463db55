-- ===== src/NodeHealth/Normal.antt =====
-- What a report that `normalizeReport` accepts is known to satisfy.
use opus8_cf.Base.{
  ℕ, ◌+◌, ◌≤◌, ◌<◌, ◌≡◌, refl, true, false, inl, inr, List, [], ◌∷◌, some, arith, length,
  length-take-le, all, map, trim, truthy, Text, text_eq_iff, text_eq_refl, includes, Value, str,
  Number, whole, ok, Option-cases, Result-cases,
}
use opus8_cf.Enrollment.Fields.{is_node_id_char}
use opus8_cf.Enrollment.Distinct.{IsDistinct}
use opus8_cf.NodeHealth.Report.{
  Numbers, RawProbe, RawReport, Probe, Report, short_id, normalize_probe, normalize_probes,
  in_window, checked_at_of, report_window_ms, normalize_report,
}

abbrev pub ids : List Probe → List Text
ids ps = map (λ p. p.node_id) ps

short_id-form :
    (v : Value) (id : Text)
    → short_id v ≡ some id
    → (truthy id ≡ true) × (all is_node_id_char id ≡ true) × (length id ≤ 128)
unfolding short_id
short_id-form (str s) id h = ground (arith, length-take-le 128 (trim s))
short_id-form _ id h = cc

normalize_probe-id :
    (rt : Numbers) (seen : List Text) (item : RawProbe) (p : Probe)
    → normalize_probe rt seen item ≡ ok p
    → (short_id item.node_id ≡ some p.node_id) × (includes seen p.node_id ≡ false)
unfolding normalize_probe
normalize_probe-id rt seen item p h = elim (Option-cases (short_id item.node_id)) [
  | inl bad ↦ ground arith
  | inr (id, good) ↦ ground arith
]

-- The identifiers are distinct, new, and as many as the entries.
normalize_probes-ids :
    (rt : Numbers) (seen : List Text) (items : List RawProbe) (ps : List Probe)
    → normalize_probes rt seen items ≡ ok ps
    → (length ps ≡ length items)
      × IsDistinct (ids ps)
      × ((t : Text) → includes seen t ≡ true → includes (ids ps) t ≡ false)
unfolding normalize_probes
normalize_probes-ids rt seen [] ps h = ground arith
normalize_probes-ids rt seen (item ∷ items) ps h =
    elim (Result-cases (normalize_probe rt seen item)) [
      | inr (e, bad) ↦ ground arith
      | inl (p, good) ↦ elim (Result-cases (normalize_probes rt (p.node_id ∷ seen) items)) [
        | inr (e, bad) ↦ ground arith
        | inl (rest, later) ↦
            let (long, distinct, new) =
              normalize_probes-ids rt (p.node_id ∷ seen) items rest later in
            let (_, unseen) = normalize_probe-id rt seen item p good in
            let shape : p ∷ rest ≡ ps = ground arith in
            rw (← shape) (
              omega (arith, long),
              (new p.node_id (rw (text_eq_refl p.node_id) refl), distinct),
              λ t k. ground (arith, text_eq_iff p.node_id t, new t, unseen, k),
            )
      ]
    ]

-- A report that was accepted.
pub record IsReport (rt : Numbers) (input : RawReport) (now : ℕ) (r : Report) : Type 0 where
  pub named : truthy r.run_id ≡ true
  pub id_chars : all is_node_id_char r.run_id ≡ true
  pub id_short : length r.run_id ≤ 128
  pub some_results : 0 < length r.results
  pub few_results : length r.results ≤ 50
  pub not_early : now ≤ r.checked_at + report_window_ms
  pub not_late : r.checked_at ≤ now + report_window_ms
  pub distinct : IsDistinct (ids r.results)

in_window-within :
    (now : ℕ) (v : Number) (t : ℕ)
    → in_window now v ≡ some t
    → (now ≤ t + report_window_ms) × (t ≤ now + report_window_ms)
unfolding in_window
in_window-within now (whole n) t h = ground arith
in_window-within now _ t h = cc

-- A report that is accepted has a short well-formed run id, between one and fifty results that each
-- concern another node, and a time no further than fifteen minutes from the clock.
pub normalize_report-IsReport :
    (rt : Numbers) (input : RawReport) (now : ℕ) (r : Report)
    → normalize_report rt input now ≡ ok r
    → IsReport rt input now r
unfolding normalize_report
normalize_report-IsReport rt input now r h = elim (Option-cases (short_id input.run_id)) [
  | inl bad ↦ ground arith
  | inr (run_id, named) ↦ elim (Option-cases input.results) [
    | inl bad ↦ ground arith
    | inr (items, given) ↦
        elim (Option-cases (in_window now (checked_at_of rt input.checked_at now))) [
          | inl bad ↦ ground arith
          | inr (t, timed) ↦ elim (Result-cases (normalize_probes rt [] items)) [
            | inr (e, bad) ↦ ground arith
            | inl (ps, good) ↦
                let (truth, chars, short) = short_id-form input.run_id run_id named in
                let (early, late) =
                  in_window-within now (checked_at_of rt input.checked_at now) t timed in
                let (long, distinct, _) = normalize_probes-ids rt [] items ps good in
                let shape : record { run_id = run_id; checked_at = t; results = ps } ≡ r =
                  ground arith in
                rw (← shape) (record {
                  named = truth;
                  id_chars = chars;
                  id_short = short;
                  some_results = ground arith;
                  few_results = ground arith;
                  not_early = early;
                  not_late = late;
                  distinct = distinct;
                })
          ]
        ]
  ]
]
