-- ===== src/NodeHealth/Report.antt =====
-- `normalizeReport` of packages/control-plane/src/node-health.ts, with its helpers.
use opus8_cf.Base.{
  ℕ, zero, suc, Bool, true, false, not, ◌&&◌, ◌||◌, List, [], ◌∷◌, Option, none, some, leb, ltb,
  ◌==◌, if◌then◌else◌, within, length, take, all, Text, includes, is_space, trim, truthy, Number,
  whole, Value, undefined, null, bool, num, str, obj, Result, ok, err, ◌>>=◌, ◌>>◌, guard, or_throw,
}
use opus8_cf.Enrollment.Fields.{is_node_id_char}

-- A number as the code compares and rounds it: `at n past half` is finite and not negative, n its
-- whole part, `past` whether it has a fraction and `half` whether that is a half at least.
pub data Real : Type 0 where
  at : ℕ → Bool → Bool → Real
  negative not_finite : Real

-- What is taken from the run time: `Number(v)` of an unknown value, as a real and as an integer.
pub record Numbers : Type 0 where
  pub real_of : Value → Real
  pub number_of : Value → Number

-- An entry of `results` by its fields; one that is missing is undefined. `vantages_json` is
-- `JSON.stringify(item.vantages)`.
pub record RawProbe : Type 0 where
  pub node_id : Value
  pub direct_ok : Value
  pub landing_ok : Value
  pub direct_latency_ms : Value
  pub landing_latency_ms : Value
  pub direct_error : Value
  pub landing_error : Value
  pub vantages : Value
  pub vantages_json : Text

-- `NodeHealthReportInput`: `results` is none where it is no array.
pub record RawReport : Type 0 where
  pub run_id : Value
  pub checked_at : Value
  pub results : Option (List RawProbe)

-- `NormalizedProbeResult`; the vantages stand as their JSON text.
pub record Probe : Type 0 where
  pub node_id : Text
  pub direct_ok : Bool
  pub landing_ok : Bool
  pub direct_latency_ms : Option ℕ
  pub landing_latency_ms : Option ℕ
  pub direct_error : Option Text
  pub landing_error : Option Text
  pub vantages : Option Text

pub record Report : Type 0 where
  pub run_id : Text
  pub checked_at : ℕ
  pub results : List Probe

-- The errors that are thrown.
pub data HealthError : Type 0 where
  bad_run_id no_results too_many_results out_of_window : HealthError
  bad_node_id not_boolean bad_latency bad_error : HealthError
  bad_vantages vantages_too_large : HealthError
  repeated_node : Text → HealthError
  unknown_nodes : List Text → HealthError

abbrev pub Checked : Type 0 → Type 0
Checked A = Result HealthError A

abbrev rounded : ℕ → Bool → ℕ
rounded n half = if half then suc n else n

unfoldable pub bounded_real : Real → Checked (Option ℕ)
bounded_real (at n past half) =
    if ltb 300000 n || ((n == 300000) && past) then err bad_latency else ok (some (rounded n half))
bounded_real _ = err bad_latency

-- `boundedLatency`.
unfoldable pub bounded_latency : Numbers → Value → Checked (Option ℕ)
unfolding bounded_real
bounded_latency rt undefined = ok none
bounded_latency rt null = ok none
bounded_latency rt v = bounded_real (rt.real_of v)

-- `s.replace(/\s+/g, " ")`; `within_run` tells whether the unit before was white space.
unfoldable pub collapse_spaces : Bool → Text → Text
collapse_spaces within_run [] = []
collapse_spaces within_run (c ∷ s) =
    let later = collapse_spaces true s in
    let kept = c ∷ collapse_spaces false s in
    if is_space c then (if within_run then later else 32 ∷ later) else kept

abbrev non_empty : Text → Option Text
non_empty [] = none
non_empty (c ∷ s) = some (c ∷ s)

-- `cleanError`.
unfoldable pub clean_error : Value → Checked (Option Text)
unfolding collapse_spaces
clean_error undefined = ok none
clean_error null = ok none
clean_error (str s) = ok (non_empty (take 500 (trim (collapse_spaces false s))))
clean_error _ = err bad_error

-- `cleanVantages`.
unfoldable pub clean_vantages : Value → Text → Checked (Option Text)
clean_vantages undefined json = ok none
clean_vantages null json = ok none
clean_vantages obj json = if ltb 4000 (length json) then err vantages_too_large else ok (some json)
clean_vantages _ json = err bad_vantages

-- An identifier of at most 128 units: `/^[A-Za-z0-9._:-]+$/` after `trim` and `slice`.
unfoldable pub short_id : Value → Option Text
short_id (str s) =
    let id = take 128 (trim s) in if truthy id && all is_node_id_char id then some id else none
short_id _ = none

abbrev as_bool : Value → Option Bool
as_bool (bool b) = some b
as_bool _ = none

-- The body of the loop over `results`.
unfoldable pub normalize_probe : Numbers → List Text → RawProbe → Checked Probe
normalize_probe rt seen item = do
  node_id ← or_throw (short_id item.node_id) bad_node_id
  guard (not (includes seen node_id)) (repeated_node node_id)
  direct_ok ← or_throw (as_bool item.direct_ok) not_boolean
  landing_ok ← or_throw (as_bool item.landing_ok) not_boolean
  direct_latency_ms ← bounded_latency rt item.direct_latency_ms
  landing_latency_ms ← bounded_latency rt item.landing_latency_ms
  direct_error ← clean_error item.direct_error
  landing_error ← clean_error item.landing_error
  vantages ← clean_vantages item.vantages item.vantages_json
  ok (record {
    node_id = node_id;
    direct_ok = direct_ok;
    landing_ok = landing_ok;
    direct_latency_ms = direct_latency_ms;
    landing_latency_ms = landing_latency_ms;
    direct_error = direct_error;
    landing_error = landing_error;
    vantages = vantages;
  })

unfoldable pub normalize_probes : Numbers → List Text → List RawProbe → Checked (List Probe)
normalize_probes rt seen [] = ok []
normalize_probes rt seen (item ∷ items) = do
  probe ← normalize_probe rt seen item
  probes ← normalize_probes rt (probe.node_id ∷ seen) items
  ok (probe ∷ probes)

-- Whether a value is truthy. (A parsed body holds no NaN.)
abbrev pub truthy_value : Value → Bool
truthy_value undefined = false
truthy_value null = false
truthy_value (bool b) = b
truthy_value (num (whole zero)) = false
truthy_value (str []) = false
truthy_value _ = true

abbrev max_safe : ℕ
max_safe = 9007199254740991

abbrev pub report_window_ms : ℕ
report_window_ms = 900000

-- `Number.isSafeInteger`, and no further than fifteen minutes from `now`. A negative time is out of
-- the window, since the clock stands past the first fifteen minutes of 1970.
unfoldable pub in_window : ℕ → Number → Option ℕ
in_window now (whole n) = if leb n max_safe && within report_window_ms now n then some n else none
in_window now _ = none

-- `Number(input.checkedAt || Date.now())`.
unfoldable pub checked_at_of : Numbers → Value → ℕ → Number
checked_at_of rt v now = if truthy_value v then rt.number_of v else whole now

-- `normalizeReport`.
unfoldable pub normalize_report : Numbers → RawReport → ℕ → Checked Report
normalize_report rt input now = do
  run_id ← or_throw (short_id input.run_id) bad_run_id
  items ← or_throw input.results no_results
  guard (ltb 0 (length items)) no_results
  guard (leb (length items) 50) too_many_results
  checked_at ← or_throw (in_window now (checked_at_of rt input.checked_at now)) out_of_window
  results ← normalize_probes rt [] items
  ok (record { run_id = run_id; checked_at = checked_at; results = results })
