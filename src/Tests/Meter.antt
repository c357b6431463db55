-- ===== src/Tests/Meter.antt =====
-- A batch of usage events that is sent twice.
use opus8_cf.Base.{text_eq, first_where, ◌≡◌, refl, [], ◌∷◌, codes}
use opus8_cf.Tests.Members.{person}
use opus8_cf.Metering.{metered, insert_events, UsageEvent, MeterDb, record_usage}
use opus8_cf.Metering.Once.{record_usage_twice}

abbrev event : UsageEvent
event = record {
  id = codes "ev1";
  user_id = codes "u1";
  connections = 1;
  bytes_up = 10;
  bytes_down = 20;
  ts_bucket = 5;
}

abbrev meter : MeterDb
meter = record {
  users = person ∷ [];
  limits =
      record {
        user_id = codes "u1";
        device_limit = 2;
        ip_limit_24h = 5;
        traffic_limit_bytes = 1000;
      }
      ∷ [];
  events = [];
  totals = [];
}

record_usage_accepts : (record_usage meter (codes "n1") (event ∷ event ∷ []) 100).1 ≡ 1
unfolding record_usage insert_events metered first_where text_eq
record_usage_accepts = refl

record_usage_twice_example :
    ((record_usage
        (record_usage meter (codes "n1") (event ∷ event ∷ []) 100).0
        (codes "n1")
        (event ∷ event ∷ [])
        200).0.totals
      ≡ (record_usage meter (codes "n1") (event ∷ event ∷ []) 100).0.totals)
    × ((record_usage
          (record_usage meter (codes "n1") (event ∷ event ∷ []) 100).0
          (codes "n1")
          (event ∷ event ∷ [])
          200).1
        ≡ 0)
record_usage_twice_example = record_usage_twice meter (codes "n1") (event ∷ event ∷ []) 100 200 tt
