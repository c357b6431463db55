-- ===== src/Tests/Leases.antt =====
-- Connections of one user.
use opus8_cf.Base.{◌≤◌, max, [], ◌∷◌, codes, count_where}
use opus8_cf.Users.Tables.{device_limit_of}
use opus8_cf.Tests.Members.{person}
use opus8_cf.Admission.{AdmissionDb, Admission, live, admit}
use opus8_cf.Admission.Limits.{limits_in, admit-device_limit}

abbrev empty : AdmissionDb
empty = record {
  users = person ∷ [];
  limits =
      record { user_id = codes "u1"; device_limit = 1; ip_limit_24h = 5; traffic_limit_bytes = 0 }
      ∷ [];
  leases = [];
  history = [];
  usage = [];
}

abbrev phone : Admission
phone = record {
  user_id = codes "u1";
  node_id = codes "n1";
  uuid = codes "c1";
  lease_id = codes "l1";
  ip_hash = codes "ip1";
}

abbrev laptop : Admission
laptop = record phone { lease_id = codes "l2"; ip_hash = codes "ip2" }

abbrev one_lease : AdmissionDb
one_lease = (admit empty phone 100).0

admit-device_limit_example :
    count_where (live (codes "u1") 200) (admit one_lease laptop 200).0.leases
    ≤ max
        (count_where (live (codes "u1") 200) one_lease.leases)
        (device_limit_of (limits_in one_lease (codes "u1")))
admit-device_limit_example = admit-device_limit one_lease laptop 200
