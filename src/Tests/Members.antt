-- ===== src/Tests/Members.antt =====
-- A user and the devices that the tests share.
use opus8_cf.Base.{none, some, codes}
use opus8_cf.Users.Tables.{User, Device, static, off}

abbrev pub person : User
person = record {
  id = codes "u1";
  username = some (codes "ann");
  uuid = codes "123e4567-e89b-42d3-a456-426614174000";
  plan_id = none;
  node_group = none;
  unlock = 0;
  sub_token = codes "sub1";
  expire_at = none;
  enabled = 1;
  created_at = 0;
}

abbrev pub tablet : Device
tablet = record {
  id = codes "d1";
  user_id = codes "u1";
  name = codes "tablet";
  base_uuid = codes "123e4567-e89b-42d3-a456-426614174000";
  sub_token = codes "dsub1";
  credential_mode = static;
  hwid_mode = off;
  hwid_hash = none;
  hwid_bound_at = none;
  enabled = 1;
  created_at = 0;
  updated_at = 0;
}
