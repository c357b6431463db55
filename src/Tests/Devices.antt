-- ===== src/Tests/Devices.antt =====
-- The devices of a user.
use opus8_cf.Base.{text_eq, ◌≡◌, ◌<◌, arith, [], ◌∷◌, codes, count_where}
use opus8_cf.Users.Tables.{Device, device_of}
use opus8_cf.Users.Devices.{is_legacy, delete_user_device}
use opus8_cf.Users.Devices.Kept.{delete_user_device-kept}
use opus8_cf.Tests.Members.{tablet}
use opus8_cf.Base.{List}

abbrev both : List Device
both =
    tablet
    ∷ record tablet { id = codes "legacy-u1"; base_uuid = codes "b2"; sub_token = codes "s2" }
    ∷ []

delete_user_device-kept_example :
    (0 < count_where (device_of (codes "u1")) (delete_user_device both (codes "u1") (codes "d1")).0)
    × (count_where is_legacy (delete_user_device both (codes "u1") (codes "d1")).0
        ≡ count_where is_legacy both)
unfolding count_where text_eq
delete_user_device-kept_example =
    delete_user_device-kept both (codes "u1") (codes "d1") (omega arith) (omega arith)
