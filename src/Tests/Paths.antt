-- ===== src/Tests/Paths.antt =====
-- Pathnames, signatures and the messages that are signed.
use opus8_cf.Base.{◌≡◌, refl, ◌↔◌, arith, some, codes, trim, upper, str}
use opus8_cf.Transport.{normalize_transport_path}
use opus8_cf.Transport.Laws.{normalize-eq-some_iff, IsSafePath}
use opus8_cf.Signing.Laws.{message_v2-injective, IsLine}

normalize_iff_example :
    (normalize_transport_path (str (codes " /ws/a ")) ≡ some (codes "/ws/a"))
    ↔ ((codes "/ws/a" ≡ trim (codes " /ws/a ")) × IsSafePath (codes "/ws/a"))
normalize_iff_example = normalize-eq-some_iff (codes " /ws/a ") (codes "/ws/a")

codes-IsLine : IsLine (codes "ab")
codes-IsLine = ground arith

upper-IsLine : IsLine (upper (codes "ab"))
upper-IsLine = ground arith

message_v2-injective_example :
    (codes "ab" ≡ codes "ab")
    × (codes "ab" ≡ codes "ab")
    × (upper (codes "ab") ≡ upper (codes "ab"))
    × (codes "ab" ≡ codes "ab")
    × (codes "x" ≡ codes "x")
message_v2-injective_example =
    message_v2-injective (codes "ab") (codes "ab") (codes "ab") (codes "ab") (codes "ab")
      (codes "ab") (codes "ab") (codes "ab") (codes "x") (codes "x") codes-IsLine codes-IsLine
      codes-IsLine codes-IsLine upper-IsLine upper-IsLine codes-IsLine codes-IsLine refl
