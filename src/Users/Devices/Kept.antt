-- ===== src/Users/Devices/Kept.antt =====
-- What the operations of packages/control-plane/src/db.ts keep of a user's devices.
use opus8_cf.Base.{
  ℕ, ap, ◌+◌, ◌≤◌, ◌<◌, ◌≡◌, refl, arith, Bool, true, false, List, [], ◌∷◌, some, ltb, Text,
  text_eq, text_eq_iff, first_where, update_where, delete_where, count_where, Bool-cases, inl, inr,
}
use opus8_cf.Users.Tables.{Device, device_of}
use opus8_cf.Users.Devices.{
  deletable, is_device, is_legacy, delete_user_device, has_device_id, unbound,
  bind_user_device_hwid,
}

-- At most one row is deleted where at most one has the id.
count-deleted :
    (p : Device → Bool) (user_id id : Text) (t : List Device)
    → ((d : Device) → p d ≡ true → is_device user_id id d ≡ true)
    → count_where (device_of user_id) t
      ≤ count_where (device_of user_id) (delete_where p t) + count_where (has_device_id id) t
unfolding count_where
count-deleted p user_id id [] h = omega arith
count-deleted p user_id id (d ∷ t) h = ground (arith, h d, count-deleted p user_id id t h)

count-kept :
    (p q : Device → Bool) (t : List Device)
    → ((d : Device) → q d ≡ true → p d ≡ false)
    → count_where q (delete_where p t) ≡ count_where q t
unfolding count_where
count-kept p q [] h = refl
count-kept p q (d ∷ t) h = ground (arith, h d, count-kept p q t h)

some_left :
    (before after removed : ℕ)
    → removed ≤ 1
    → ltb 1 before ≡ true
    → before ≤ after + removed
    → 0 < after
some_left before after removed one many h = ground arith

other_owner : (a b c : Text) → text_eq a c ≡ true → text_eq b c ≡ false → text_eq a b ≡ false
other_owner a b c h k = elim (Bool-cases (text_eq a b)) [
  | inr apart ↦ apart
  | inl same ↦ absurd (clash (rw ((text_eq_iff a b).0 same) at h) k)
]
  where
    clash : {x : Bool} → x ≡ true → x ≡ false → ⊥
    clash p q = cc

-- A deletion leaves a user who has devices at least one of them, and it leaves every device whose id
-- begins with "legacy-". At most one device has the id.
pub delete_user_device-kept :
    (devices : List Device) (user_id id : Text)
    → count_where (has_device_id id) devices ≤ 1
    → 0 < count_where (device_of user_id) devices
    → (0 < count_where (device_of user_id) (delete_user_device devices user_id id).0)
      × (count_where is_legacy (delete_user_device devices user_id id).0
          ≡ count_where is_legacy devices)
unfolding delete_user_device
delete_user_device-kept devices user_id id one some_device = (
  elim (Bool-cases (ltb 1 (count_where (device_of user_id) devices))) [
    | inl many ↦
        some_left _ _ _ one many
          (count-deleted (deletable devices user_id id) user_id id devices (λ d h. ground arith))
    | inr last ↦
        rw
          (count-kept (deletable devices user_id id) (device_of user_id) devices
            (λ d h. ground arith))
          some_device
  ],
  count-kept (deletable devices user_id id) is_legacy devices (λ d h. ground arith),
)

-- A deletion for one user leaves every device of another user.
delete_user_device-other :
    (devices : List Device) (user_id id other : Text)
    → text_eq user_id other ≡ false
    → count_where (device_of other) (delete_user_device devices user_id id).0
      ≡ count_where (device_of other) devices
unfolding delete_user_device
delete_user_device-other devices user_id id other h =
    count-kept (deletable devices user_id id) (device_of other) devices
      (λ d k. rw (other_owner d.user_id user_id other k h) (ground arith))

update-again :
    (p : Device → Bool) (f g : Device → Device) (t : List Device)
    → ((d : Device) → p (f d) ≡ false)
    → update_where p g (update_where p f t) ≡ update_where p f t
unfolding update_where
update-again p f g [] h = refl
update-again p f g (d ∷ t) h = ground (arith, h d, update-again p f g t h)

-- The first hardware id that a device is bound to stays: what a later binding reads back is the row
-- that the earlier one has read.
pub bind_twice :
    (devices : List Device) (id hwid_hash hwid_hash' : Text) (now now' : ℕ)
    → bind_user_device_hwid (bind_user_device_hwid devices id hwid_hash now).0 id hwid_hash' now'
      ≡ bind_user_device_hwid devices id hwid_hash now
unfolding bind_user_device_hwid
bind_twice devices id hwid_hash hwid_hash' now now' =
    ap (λ t. (t, first_where (has_device_id id) t))
      (update-again (unbound id)
        (λ d. record d { hwid_hash = some hwid_hash; hwid_bound_at = some now; updated_at = now })
        (λ d. record d {
          hwid_hash = some hwid_hash';
          hwid_bound_at = some now';
          updated_at = now';
        })
        devices (λ d. ground arith))
