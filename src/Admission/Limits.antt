-- ===== src/Admission/Limits.antt =====
-- The limits of `admitConnection` (packages/control-plane/src/usage.ts) and its answers.
use opus8_cf.Base.{
  ℕ, ◌+◌, ◌≤◌, ◌<◌, ◌≡◌, refl, ◌∙◌, Bool, true, false, ◌&&◌, inl, inr, List, [], ◌∷◌, Option, none,
  some, arith, leb, ltb, max, any, Text, text_eq, text_eq_iff, text_eq_refl, first_where,
  count_where, count-keep-le, delete_where, upsert, merged, first-upsert, first-upsert_other,
  Bool-cases,
}
use opus8_cf.Users.Tables.{UserLimits, limits_of, device_limit_of}
use opus8_cf.Admission.{
  Lease, AdmissionDb, Admission, lease_ttl_ms, live, lease_of, purge, has_room, admissible,
  new_lease, renew_lease, take_lease, remember_ip, run_batch, allowed, active_ip_limit_exceeded,
  verdict, admit,
}

-- What the code reads of the limits of a user.
abbrev pub limits_in : AdmissionDb → Text → Option UserLimits
limits_in db id = first_where (limits_of id) db.limits

remember-leases :
    (a : Admission) (now : ℕ) (db : AdmissionDb) → (remember_ip a now db).leases ≡ db.leases
unfolding remember_ip
remember-leases a now db = ground arith

module _ (id ip : Text) (now : ℕ) where
  abbrev kept : List Lease → List Lease
  kept t = delete_where (λ l. text_eq l.user_id id && leb l.expires_at now) t

  -- Renewing a lease that stands adds none.
  count_renewed :
      (a : Admission) (t : List Lease)
      → a.user_id ≡ id
      → any (λ l. lease_of id ip l && ltb now l.expires_at) (kept t) ≡ true
      → count_where
          (live id now)
          (upsert (lease_of id ip) (renew_lease a now) (new_lease a now) (kept t))
        ≤ count_where (live id now) (kept t)
  unfolding count_where upsert renew_lease
  count_renewed a [] e h = cc
  count_renewed a (l ∷ t) e h = ground (arith, count_renewed a t e)

  count_taken :
      (a : Admission) (t : List Lease)
      → count_where (live id now) (upsert (lease_of id ip) (renew_lease a now) (new_lease a now) t)
        ≤ count_where (live id now) t + 1
  unfolding count_where upsert new_lease renew_lease
  count_taken a [] = ground arith
  count_taken a (l ∷ t) = ground (arith, count_taken a t)

room-cases :
    (db : AdmissionDb) (a : Admission) (now : ℕ)
    → has_room db a now ≡ true
    → any (λ l. lease_of a.user_id a.ip_hash l && ltb now l.expires_at) db.leases ≡ false
    → count_where (live a.user_id now) db.leases < device_limit_of (limits_in db a.user_id)
unfolding has_room
room-cases db a now h k = ground arith

admissible-room :
    (db : AdmissionDb) (a : Admission) (now : ℕ)
    → admissible db a now ≡ true
    → has_room db a now ≡ true
unfolding admissible
admissible-room db a now h = ground arith

purged_count :
    (db : AdmissionDb) (id : Text) (now : ℕ)
    → count_where (live id now) (purge id now db).leases ≤ count_where (live id now) db.leases
unfolding purge
purged_count db id now = count-keep-le (live id now) (live id now) _ db.leases (λ l h. h)

-- An admission never brings the number of a user's live leases above the device limit, or above
-- what it was where it was higher.
pub admit-device_limit :
    (db : AdmissionDb) (a : Admission) (now : ℕ)
    → count_where (live a.user_id now) (admit db a now).0.leases
      ≤ max (count_where (live a.user_id now) db.leases) (device_limit_of (limits_in db a.user_id))
unfolding admit run_batch take_lease
admit-device_limit db a now =
    let purged = purge a.user_id now db in
    let before = purged_count db a.user_id now in
    elim (Bool-cases (admissible purged a now)) [
      | inr refused ↦ rw (refused, remember-leases a now purged) (omega (arith, before))
      | inl taken ↦
          rw (taken, remember-leases a now (take_lease a now purged))
            (elim (Bool-cases
              (any (λ l. lease_of a.user_id a.ip_hash l && ltb now l.expires_at) purged.leases)) [
                | inl known ↦
                    omega
                      (arith, before, count_renewed a.user_id a.ip_hash now a db.leases refl known)
                | inr new ↦ omega (
                  arith,
                  before,
                  count_taken a.user_id a.ip_hash now a (kept a.user_id a.ip_hash now db.leases),
                  room-cases purged a now (admissible-room purged a now taken) new,
                )
              ])
    ]

lease-key : (a : Admission) (now : ℕ) → lease_of a.user_id a.ip_hash (new_lease a now) ≡ true
unfolding new_lease
lease-key a now = rw (text_eq_refl a.user_id, text_eq_refl a.ip_hash) refl

renewed-key :
    (a : Admission) (now : ℕ) (id ip : Text) (l : Lease)
    → lease_of id ip (renew_lease a now l) ≡ lease_of id ip l
unfolding renew_lease
renewed-key a now id ip l = refl

long_enough :
    (a : Admission) (now : ℕ) (o : Option Lease)
    → now + lease_ttl_ms ≤ (merged (new_lease a now) (renew_lease a now) o).expires_at
unfolding new_lease renew_lease
long_enough a now none = omega arith
long_enough a now (some l) = omega arith

verdict-allowed :
    (db : AdmissionDb) (a : Admission) (now : ℕ) (b : Bool)
    → verdict db a now b ≡ allowed
    → b ≡ true
unfolding verdict
verdict-allowed db a now true h = refl
verdict-allowed db a now false h = ground arith

-- A connection that is allowed has a lease for its address that lasts five minutes from now at
-- least.
pub admit-lease :
    (db : AdmissionDb) (a : Admission) (now : ℕ)
    → (admit db a now).1 ≡ allowed
    → (l : Lease) × (first_where (lease_of a.user_id a.ip_hash) (admit db a now).0.leases ≡ some l)
      × (now + lease_ttl_ms ≤ l.expires_at)
unfolding admit run_batch take_lease
admit-lease db a now h =
    let purged = purge a.user_id now db in
    let taken : admissible purged a now ≡ true =
      verdict-allowed (run_batch db a now).0 a now (run_batch db a now).1 h in
    let before = first_where (lease_of a.user_id a.ip_hash) purged.leases in
    rw (taken, remember-leases a now (take_lease a now purged))
      (
        merged (new_lease a now) (renew_lease a now) before,
        first-upsert (lease_of a.user_id a.ip_hash) (renew_lease a now) (new_lease a now)
            purged.leases (lease-key a now) (renewed-key a now a.user_id a.ip_hash),
        long_enough a now before,
      )

kept_other :
    (id v ip : Text) (now : ℕ) (t : List Lease)
    → text_eq id v ≡ false
    → first_where (lease_of v ip) (kept id ip now t) ≡ first_where (lease_of v ip) t
unfolding first_where
kept_other id v ip now [] h = refl
kept_other id v ip now (l ∷ t) h = ground (
  arith,
  kept_other id v ip now t h,
  text_eq_iff l.user_id id,
  text_eq_iff l.user_id v,
  text_eq_iff id v,
)

taken_other :
    (a : Admission) (now : ℕ) (v ip : Text) (t : List Lease)
    → text_eq a.user_id v ≡ false
    → first_where
        (lease_of v ip)
        (upsert (lease_of a.user_id a.ip_hash) (renew_lease a now) (new_lease a now) t)
      ≡ first_where (lease_of v ip) t
unfolding new_lease renew_lease
taken_other a now v ip t h =
    first-upsert_other (lease_of a.user_id a.ip_hash) (lease_of v ip) (renew_lease a now)
      (new_lease a now) t (rw h refl)
      (λ l k.
        ground (
          arith,
          text_eq_iff l.user_id a.user_id,
          text_eq_iff l.user_id v,
          text_eq_iff a.user_id v,
        ))

-- The admission of one user does not touch the leases of another.
pub admit_other_user :
    (db : AdmissionDb) (a : Admission) (now : ℕ) (v ip : Text)
    → text_eq a.user_id v ≡ false
    → first_where (lease_of v ip) (admit db a now).0.leases ≡ first_where (lease_of v ip) db.leases
unfolding admit run_batch take_lease
admit_other_user db a now v ip h =
    let purged = purge a.user_id now db in
    elim (Bool-cases (admissible purged a now)) [
      | inr refused ↦
          rw (refused, remember-leases a now purged) (kept_other a.user_id v ip now db.leases h)
      | inl taken ↦
          rw (taken, remember-leases a now (take_lease a now purged))
            (taken_other a now v ip purged.leases h ∙ kept_other a.user_id v ip now db.leases h)
    ]

verdict-active :
    (db : AdmissionDb) (a : Admission) (now : ℕ) (b : Bool)
    → verdict db a now b ≡ active_ip_limit_exceeded
    → (b ≡ false)
      × (device_limit_of (limits_in db a.user_id) ≤ count_where (live a.user_id now) db.leases)
unfolding verdict
verdict-active db a now true h = cc
verdict-active db a now false h = ground arith

remember-limits :
    (a : Admission) (now : ℕ) (db : AdmissionDb) → (remember_ip a now db).limits ≡ db.limits
unfolding remember_ip
remember-limits a now db = ground arith

-- A connection that is refused for its number of active addresses had reached the device limit
-- before it.
pub admit-active_limit :
    (db : AdmissionDb) (a : Admission) (now : ℕ)
    → (admit db a now).1 ≡ active_ip_limit_exceeded
    → device_limit_of (limits_in db a.user_id) ≤ count_where (live a.user_id now) db.leases
unfolding admit run_batch
admit-active_limit db a now h =
    let purged = purge a.user_id now db in
    let (refused, reached) = verdict-active (run_batch db a now).0 a now (run_batch db a now).1 h in
    let before = purged_count db a.user_id now in
    omega (
      arith,
      before,
      rw (refused, remember-leases a now purged, remember-limits a now purged) at reached,
    )
