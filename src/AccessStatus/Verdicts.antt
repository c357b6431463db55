-- ===== src/AccessStatus/Verdicts.antt =====
-- The status that the console shows of a user, and what `admitConnection` decides at that time.
use opus8_cf.Base.{
  ℕ, ◌+◌, ◌≡◌, ◌≢◌, refl, sym, ◌∙◌, subst, any, Bool, true, false, ◌&&◌, ◌||◌, List, [], ◌∷◌,
  Option, none, some, ltb, ◌==◌, Text, text_eq_iff, first_where, first_where-holds, count_where,
  count-keep_same, arith,
}
use opus8_cf.Users.Tables.{User, UsageTotal, user_is, unexpired, sum_usage}
use opus8_cf.Admission.{
  AdmissionDb, Admission, Verdict, lease_of, seen_of, day_ms, allowed, live, recent, purge,
  has_room, admissible, in_quota, run_batch, verdict, admit,
}
use opus8_cf.AccessStatus.{
  AccessState, AccessStatusInput, disabled, expired, traffic_quota_exceeded,
  active_ip_limit_reached, ip_churn_limit_reached, sum_up, sum_down, access_state, status_row,
  shown_state,
}

abbrev pub is_allowed : Verdict → Bool
is_allowed allowed = true
is_allowed _ = false

-- What a state says of a new connection: where a limit is reached, that depends on the address.
abbrev pub foretells : AccessState → Option Bool
foretells disabled = some false
foretells expired = some false
foretells traffic_quota_exceeded = some false
foretells active_ip_limit_reached = none
foretells ip_churn_limit_reached = none
foretells _ = some true

sum_up-sum_down :
    (id : Text) (us : List UsageTotal) → sum_up id us + sum_down id us ≡ sum_usage id us
unfolding sum_up sum_down sum_usage
sum_up-sum_down id [] = refl
sum_up-sum_down id (u ∷ us) = ground (arith, sum_up-sum_down id us)

verdict-is_allowed :
    (db : AdmissionDb) (a : Admission) (now : ℕ) (ok : Bool) → is_allowed (verdict db a now ok) ≡ ok
unfolding verdict
verdict-is_allowed db a now true = refl
verdict-is_allowed db a now false = ground arith

module _ (db : AdmissionDb) (a : Admission) (now : ℕ) where
  live_purged :
      count_where (live a.user_id now) (purge a.user_id now db).leases
      ≡ count_where (live a.user_id now) db.leases
  unfolding purge
  live_purged = count-keep_same (live a.user_id now) _ db.leases (λ r h. ground arith)

  recent_purged :
      count_where (recent a.user_id now) (purge a.user_id now db).history
      ≡ count_where (recent a.user_id now) db.history
  unfolding purge
  recent_purged = count-keep_same (recent a.user_id now) _ db.history (λ r h. ground arith)

-- The conditions of the INSERT against those of the status, on the same numbers.
conditions_agree :
    (near : ℕ → ℕ → Bool) (s : AccessStatusInput) (now used : ℕ)
    (same_address known_address b : Bool)
    → s.expire_at ≢ some 0
    → s.bytes_up + s.bytes_down ≡ used
    → foretells (access_state near s now) ≡ some b
    → (((s.enabled == 1) && unexpired now s.expire_at)
        && (in_quota s.traffic_limit_bytes used
            && (same_address
                || (ltb s.active_ips s.device_limit
                    && (known_address || ltb s.recent_ips s.ip_limit_24h)))))
      ≡ b
unfolding access_state
conditions_agree near s now used same_address known_address b h e f = ground arith

-- The two EXISTS of the INSERT.
abbrev leased : AdmissionDb → Admission → ℕ → Bool
leased db a now =
    any (λ l. lease_of a.user_id a.ip_hash l && ltb now l.expires_at)
      (purge a.user_id now db).leases

abbrev known : AdmissionDb → Admission → ℕ → Bool
known db a now =
    any (λ h. seen_of a.user_id a.ip_hash h && ltb now (h.last_seen + day_ms))
      (purge a.user_id now db).history

admissible-status_row :
    (db : AdmissionDb) (a : Admission) (u : User) (now : ℕ) (s : AccessStatusInput)
    → first_where (user_is a.user_id) db.users ≡ some u
    → s ≡ status_row db u a.user_id now
    → admissible (purge a.user_id now db) a now ≡ (
        ((s.enabled == 1) && unexpired now s.expire_at)
        && (in_quota s.traffic_limit_bytes (sum_usage a.user_id db.usage)
            && (leased db a now
                || (ltb s.active_ips s.device_limit
                    && (known db a now || ltb s.recent_ips s.ip_limit_24h)))))
unfolding admissible purge has_room status_row
admissible-status_row db a u now s e h =
    rw (h, sym (live_purged db a now), sym (recent_purged db a now), e) refl

-- A user whom the console shows as disabled, expired or over the quota is refused a connection from
-- every address, and one whom it shows as active, near the quota or expiring soon is admitted from
-- every address, when the connection is asked for at the time of the status, on the same tables.
-- The user is found, and the expiry is not the time 0.
pub shown_state-admit :
    (near : ℕ → ℕ → Bool) (db : AdmissionDb) (a : Admission) (u : User) (now : ℕ) (b : Bool)
    → first_where (user_is a.user_id) db.users ≡ some u
    → u.expire_at ≢ some 0
    → foretells (shown_state near db u now) ≡ some b
    → is_allowed (admit db a now).1 ≡ b
unfolding admit run_batch shown_state status_row
shown_state-admit near db a u now b e h f =
    let same =
      (text_eq_iff u.id a.user_id).0 (first_where-holds (user_is a.user_id) db.users u e) in
    let row = status_row db u a.user_id now in
    verdict-is_allowed (admit db a now).0 a now (admissible (purge a.user_id now db) a now)
    ∙ (admissible-status_row db a u now row e refl
        ∙ conditions_agree near row now (sum_usage a.user_id db.usage) (leased db a now)
            (known db a now) b h (sum_up-sum_down a.user_id db.usage)
            (subst (λ id. foretells (access_state near (status_row db u id now) now) ≡ some b) same
              f))
