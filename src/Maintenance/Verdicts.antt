-- ===== src/Maintenance/Verdicts.antt =====
-- What the clean-up of packages/control-plane/src/data-maintenance.ts leaves to the admission of
-- connections.
use opus8_cf.Base.{
  ℕ, ◌+◌, ◌≤◌, ◌≡◌, refl, sym, ◌∙◌, ap, arith, Bool, true, false, ◌&&◌, not, List, [], ◌∷◌, ltb,
  any, keep, delete_where, count_where, count-keep_same, Bool-cases, inl, inr,
}
use opus8_cf.Admission.{
  AdmissionDb, Admission, day_ms, live, recent, lease_of, seen_of, purge, has_room, admissible,
  run_batch, verdict, remember_ip, admit,
}
use opus8_cf.Maintenance.{lease_over, history_over}

-- The tables of the admission after a clean-up at the given time.
abbrev pub cleaned : ℕ → AdmissionDb → AdmissionDb
cleaned t db = record db {
  leases = delete_where (lease_over t) db.leases;
  history = delete_where (history_over t) db.history;
}

any-keep_same :
    {A : Type 0} (p s : A → Bool) (xs : List A)
    → ((x : A) → p x ≡ true → s x ≡ true)
    → any p (keep s xs) ≡ any p xs
any-keep_same p s [] h = refl
any-keep_same p s (x ∷ xs) h = ground (arith, h x, any-keep_same p s xs h)

keep-swap : {A : Type 0} (p q : A → Bool) (xs : List A) → keep p (keep q xs) ≡ keep q (keep p xs)
keep-swap p q [] = refl
keep-swap p q (x ∷ xs) = ground (arith, keep-swap p q xs)

-- The condition of the INSERT reads the tables through these four values and the user's rows.
admissible-same :
    (db db' : AdmissionDb) (a : Admission) (now : ℕ)
    → (db.users ≡ db'.users) × (db.limits ≡ db'.limits) × (db.usage ≡ db'.usage)
    → count_where (live a.user_id now) db.leases ≡ count_where (live a.user_id now) db'.leases
    → count_where (recent a.user_id now) db.history ≡ count_where (recent a.user_id now) db'.history
    → any (λ l. lease_of a.user_id a.ip_hash l && ltb now l.expires_at) db.leases
      ≡ any (λ l. lease_of a.user_id a.ip_hash l && ltb now l.expires_at) db'.leases
    → any (λ h. seen_of a.user_id a.ip_hash h && ltb now (h.last_seen + day_ms)) db.history
      ≡ any (λ h. seen_of a.user_id a.ip_hash h && ltb now (h.last_seen + day_ms)) db'.history
    → admissible db a now ≡ admissible db' a now
unfolding admissible has_room
admissible-same db db' a now (u, l, s) n m x y = rw (u, l, s, n, m, x, y) refl

verdict-same :
    (db db' : AdmissionDb) (a : Admission) (now : ℕ) (ok : Bool)
    → (db.users ≡ db'.users) × (db.limits ≡ db'.limits) × (db.usage ≡ db'.usage)
    → count_where (live a.user_id now) db.leases ≡ count_where (live a.user_id now) db'.leases
    → verdict db a now ok ≡ verdict db' a now ok
unfolding verdict
verdict-same db db' a now true e n = refl
verdict-same db db' a now false (u, l, s) n = rw (u, l, s, n) refl

module _ (db : AdmissionDb) (a : Admission) (t now : ℕ) (le : t ≤ now) where
  live-cleaned :
      count_where (live a.user_id now) (purge a.user_id now (cleaned t db)).leases
      ≡ count_where (live a.user_id now) (purge a.user_id now db).leases
  unfolding purge
  live-cleaned =
      ap (count_where (live a.user_id now)) (keep-swap _ _ db.leases)
      ∙ count-keep_same (live a.user_id now) (λ l. not (lease_over t l)) _ (λ l h. ground arith)

  recent-cleaned :
      count_where (recent a.user_id now) (purge a.user_id now (cleaned t db)).history
      ≡ count_where (recent a.user_id now) (purge a.user_id now db).history
  unfolding purge
  recent-cleaned =
      ap (count_where (recent a.user_id now)) (keep-swap _ _ db.history)
      ∙ count-keep_same (recent a.user_id now) (λ h. not (history_over t h)) _ (λ h k. ground arith)

  leased-cleaned :
      any
        (λ l. lease_of a.user_id a.ip_hash l && ltb now l.expires_at)
        (purge a.user_id now (cleaned t db)).leases
      ≡ any
          (λ l. lease_of a.user_id a.ip_hash l && ltb now l.expires_at)
          (purge a.user_id now db).leases
  unfolding purge
  leased-cleaned =
      ap (any (λ l. lease_of a.user_id a.ip_hash l && ltb now l.expires_at))
        (keep-swap _ _ db.leases)
      ∙ any-keep_same _ (λ l. not (lease_over t l)) _ (λ l h. ground arith)

  known-cleaned :
      any
        (λ h. seen_of a.user_id a.ip_hash h && ltb now (h.last_seen + day_ms))
        (purge a.user_id now (cleaned t db)).history
      ≡ any
          (λ h. seen_of a.user_id a.ip_hash h && ltb now (h.last_seen + day_ms))
          (purge a.user_id now db).history
  unfolding purge
  known-cleaned =
      ap (any (λ h. seen_of a.user_id a.ip_hash h && ltb now (h.last_seen + day_ms)))
        (keep-swap _ _ db.history)
      ∙ any-keep_same _ (λ h. not (history_over t h)) _ (λ h k. ground arith)

  admissible-cleaned :
      admissible (purge a.user_id now (cleaned t db)) a now
      ≡ admissible (purge a.user_id now db) a now
  unfolding purge
  admissible-cleaned =
      admissible-same (purge a.user_id now (cleaned t db)) (purge a.user_id now db) a now
        (refl, refl, refl) live-cleaned recent-cleaned leased-cleaned known-cleaned

-- What a refused connection leaves of the tables that the verdict reads.
remember-same :
    (a : Admission) (now : ℕ) (db : AdmissionDb)
    → ((remember_ip a now db).users ≡ db.users)
      × ((remember_ip a now db).limits ≡ db.limits)
      × ((remember_ip a now db).usage ≡ db.usage)
      × ((remember_ip a now db).leases ≡ db.leases)
unfolding remember_ip
remember-same a now db = ground arith

remembered-verdict :
    (db db' : AdmissionDb) (a : Admission) (now : ℕ)
    → (db.users ≡ db'.users) × (db.limits ≡ db'.limits) × (db.usage ≡ db'.usage)
    → count_where (live a.user_id now) db.leases ≡ count_where (live a.user_id now) db'.leases
    → verdict (remember_ip a now db) a now false ≡ verdict (remember_ip a now db') a now false
remembered-verdict db db' a now (u, l, s) n =
    let (u₁, l₁, s₁, t₁) = remember-same a now db in
    let (u₂, l₂, s₂, t₂) = remember-same a now db' in
    verdict-same (remember_ip a now db) (remember_ip a now db') a now false
      (u₁ ∙ (u ∙ sym u₂), l₁ ∙ (l ∙ sym l₂), s₁ ∙ (s ∙ sym s₂)) (rw (t₁, t₂) n)

-- A connection gets the verdict that it would have got if an earlier clean-up had not been run.
pub admit-cleaned :
    (db : AdmissionDb) (a : Admission) (t now : ℕ)
    → t ≤ now
    → (admit (cleaned t db) a now).1 ≡ (admit db a now).1
unfolding admit run_batch purge
admit-cleaned db a t now le =
    let same = admissible-cleaned db a t now le in
    elim (Bool-cases (admissible (purge a.user_id now db) a now)) [
      | inl taken ↦ rw (same, taken) refl
      | inr refused ↦
          rw (same, refused)
            (remembered-verdict (purge a.user_id now (cleaned t db)) (purge a.user_id now db) a now
              (refl, refl, refl) (live-cleaned db a t now le))
    ]
