-- ===== src/Benefits/Kept.antt =====
-- The store of packages/control-plane/src/db.ts keeps the contract of `WebmasterBenefitStore`.
use opus8_cf.Base.{
  ℕ, ◌≡◌, refl, sym, ap, subst, ◌∙◌, arith, Bool, true, false, ◌&&◌, List, ◌∷◌, some, Text,
  text_eq_refl, text_eq_iff, first_where, ok, >>=-eq-ok, >>-eq-ok, ok_injective, or_throw, leb,
  Option-cases, inl, inr,
}
use opus8_cf.Enrollment.Create.{max_safe_integer}
use opus8_cf.Users.Tables.{User, Device, UserLimits, user_is}
use opus8_cf.Users.Accounts.{UserDb, LimitInput, insert_user, user_row, device_row, limits_row}
use opus8_cf.Benefits.{
  Claim, Provisioning, BenefitDraws, invalid_claim_id, invalid_creation_time,
  normalize_external_claim_id, benefit_user, benefit_device, build_provisioning,
  provision_webmaster_benefit, webmaster_benefit_campaign_id, integration,
}
use opus8_cf.Benefits.Store.{
  BenefitDb, get_provisioning, insert_provisioning, create_provisioning, benefit_store, claim_row,
  benefit_user_row, benefit_device_row, claim_found, device_found,
}
use opus8_cf.Benefits.Once.{IsStore, provision_again}

-- The rows of a provisioning that was built are those that the statements write.
pub record IsWritten (p : Provisioning) : Type 0 where
  pub user : benefit_user_row p.user ≡ p.user
  pub device : benefit_device_row p.user p.device ≡ p.device
  pub claim : claim_row p ≡ p.claim
  pub integration_id : p.claim.integration_id ≡ integration
  pub campaign_id : p.claim.campaign_id ≡ webmaster_benefit_campaign_id

built-IsWritten :
    (id : Text) (draws : BenefitDraws) (now : ℕ) (p : Provisioning)
    → build_provisioning id draws now ≡ ok p
    → IsWritten p
unfolding build_provisioning benefit_user benefit_device
built-IsWritten id draws now p h =
    let (claim_id, _, h₁) =
      >>=-eq-ok (or_throw (normalize_external_claim_id id) invalid_claim_id) _ p h in
    let (_, h₂) = >>-eq-ok (leb 1 now && leb now max_safe_integer) invalid_creation_time _ p h₁ in
    subst IsWritten (ok_injective h₂) (record {
      user = refl;
      device = refl;
      claim = refl;
      integration_id = refl;
      campaign_id = refl;
    })

pub insert_user-rows :
    (db db' : UserDb) (u : User) (l : LimitInput) (d : Device)
    → insert_user db u l d ≡ some db'
    → (db'.users ≡ user_row u ∷ db.users)
      × (db'.devices ≡ device_row d ∷ db.devices)
      × (db'.limits ≡ limits_row u.id l ∷ db.limits)
unfolding insert_user
insert_user-rows db db' u l d h = ground arith

module _ (p : Provisioning) (w : IsWritten p) where
  same_user : p.user.id ≡ p.claim.user_id
  same_user = ap (λ c. c.user_id) w.claim

  same_device : p.device.id ≡ p.claim.device_id
  same_device = ap (λ c. c.device_id) w.claim

  claim-first : claim_found p.claim.external_claim_id p.claim ≡ true
  claim-first =
      rw
        (
          text_eq_refl p.claim.external_claim_id,
          (text_eq_iff p.claim.integration_id integration).1 w.integration_id,
          (text_eq_iff p.claim.campaign_id webmaster_benefit_campaign_id).1 w.campaign_id,
        )
        refl

  user-first : user_is p.claim.user_id p.user ≡ true
  user-first = (text_eq_iff p.user.id p.claim.user_id).1 same_user

  device-first : device_found p.claim p.device ≡ true
  device-first =
      rw
        (
          (text_eq_iff p.device.id p.claim.device_id).1 same_device,
          (text_eq_iff p.device.user_id p.claim.user_id).1
              (sym (ap (λ d. d.user_id) w.device) ∙ same_user),
        )
        refl

  -- The rows that stand first are found.
  first-found :
      (accounts : UserDb) (us : List User) (ds : List Device) (ls : List UserLimits)
      (cs : List Claim)
      → accounts.users ≡ p.user ∷ us
      → accounts.devices ≡ p.device ∷ ds
      → accounts.limits ≡ limits_row p.user.id p.limits ∷ ls
      → get_provisioning
          (record { accounts = accounts; claims = p.claim ∷ cs })
          p.claim.external_claim_id
        ≡ some p
  unfolding get_provisioning first_where
  first-found accounts us ds ls cs u d l =
      rw (claim-first, u, user-first, d, device-first, l, user-first) refl

created-inserted :
    (s s' : BenefitDb) (p : Provisioning)
    → create_provisioning s p ≡ ok (s', true)
    → insert_provisioning s p ≡ some s'
unfolding create_provisioning
created-inserted s s' p h = elim (Option-cases (insert_provisioning s p)) [
  | inl refused ↦ absurd (ground arith)
  | inr (left, e) ↦ ground arith
]

pub inserted-rows :
    (s s' : BenefitDb) (p : Provisioning)
    → insert_provisioning s p ≡ some s'
    → (accounts : UserDb) × (insert_user s.accounts
          (benefit_user_row p.user)
          p.limits
          (benefit_device_row p.user p.device)
        ≡ some accounts)
      × (s' ≡ record { accounts = accounts; claims = claim_row p ∷ s.claims })
unfolding insert_provisioning
inserted-rows s s' p h =
    elim (Option-cases (
      insert_user s.accounts (benefit_user_row p.user) p.limits
        (benefit_device_row p.user p.device))) [
          | inl refused ↦ absurd (ground arith)
          | inr (accounts, e) ↦ (accounts, e, ground arith)
        ]

create-found :
    (s s' : BenefitDb) (p : Provisioning)
    → IsWritten p
    → create_provisioning s p ≡ ok (s', true)
    → get_provisioning s' p.claim.external_claim_id ≡ some p
create-found s s' p w h =
    let (accounts, e, same) = inserted-rows s s' p (created-inserted s s' p h) in
    let (u, d, l) =
      insert_user-rows s.accounts accounts (benefit_user_row p.user) p.limits
        (benefit_device_row p.user p.device) e in
    let rows : s' ≡ record { accounts = accounts; claims = p.claim ∷ s.claims } =
      same ∙ ap (λ c. record { accounts = accounts; claims = c ∷ s.claims }) w.claim in
    rw rows (
      first-found p w accounts s.accounts.users s.accounts.devices s.accounts.limits s.claims
        (u ∙ ap (λ x. x ∷ s.accounts.users) w.user) (d ∙ ap (λ x. x ∷ s.accounts.devices) w.device)
        l)

-- A provisioning that was built and that the database says it has created is found directly afterwards.
pub built-found :
    (s s' : BenefitDb) (id : Text) (draws : BenefitDraws) (now : ℕ) (p : Provisioning)
    → build_provisioning id draws now ≡ ok p
    → create_provisioning s p ≡ ok (s', true)
    → get_provisioning s' p.claim.external_claim_id ≡ some p
built-found s s' id draws now p b h = create-found s s' p (built-IsWritten id draws now p b) h

-- So the store of the database keeps the contract on which the provisioning relies.
benefit_store-IsStore : IsStore benefit_store
unfolding benefit_store create_provisioning
benefit_store-IsStore = record { created = built-found }

-- Over the database, a claim that was provisioned, by this request or by another in between, is
-- answered with the same provisioning when it is asked for again on the tables that this left, and
-- nothing is created.
pub provision_twice :
    (meanwhile meanwhile' : BenefitDb → BenefitDb) (s s' : BenefitDb) (id : Text)
    (draws draws' : BenefitDraws) (now now' : ℕ) (p : Provisioning) (fresh : Bool)
    → provision_webmaster_benefit benefit_store meanwhile s id draws now ≡ ok (s', p, fresh)
    → provision_webmaster_benefit benefit_store meanwhile' s' id draws' now' ≡ ok (s', p, false)
provision_twice = provision_again benefit_store benefit_store-IsStore
