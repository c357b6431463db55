-- ===== src/Benefits/Creations.antt =====
-- What later creations leave of a benefit in the store of packages/control-plane/src/db.ts.
use opus8_cf.Base.{
  ℕ, ◌≡◌, ◌∙◌, refl, arith, Bool, true, false, List, [], ◌∷◌, some, any, Text, text_eq, text_eq_iff,
  text_eq_comm, first_where, first_where-holds, Result, ok, err, Option-cases, inl, inr, Bool-cases,
  is_some,
}
use opus8_cf.Users.Accounts.{insert_user, UserDb, device_row, user_row, limits_row}
use opus8_cf.Benefits.{Claim, Provisioning, BenefitDraws, BenefitError, build_provisioning}
use opus8_cf.Benefits.Store.{
  BenefitDb, get_provisioning, insert_provisioning, create_provisioning, claim_row, claim_found,
  claim_clashes, benefit_user_row, benefit_device_row,
}
use opus8_cf.Benefits.Kept.{built-found, insert_user-rows, inserted-rows}

abbrev pub left_by : BenefitDb → Result BenefitError (BenefitDb × Bool) → BenefitDb
left_by s (ok (s', fresh)) = s'
left_by s (err e) = s

-- The state after creations of other requests, whether they end well or not.
unfoldable pub run_creations : BenefitDb → List Provisioning → BenefitDb
run_creations s [] = s
run_creations s (q ∷ qs) = run_creations (left_by s (create_provisioning s q)) qs

first-any :
    {A : Type 0} (p q : A → Bool) (xs : List A) (c : A)
    → first_where p xs ≡ some c
    → any q xs ≡ false
    → q c ≡ false
unfolding first_where
first-any p q [] c h k = absurd (ground arith)
first-any p q (x ∷ xs) c h k = elim (Bool-cases (p x)) [
  | inl here ↦ ground arith
  | inr later ↦ first-any p q xs c (ground arith) (ground arith)
]

not_clashing :
    (db db' : BenefitDb) (q : Provisioning)
    → insert_provisioning db q ≡ some db'
    → any (claim_clashes (claim_row q)) db.claims ≡ false
unfolding insert_provisioning
not_clashing db db' q h =
    elim (Option-cases (
      insert_user db.accounts (benefit_user_row q.user) q.limits
        (benefit_device_row q.user q.device))) [
          | inl refused ↦ absurd (ground arith)
          | inr (accounts, e) ↦ ground arith
        ]

apart : (a b c : Text) → text_eq a b ≡ true → text_eq a c ≡ false → text_eq c b ≡ false
apart a b c h k = ground (arith, text_eq_iff a b, text_eq_comm b c)

module _ (db : BenefitDb) (q : Provisioning) (c : Claim)
    (h : claim_clashes (claim_row q) c ≡ false) where
  other_claim : (id : Text) → claim_found id c ≡ true → claim_found id (claim_row q) ≡ false
  other_claim id k =
      rw
        (apart c.external_claim_id id (claim_row q).external_claim_id (ground arith) (ground arith))
        refl

  other_user : text_eq q.user.id c.user_id ≡ false
  other_user = rw (text_eq_comm q.user.id c.user_id) (ground arith)

  other_device : text_eq q.device.id c.device_id ≡ false
  other_device = rw (text_eq_comm q.device.id c.device_id) (ground arith)

  behind :
      (accounts : UserDb) (id : Text)
      → accounts.users ≡ user_row (benefit_user_row q.user) ∷ db.accounts.users
      → accounts.devices ≡ device_row (benefit_device_row q.user q.device) ∷ db.accounts.devices
      → accounts.limits ≡ limits_row q.user.id q.limits ∷ db.accounts.limits
      → first_where (claim_found id) db.claims ≡ some c
      → get_provisioning (record { accounts = accounts; claims = claim_row q ∷ db.claims }) id
        ≡ get_provisioning db id
  unfolding get_provisioning first_where
  behind accounts id u d l found =
      rw
        (
          other_claim id (first_where-holds (claim_found id) db.claims c found),
          found,
          u,
          other_user,
          d,
          other_device,
          l,
          other_user,
        )
        refl

-- A claim that is found stays found behind the rows of another one.
inserted-get :
    (db db' : BenefitDb) (q p : Provisioning) (id : Text)
    → insert_provisioning db q ≡ some db'
    → get_provisioning db id ≡ some p
    → get_provisioning db' id ≡ some p
unfolding get_provisioning
inserted-get db db' q p id h k = elim (Option-cases (first_where (claim_found id) db.claims)) [
  | inl missing ↦ absurd (ground (arith, missing))
  | inr (c, found) ↦
      let (accounts, e, same) = inserted-rows db db' q h in
      let (u, d, l) =
        insert_user-rows db.accounts accounts (benefit_user_row q.user) q.limits
          (benefit_device_row q.user q.device) e in
      let free =
        first-any (claim_found id) (claim_clashes (claim_row q)) db.claims c found
          (not_clashing db db' q h) in
      rw same (behind db q c free accounts id u d l found ∙ k)
]

creation-get :
    (db : BenefitDb) (q p : Provisioning) (id : Text)
    → get_provisioning db id ≡ some p
    → get_provisioning (left_by db (create_provisioning db q)) id ≡ some p
unfolding create_provisioning
creation-get db q p id k = elim (Option-cases (insert_provisioning db q)) [
  | inr (left, inserted) ↦
      rw (create_provisioning, inserted) (inserted-get db left q p id inserted k)
  | inl refused ↦ elim (Bool-cases (is_some (get_provisioning db q.claim.external_claim_id))) [
    | inl there ↦ rw (create_provisioning, refused, there) k
    | inr lost ↦ rw (create_provisioning, refused, lost) k
  ]
]

creations-get :
    (qs : List Provisioning) (db : BenefitDb) (p : Provisioning) (id : Text)
    → get_provisioning db id ≡ some p
    → get_provisioning (run_creations db qs) id ≡ some p
unfolding run_creations
creations-get [] db p id k = k
creations-get (q ∷ qs) db p id k =
    creations-get qs (left_by db (create_provisioning db q)) p id (creation-get db q p id k)

-- A benefit that the database says it has created is answered for its claim, unchanged, in the state
-- that the creation leaves and in every state that later creations of any benefits leave, whether they
-- end well or not. (Other operations on the user or the device may change it.)
pub create-get :
    (s s' : BenefitDb) (id : Text) (draws : BenefitDraws) (now : ℕ) (p : Provisioning)
    (later : List Provisioning)
    → build_provisioning id draws now ≡ ok p
    → create_provisioning s p ≡ ok (s', true)
    → get_provisioning (run_creations s' later) p.claim.external_claim_id ≡ some p
create-get s s' id draws now p later b h =
    creations-get later s' p p.claim.external_claim_id (built-found s s' id draws now p b h)
