-- ===== src/Policy/Agreement.antt =====
-- The list that a node receives from `activeUserPolicy` and the owner that
-- `resolveAuthorizedCredentialOwner` finds agree.
use opus8_cf.Base.{
  ℕ, ◌≡◌, refl, sym, ◌∙◌, ap, subst, Bool, true, ◌&&◌, ◌||◌, List, [], ◌∷◌, ◌++◌, Option, none,
  some, ◌==◌, if◌then◌else◌, keep, map, any, All, All-append, Text, truthy, lower, text_eq,
  text_eq_iff, includes, first_where, first_where-holds, arith, Bool-cases, Option-cases, inl, inr,
}
use opus8_cf.Enrollment.Fields.{Runtime}
use opus8_cf.Nodes.{Node, get_node}
use opus8_cf.Users.Tables.{
  User, Device, UserLimits, UsageTotal, Owned, user_is, owned_row, is_active,
}
use opus8_cf.Users.Joins.{owned_row-missing, owned_row-found, All-one_if}
use opus8_cf.Admission.Owner.{
  Directory, owned_rows, assigned, uuids_of, connects_as, belongs_to, id_of, named_owner, owner_on,
  resolve_owner, user_assigned,
}
use opus8_cf.Policy.{
  AccessPolicy, with_uuids, credentials_of, access_policy, node_credentials, active_user_policy,
}

-- An entry for a user and a credential.
abbrev pub grants : Text → Text → AccessPolicy → Bool
grants id uuid p = text_eq p.user_id id && text_eq p.uuid uuid

any-append :
    {A : Type 0} (p : A → Bool) (xs ys : List A) → any p (xs ++ ys) ≡ (any p xs || any p ys)
any-append p [] ys = refl
any-append p (x ∷ xs) ys = ground (arith, any-append p xs ys)

map-append : {A B : Type 0} (f : A → B) (xs ys : List A) → map f (xs ++ ys) ≡ map f xs ++ map f ys
map-append f [] ys = refl
map-append f (x ∷ xs) ys = ap (λ z. f x ∷ z) (map-append f xs ys)

module _ (rt : Runtime) (secret : Text) (n : Node) (now : ℕ) (id : Text) (uuid : Text) where
  module _ (limits : List UserLimits) (usage : List UsageTotal) where
    any-with_uuids :
        (key : Text) (o : Owned) (xs : List Text)
        → any (grants id key) (map (access_policy rt secret limits usage) (with_uuids o xs))
          ≡ (belongs_to id o && includes xs key)
    unfolding with_uuids
    any-with_uuids key o [] = ground arith
    any-with_uuids key o (x ∷ xs) = ground (arith, any-with_uuids key o xs)

    any-credentials :
        (rows : List Owned)
        → any (grants id (lower uuid)) (
            map
              (access_policy rt secret limits usage)
              (credentials_of rt secret now (keep (assigned rt n) rows)))
          ≡ any (λ o. assigned rt n o && (belongs_to id o && connects_as rt secret uuid now o)) rows
    unfolding credentials_of
    any-credentials [] = refl
    any-credentials (o ∷ os) = elim (Bool-cases (assigned rt n o)) [
      | inl passes ↦
          rw
            (
              passes,
              map-append (access_policy rt secret limits usage)
                  (with_uuids o (uuids_of rt secret now o))
                  (credentials_of rt secret now (keep (assigned rt n) os)),
              any-append (grants id (lower uuid))
                  (map (access_policy rt secret limits usage)
                    (with_uuids o (uuids_of rt secret now o)))
                  (map (access_policy rt secret limits usage)
                    (credentials_of rt secret now (keep (assigned rt n) os))),
              any-with_uuids (lower uuid) o (uuids_of rt secret now o),
              any-credentials os,
            )
            refl
      | inr fails ↦ rw (fails, any-credentials os) refl
    ]

  -- The rows of the user are those of one account.
  IsOneAccount : Option User → Owned → Type 0
  IsOneAccount u o = belongs_to id o ≡ true → assigned rt n o ≡ user_assigned rt n u

  found_again :
      (users : List User) (key : Text) (u : User)
      → first_where (user_is key) users ≡ some u
      → text_eq u.id id ≡ true
      → first_where (user_is id) users ≡ some u
  found_again users key u e h =
      let same = (text_eq_iff u.id key).0 (first_where-holds (user_is key) users u e) in
      subst (λ k. first_where (user_is k) users ≡ some u) (sym same ∙ (text_eq_iff u.id id).0 h) e

  owned_row-one :
      (users : List User) (d : Device)
      → All (IsOneAccount (first_where (user_is id) users)) (owned_row users now d)
  unfolding IsOneAccount
  owned_row-one users d = elim (Option-cases (first_where (user_is d.user_id) users)) [
    | inl missing ↦
        subst (All (IsOneAccount (first_where (user_is id) users)))
          (sym (owned_row-missing users now d missing)) tt
    | inr (u, e) ↦
        subst (All (IsOneAccount (first_where (user_is id) users)))
          (sym (owned_row-found users now d u e))
          (All-one_if (IsOneAccount (first_where (user_is id) users))
            ((d.enabled == 1) && is_active now u) (record { user = u; device = d })
            (λ _ h. ap (user_assigned rt n) (sym (found_again users d.user_id u e h))))
  ]

  owned_rows-one :
      (users : List User) (ds : List Device)
      → All (IsOneAccount (first_where (user_is id) users)) (owned_rows users now ds)
  unfolding owned_rows
  owned_rows-one users [] = tt
  owned_rows-one users (d ∷ ds) =
      All-append (IsOneAccount (first_where (user_is id) users)) (owned_row users now d)
        (owned_rows users now ds) (owned_row-one users d) (owned_rows-one users ds)

  id-first :
      (p : Owned → Bool) (rows : List Owned)
      → id_of (first_where p (keep (belongs_to id) rows))
        ≡ (if any p (keep (belongs_to id) rows) then some id else none)
  unfolding first_where
  id-first p [] = refl
  id-first p (o ∷ os) = elim (Bool-cases (belongs_to id o)) [
    | inl passes ↦ elim (Bool-cases (p o)) [
      | inl hit ↦ rw (passes, hit, (text_eq_iff o.user.id id).0 passes) refl
      | inr miss ↦ rw (passes, miss, id-first p os) refl
    ]
    | inr fails ↦ rw (fails, id-first p os) refl
  ]

  -- The rows that a node is given for the user, and those that the user's lookup reads.
  any-assigned :
      (u : Option User) (p : Owned → Bool) (rows : List Owned)
      → All (IsOneAccount u) rows
      → any (λ o. assigned rt n o && (belongs_to id o && p o)) rows
        ≡ (user_assigned rt n u && any p (keep (belongs_to id) rows))
  unfolding IsOneAccount
  any-assigned u p [] h = ground arith
  any-assigned u p (o ∷ os) h = ground (arith, h.0, any-assigned u p os h.1)

  IsAssignedAs : Option User → Owned → Type 0
  IsAssignedAs u o = assigned rt n o ≡ user_assigned rt n u

  keep-IsAssignedAs :
      (u : Option User) (rows : List Owned)
      → All (IsOneAccount u) rows
      → All (IsAssignedAs u) (keep (belongs_to id) rows)
  unfolding IsOneAccount IsAssignedAs
  keep-IsAssignedAs u [] h = tt
  keep-IsAssignedAs u (o ∷ os) h = ground (arith, h.0, keep-IsAssignedAs u os h.1)

  named_owner-All :
      (u : Option User) (rows : List Owned)
      → All (IsAssignedAs u) rows
      → named_owner rt secret n rows uuid now ≡ (
          if user_assigned rt n u
          then id_of (first_where (connects_as rt secret uuid now) rows)
          else none)
  unfolding IsAssignedAs named_owner first_where
  named_owner-All u [] h = ground arith
  named_owner-All u (o ∷ os) h = rw h.0 refl

  named_owner-one :
      (u : Option User) (rows : List Owned)
      → All (IsOneAccount u) rows
      → named_owner rt secret n (keep (belongs_to id) rows) uuid now ≡ (
          if any
            (λ o. assigned rt n o && (belongs_to id o && connects_as rt secret uuid now o))
            rows
          then some id
          else none)
  named_owner-one u rows h =
      rw
        (
          any-assigned u (connects_as rt secret uuid now) rows h,
          named_owner-All u (keep (belongs_to id) rows) (keep-IsAssignedAs u rows h),
          id-first (connects_as rt secret uuid now) rows,
        )
        (ground arith)

-- The owner that the control plane finds for a request that names a user is that user where the
-- list that the node receives from activeUserPolicy at the same time has an entry for the user and
-- the credential in lower case, and nobody where it has none. The user's id is not empty.
pub policy-agrees :
    (rt : Runtime) (secret : Text) (dir : Directory) (limits : List UserLimits)
    (usage : List UsageTotal) (node_id id uuid : Text) (now : ℕ)
    → truthy id ≡ true
    → resolve_owner rt secret dir node_id (some id) uuid now ≡ (
        if any
          (grants id (lower uuid))
          (active_user_policy rt secret dir limits usage node_id now).access_policies
        then some id
        else none)
unfolding resolve_owner active_user_policy owner_on node_credentials
policy-agrees rt secret dir limits usage node_id [] uuid now h = cc
policy-agrees rt secret dir limits usage node_id (c ∷ id) uuid now h =
    elim (Option-cases (get_node dir.nodes node_id)) [
      | inl missing ↦ rw (resolve_owner, active_user_policy, missing) refl
      | inr (n, e) ↦ elim (Bool-cases (n.enabled == 1)) [
        | inl on ↦
            rw (resolve_owner, active_user_policy, e, on)
              (named_owner-one rt secret n now (c ∷ id) uuid
                  (first_where (user_is (c ∷ id)) dir.users) (owned_rows dir.users now dir.devices)
                  (owned_rows-one rt secret n now (c ∷ id) uuid dir.users dir.devices)
                ∙ sym (
                    ap (λ b. if b then some (c ∷ id) else none)
                      (any-credentials rt secret n now (c ∷ id) uuid limits usage
                        (owned_rows dir.users now dir.devices))))
        | inr off ↦ rw (resolve_owner, active_user_policy, e, off) refl
      ]
    ]
