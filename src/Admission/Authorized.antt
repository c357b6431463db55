-- ===== src/Admission/Authorized.antt =====
-- Whose credential `resolveAuthorizedCredentialOwner` of packages/control-plane/src/usage.ts takes
-- for authorized.
use opus8_cf.Base.{
  ℕ, ◌≡◌, refl, sym, ◌∙◌, ap, subst, arith, Bool, true, ◌&&◌, List, [], ◌∷◌, Option, none, some,
  ◌==◌, keep, any, All, All-append, All-keep, ==_iff, Text, lower, text_eq, text_eq_refl,
  text_eq_iff, includes, first_where, first_where-holds, Bool-cases, Option-cases, inl, inr,
}
use opus8_cf.Enrollment.Fields.{Runtime}
use opus8_cf.Nodes.{Node, get_node}
use opus8_cf.Users.Tables.{
  User, Device, Owned, CredentialMode, static, rotating, user_is, owned_row, is_active,
}
use opus8_cf.Users.Joins.{owned_row-missing, owned_row-found, All-one_if}
use opus8_cf.Credentials.{device_credential_uuids, user_assigned_to_node}
use opus8_cf.Admission.Owner.{
  Directory, owned_rows, assigned, uuids_of, has_static_uuid, connects_as, belongs_to, static_owner,
  named_owner, owner_on, resolve_owner, user_assigned, is_static,
}

-- What an authorized owner shows.
pub record IsOwner (rt : Runtime) (secret : Text) (dir : Directory) (node_id uuid : Text) (now : ℕ)
    (id : Text) : Type 0 where
  pub node : Node
  pub node_found : get_node dir.nodes node_id ≡ some node
  pub node_enabled : node.enabled ≡ 1
  pub user : User
  pub user_found : first_where (user_is id) dir.users ≡ some user
  pub user_active : is_active now user ≡ true
  pub user_assigned : user_assigned_to_node rt user.node_group node.id node.account_alias ≡ true
  pub device_connects :
      any
        (λ d.
          d.enabled == 1
          && (text_eq d.user_id id
              && includes
                  (device_credential_uuids rt secret d.base_uuid d.credential_mode now)
                  (lower uuid)))
        dir.devices
      ≡ true

-- What every row of the join shows of its user and its device.
pub record IsJoined (users : List User) (devices : List Device) (now : ℕ) (o : Owned) : Type 0 where
  pub user_found : first_where (user_is o.user.id) users ≡ some o.user
  pub user_active : is_active now o.user ≡ true
  pub owner : o.device.user_id ≡ o.user.id
  pub device_enabled : (o.device.enabled == 1) ≡ true
  pub listed : (q : Device → Bool) → q o.device ≡ true → any q devices ≡ true

module _ (users : List User) (now : ℕ) where
  both : (a b : Bool) → (a && b) ≡ true → (a ≡ true) × (b ≡ true)
  both a b h = ground arith

  row-IsJoined :
      (d : Device) (u : User)
      → first_where (user_is d.user_id) users ≡ some u
      → ((d.enabled == 1) && is_active now u) ≡ true
      → (devices : List Device) → ((q : Device → Bool) → q d ≡ true → any q devices ≡ true)
      → IsJoined users devices now (record { user = u; device = d })
  row-IsJoined d u e test devices listed =
      let owner =
        (text_eq_iff u.id d.user_id).0 (first_where-holds (user_is d.user_id) users u e) in
      record {
        user_found = subst (λ k. first_where (user_is k) users ≡ some u) (sym owner) e;
        user_active = (both (d.enabled == 1) (is_active now u) test).1;
        owner = sym owner;
        device_enabled = (both (d.enabled == 1) (is_active now u) test).0;
        listed = listed;
      }

  owned_row-IsJoined :
      (d : Device) (devices : List Device)
      → ((q : Device → Bool) → q d ≡ true → any q devices ≡ true)
      → All (IsJoined users devices now) (owned_row users now d)
  owned_row-IsJoined d devices listed =
      elim (Option-cases (first_where (user_is d.user_id) users)) [
        | inl missing ↦
            subst (All (IsJoined users devices now)) (sym (owned_row-missing users now d missing))
              tt
        | inr (u, e) ↦
            subst (All (IsJoined users devices now)) (sym (owned_row-found users now d u e)) (
              All-one_if (IsJoined users devices now) ((d.enabled == 1) && is_active now u)
                (record { user = u; device = d }) (λ test. row-IsJoined d u e test devices listed))
      ]

  owned_rows-IsJoined :
      (ds devices : List Device)
      → ((q : Device → Bool) → any q ds ≡ true → any q devices ≡ true)
      → All (IsJoined users devices now) (owned_rows users now ds)
  unfolding owned_rows
  owned_rows-IsJoined [] devices h = tt
  owned_rows-IsJoined (d ∷ ds) devices h =
      All-append (IsJoined users devices now) (owned_row users now d) (owned_rows users now ds)
        (owned_row-IsJoined d devices (λ q e. h q (rw e refl)))
        (owned_rows-IsJoined ds devices (λ q e. h q (ground arith)))

-- A row that a search finds has the property of all rows.
first-All :
    {A : Type 0} (P : A → Type 0) (p : A → Bool) (xs : List A) (x : A)
    → All P xs
    → first_where p xs ≡ some x
    → P x
unfolding first_where
first-All P p [] x h e = cc
first-All P p (y ∷ ys) x h e = elim (Bool-cases (p y)) [
  | inl hit ↦ subst P (ground arith) h.0
  | inr miss ↦ first-All P p ys x h.1 (ground arith)
]

keep-All : {A : Type 0} (p : A → Bool) (xs : List A) → All (λ x. p x ≡ true) (keep p xs)
keep-All p [] = tt
keep-All p (x ∷ xs) = ground (arith, keep-All p xs)

module _ (rt : Runtime) (secret : Text) (dir : Directory) (node_id uuid : Text) (now : ℕ)
    (n : Node) where
  joined-IsOwner :
      (o : Owned) (id : Text)
      → get_node dir.nodes node_id ≡ some n
      → (n.enabled == 1) ≡ true
      → IsJoined dir.users dir.devices now o
      → assigned rt n o ≡ true
      → o.user.id ≡ id
      → includes (uuids_of rt secret now o) (lower uuid) ≡ true
      → IsOwner rt secret dir node_id uuid now id
  joined-IsOwner o id e on joined yes_assigned same connects = record {
    node = n;
    node_found = e;
    node_enabled = (==_iff n.enabled 1).0 on;
    user = o.user;
    user_found =
        subst (λ k. first_where (user_is k) dir.users ≡ some o.user) same joined.user_found;
    user_active = joined.user_active;
    user_assigned = yes_assigned;
    device_connects = joined.listed _ (
        rw
          (
            joined.device_enabled,
            (text_eq_iff o.device.user_id id).1 (joined.owner ∙ same),
            connects,
          )
          refl);
  }

  static-uuids :
      (base : Text) (mode : CredentialMode)
      → (text_eq base uuid && is_static mode) ≡ true
      → includes (device_credential_uuids rt secret base mode now) (lower uuid) ≡ true
  unfolding device_credential_uuids
  static-uuids base static h =
      rw ((text_eq_iff base uuid).0 (ground arith), text_eq_refl (lower uuid)) refl
  static-uuids base rotating h = absurd (ground arith)

  static-IsOwner :
      (rows : List Owned) (id : Text)
      → get_node dir.nodes node_id ≡ some n
      → (n.enabled == 1) ≡ true
      → All (IsJoined dir.users dir.devices now) rows
      → static_owner rt n rows uuid ≡ some id
      → IsOwner rt secret dir node_id uuid now id
  unfolding static_owner
  static-IsOwner rows id e on joined h =
      elim (Option-cases (first_where (has_static_uuid uuid) rows)) [
        | inl missing ↦ absurd (ground arith)
        | inr (o, found) ↦ elim (Bool-cases (assigned rt n o)) [
          | inr other ↦ absurd (ground arith)
          | inl here ↦
              joined-IsOwner o id e on (first-All _ (has_static_uuid uuid) rows o joined found) here
                (ground arith)
                (static-uuids o.device.base_uuid o.device.credential_mode
                  (first_where-holds (has_static_uuid uuid) rows o found))
        ]
      ]

  named-IsOwner :
      (name id : Text) (rows : List Owned)
      → get_node dir.nodes node_id ≡ some n
      → (n.enabled == 1) ≡ true
      → All (IsJoined dir.users dir.devices now) rows
      → All (λ o. belongs_to name o ≡ true) rows
      → named_owner rt secret n rows uuid now ≡ some id
      → IsOwner rt secret dir node_id uuid now id
  unfolding named_owner
  named-IsOwner name id [] e on joined owned h = cc
  named-IsOwner name id (o ∷ os) e on joined owned h = elim (Bool-cases (assigned rt n o)) [
    | inr other ↦ absurd (ground arith)
    | inl here ↦ elim (Option-cases (first_where (connects_as rt secret uuid now) (o ∷ os))) [
      | inl missing ↦ absurd (ground arith)
      | inr (x, found) ↦
          let row = first-All _ (connects_as rt secret uuid now) (o ∷ os) x joined found in
          let named = first-All _ (connects_as rt secret uuid now) (o ∷ os) x owned found in
          let same_id =
            (text_eq_iff o.user.id name).0 owned.0 ∙ sym ((text_eq_iff x.user.id name).0 named) in
          let same_user : some o.user ≡ some x.user =
            sym joined.0.user_found
            ∙ (ap (λ k. first_where (user_is k) dir.users) same_id ∙ row.user_found) in
          joined-IsOwner x id e on row (subst (λ u. user_assigned rt n u ≡ true) same_user here)
            (ground arith) (first_where-holds (connects_as rt secret uuid now) (o ∷ os) x found)
    ]
  ]

  on-IsOwner :
      (requested : Option Text) (id : Text)
      → get_node dir.nodes node_id ≡ some n
      → (n.enabled == 1) ≡ true
      → owner_on rt secret n (owned_rows dir.users now dir.devices) requested uuid now ≡ some id
      → IsOwner rt secret dir node_id uuid now id
  unfolding owner_on
  on-IsOwner none id e on h =
      static-IsOwner (owned_rows dir.users now dir.devices) id e on
        (owned_rows-IsJoined dir.users now dir.devices dir.devices (λ q k. k)) h
  on-IsOwner (some []) id e on h =
      static-IsOwner (owned_rows dir.users now dir.devices) id e on
        (owned_rows-IsJoined dir.users now dir.devices dir.devices (λ q k. k)) h
  on-IsOwner (some (c ∷ name)) id e on h =
      named-IsOwner (c ∷ name) id
        (keep (belongs_to (c ∷ name)) (owned_rows dir.users now dir.devices)) e on
        (All-keep (IsJoined dir.users dir.devices now) (belongs_to (c ∷ name))
          (owned_rows dir.users now dir.devices)
          (owned_rows-IsJoined dir.users now dir.devices dir.devices (λ q k. k)))
        (keep-All (belongs_to (c ∷ name)) (owned_rows dir.users now dir.devices)) h

-- A credential that is taken for authorized belongs to a user who exists, is enabled and not
-- expired and is assigned to the node, which is registered and enabled; one of the user's devices is
-- enabled and connects under the credential at that time, in upper or lower case.
pub resolve-IsOwner :
    (rt : Runtime) (secret : Text) (dir : Directory) (node_id : Text) (requested : Option Text)
    (uuid : Text) (now : ℕ) (id : Text)
    → resolve_owner rt secret dir node_id requested uuid now ≡ some id
    → IsOwner rt secret dir node_id uuid now id
unfolding resolve_owner
resolve-IsOwner rt secret dir node_id requested uuid now id h =
    elim (Option-cases (get_node dir.nodes node_id)) [
      | inl missing ↦ absurd (ground arith)
      | inr (n, e) ↦ elim (Bool-cases (n.enabled == 1)) [
        | inr off ↦ absurd (ground arith)
        | inl on ↦
            on-IsOwner rt secret dir node_id uuid now n requested id e on
              (rw (resolve_owner, e, on) at h)
      ]
    ]
