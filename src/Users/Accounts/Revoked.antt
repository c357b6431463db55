-- ===== src/Users/Accounts/Revoked.antt =====
-- What the removal or the disabling of a user in packages/control-plane/src/db.ts means for the
-- user's credentials.
use opus8_cf.Base.{
  ℕ, ◌≡◌, ◌≢◌, refl, arith, Bool, false, List, [], ◌∷◌, Option, none, some, Text, first_where,
  update_where, delete_where, Bool-cases, inl, inr,
}
use opus8_cf.Enrollment.Fields.{Runtime}
use opus8_cf.Nodes.{Node}
use opus8_cf.Users.Tables.{User, user_is, is_active}
use opus8_cf.Users.Accounts.{UserDb, PolicyChanges, change_user, update_user_policy, delete_user}
use opus8_cf.Admission.Owner.{Directory, resolve_owner}
use opus8_cf.Admission.Authorized.{resolve-IsOwner}

-- The tables that the authorization reads.
abbrev pub directory_of : List Node → UserDb → Directory
directory_of nodes db = record { nodes = nodes; users = db.users; devices = db.devices }

deleted-none : {A : Type 0} (p : A → Bool) (xs : List A) → first_where p (delete_where p xs) ≡ none
unfolding first_where
deleted-none p [] = refl
deleted-none p (x ∷ xs) = ground (arith, deleted-none p xs)

-- No credential belongs to a user who was deleted, on any node and at any time.
pub delete_user-unauthorized :
    (rt : Runtime) (secret : Text) (nodes : List Node) (db : UserDb) (id node_id : Text)
    (requested : Option Text) (uuid : Text) (now : ℕ)
    → resolve_owner rt secret (directory_of nodes (delete_user db id)) node_id requested uuid now
      ≢ some id
unfolding delete_user
delete_user-unauthorized rt secret nodes db id node_id requested uuid now h =
    let owner =
      resolve-IsOwner rt secret (directory_of nodes (delete_user db id)) node_id requested uuid now
        id h in
    ground (arith, owner.user_found, deleted-none (user_is id) db.users)

updated-users :
    (db db' : UserDb) (id : Text) (c : PolicyChanges)
    → update_user_policy db id c ≡ some db'
    → db'.users ≡ update_where (user_is id) (change_user c) db.users
unfolding update_user_policy
updated-users db db' id c h = ground arith

updated_where :
    (p : User → Bool) (f : User → User) (us : List User) (u : User)
    → ((v : User) → p (f v) ≡ p v)
    → first_where p (update_where p f us) ≡ some u
    → (v : User) × (u ≡ f v)
unfolding first_where update_where
updated_where p f [] u k h = cc
updated_where p f (x ∷ xs) u k h = elim (Bool-cases (p x)) [
  | inl hit ↦ (x, ground (arith, k x))
  | inr miss ↦ updated_where p f xs u k (ground arith)
]

-- No credential belongs to a user whom updateUserPolicy has disabled, on any node and at any time.
pub disabled-unauthorized :
    (rt : Runtime) (secret : Text) (nodes : List Node) (db db' : UserDb) (id : Text)
    (c : PolicyChanges) (node_id : Text) (requested : Option Text) (uuid : Text) (now : ℕ)
    → update_user_policy db id c ≡ some db'
    → c.enabled ≡ some false
    → resolve_owner rt secret (directory_of nodes db') node_id requested uuid now ≢ some id
disabled-unauthorized rt secret nodes db db' id c node_id requested uuid now h off r =
    let owner =
      resolve-IsOwner rt secret (directory_of nodes db') node_id requested uuid now id r in
    let (v, e) =
      updated_where (user_is id) (change_user c) db.users owner.user (λ v. refl)
        (rw (← updated-users db db' id c h) owner.user_found) in
    let inactive : is_active now owner.user ≡ false = rw (e, off) refl in
    ground (arith, owner.user_active)
