-- ===== src/Users/Joins.antt =====
-- The rows of the join of packages/control-plane/src/usage.ts between a device and its user.
use opus8_cf.Base.{
  ℕ, ◌≡◌, refl, Bool, true, false, ◌&&◌, List, [], ◌∷◌, none, some, ◌==◌, if◌then◌else◌,
  first_where, All,
}
use opus8_cf.Users.Tables.{User, Device, user_is, owned_row, is_active}

pub owned_row-missing :
    (users : List User) (now : ℕ) (d : Device)
    → first_where (user_is d.user_id) users ≡ none
    → owned_row users now d ≡ []
unfolding owned_row
owned_row-missing users now d e = rw (owned_row, e) refl

pub owned_row-found :
    (users : List User) (now : ℕ) (d : Device) (u : User)
    → first_where (user_is d.user_id) users ≡ some u
    → owned_row users now d
      ≡ (if (d.enabled == 1) && is_active now u then record { user = u; device = d } ∷ [] else [])
unfolding owned_row
owned_row-found users now d u e = rw (owned_row, e) refl

-- A predicate of the one row that a test lets through.
pub All-one_if :
    {A : Type 0} (P : A → Type 0) (test : Bool) (a : A)
    → (test ≡ true → P a)
    → All P (if test then a ∷ [] else [])
All-one_if P true a h = (h refl, tt)
All-one_if P false a h = tt
