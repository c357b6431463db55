-- ===== src/Audit/Bounded.antt =====
-- What the rows and the listing of packages/control-plane/src/admin-audit.ts are bounded by.
use opus8_cf.Base.{
  All-take, ℕ, suc, zero, Option, ◌≤◌, ◌≡◌, refl, arith, true, ◌&&◌, List, [], ◌∷◌, leb, ltb,
  if◌then◌else◌, max, length, all, All, take, keep, length-take-le, Text, codes, truthy, trim,
  Bool-cases, inl, inr,
}
use opus8_cf.Maintenance.{AuditRow}
use opus8_cf.Audit.{
  safe_before, AuditInput, AuditDraws, is_safe_char, safe_value, audit_row, place, newest_first,
  list_admin_audit,
}

-- A text that is kept in the log: safe characters, and no more of them than the bound.
abbrev pub IsSafe : ℕ → Text → Type 0
IsSafe bound s = (all is_safe_char s ≡ true) × (length s ≤ bound)

safe_value-IsSafe :
    (value fallback : Text) (bound : ℕ)
    → IsSafe bound fallback
    → IsSafe bound (safe_value value fallback bound)
unfolding safe_value
safe_value-IsSafe value fallback bound h =
    elim (Bool-cases
      ((truthy (trim value) && all is_safe_char (trim value)) && leb (length (trim value)) bound)) [
        | inl good ↦ rw good (ground arith)
        | inr bad ↦ rw bad h
      ]

-- Whatever a request holds, the row that is written for it has only safe characters in its actor, its
-- method and its path, at most 64, 12 and 240 of them, and a status from 100 to 599.
pub audit_row-IsSafe :
    (input : AuditInput) (draws : AuditDraws) (now : ℕ)
    → IsSafe 64 (audit_row input draws now).actor
      × IsSafe 12 (audit_row input draws now).method
      × IsSafe 240 (audit_row input draws now).path
      × (100 ≤ (audit_row input draws now).status)
      × ((audit_row input draws now).status ≤ 599)
unfolding audit_row
audit_row-IsSafe input draws now = (
  safe_value-IsSafe input.actor (codes "unknown") 64 (refl, omega arith),
  safe_value-IsSafe _ (codes "UNKNOWN") 12 (refl, omega arith),
  safe_value-IsSafe input.path (codes "/redacted") 240 (refl, omega arith),
  ground arith,
  ground arith,
)

-- Rows in the order of the listing: no row is newer than one before it.
abbrev pub IsOrdered : List AuditRow → Type 0
IsOrdered [] = Unit
IsOrdered (r ∷ rs) = All (λ x. x.created_at ≤ r.created_at) rs × IsOrdered rs

place-All :
    (P : AuditRow → Type 0) (r : AuditRow) (rs : List AuditRow)
    → P r
    → All P rs
    → All P (place r rs)
unfolding place
place-All P r [] h k = (h, tt)
place-All P r (x ∷ xs) h k = elim (Bool-cases (leb x.created_at r.created_at)) [
  | inl front ↦ rw front (h, k)
  | inr later ↦ rw later (k.0, place-All P r xs h k.1)
]

leb-le : {a b : ℕ} → leb a b ≡ true → a ≤ b
leb-le h = ground arith

All-older :
    (a b : ℕ)
    → a ≤ b
    → (rs : List AuditRow) → All (λ x. x.created_at ≤ a) rs
    → All (λ x. x.created_at ≤ b) rs
All-older a b h [] k = tt
All-older a b h (r ∷ rs) k = (omega arith, All-older a b h rs k.1)

place-IsOrdered : (r : AuditRow) (rs : List AuditRow) → IsOrdered rs → IsOrdered (place r rs)
unfolding place
place-IsOrdered r [] h = (tt, tt)
place-IsOrdered r (x ∷ xs) h = elim (Bool-cases (leb x.created_at r.created_at)) [
  | inl front ↦
      rw front ((leb-le front, All-older x.created_at r.created_at (leb-le front) xs h.0), h)
  | inr later ↦ rw later (
    place-All (λ y. y.created_at ≤ x.created_at) r xs (ground arith) h.0,
    place-IsOrdered r xs h.1,
  )
]

newest_first-IsOrdered : (rs : List AuditRow) → IsOrdered (newest_first rs)
unfolding newest_first
newest_first-IsOrdered [] = tt
newest_first-IsOrdered (r ∷ rs) = place-IsOrdered r (newest_first rs) (newest_first-IsOrdered rs)

take-IsOrdered : (n : ℕ) (rs : List AuditRow) → IsOrdered rs → IsOrdered (take n rs)
take-IsOrdered zero rs h = tt
take-IsOrdered (suc n) [] h = tt
take-IsOrdered (suc n) (r ∷ rs) h =
    (All-take (λ x. x.created_at ≤ r.created_at) n rs h.0, take-IsOrdered n rs h.1)

bounded_limit : (n limit : ℕ) → n ≤ max 1 (if leb 200 limit then 200 else limit) → n ≤ 200
bounded_limit n limit h = ground arith

-- Whatever limit is asked for, the listing has at most 200 rows, and none is newer than one before it.
pub list_admin_audit-IsOrdered :
    (rows : List AuditRow) (limit : ℕ) (before : Option ℕ)
    → IsOrdered (list_admin_audit rows limit before)
      × (length (list_admin_audit rows limit before) ≤ 200)
unfolding list_admin_audit
list_admin_audit-IsOrdered rows limit before = (
  take-IsOrdered _ _
      (newest_first-IsOrdered (keep (λ r. ltb r.created_at (safe_before before)) rows)),
  bounded_limit _ limit (length-take-le _ _),
)
