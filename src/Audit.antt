-- ===== src/Audit.antt =====
-- packages/control-plane/src/admin-audit.ts: the log of what administrators did.
pub mod Bounded
use opus8_cf.Base.{
  ℕ, ◌+◌, Bool, true, false, ◌&&◌, ◌||◌, List, [], ◌∷◌, Option, none, some, leb, ltb, ◌==◌,
  if◌then◌else◌, max, length, all, take, keep, Text, codes, truthy, trim, upper, is_alnum, or_else,
}
use opus8_cf.Enrollment.Create.{max_safe_integer}
use opus8_cf.Maintenance.{AuditRow}

-- `AdminAuthentication`, by its name in the table.
pub data AdminAuthentication : Type 0 where
  password_jwt automation_hmac : AdminAuthentication

abbrev authentication_name : AdminAuthentication → Text
authentication_name password_jwt = codes "password-jwt"
authentication_name automation_hmac = codes "automation-hmac"

-- `AdminAuditInput`; the status is a whole number.
pub record AuditInput : Type 0 where
  pub actor : Text
  pub authentication : AdminAuthentication
  pub method : Text
  pub path : Text
  pub status : ℕ
  pub request_id : Option Text
  pub created_at : Option ℕ

abbrev pub is_safe_char : ℕ → Bool
is_safe_char c = is_alnum c || (c == b'.' || (c == b'_' || (c == b':' || (c == b'/' || c == b'-'))))

-- `safeValue`.
unfoldable pub safe_value : Text → Text → ℕ → Text
safe_value value fallback max_length =
    let cleaned = trim value in
    if (truthy cleaned && all is_safe_char cleaned) && leb (length cleaned) max_length
    then cleaned
    else fallback

abbrev min : ℕ → ℕ → ℕ
min a b = if leb a b then a else b

abbrev request_or : Option Text → Text → Text
request_or none random = random
request_or (some []) random = random
request_or (some (c ∷ s)) random = c ∷ s

-- The random values that `recordAdminAudit` draws.
pub record AuditDraws : Type 0 where
  pub id : Text
  pub request_id : Text
  pub fallback_id : Text

-- The row that `recordAdminAudit` writes.
unfoldable pub audit_row : AuditInput → AuditDraws → ℕ → AuditRow
unfolding safe_value
audit_row input draws now = record {
  id = draws.id;
  actor = safe_value input.actor (codes "unknown") 64;
  authentication = authentication_name input.authentication;
  method = safe_value (upper input.method) (codes "UNKNOWN") 12;
  path = safe_value input.path (codes "/redacted") 240;
  status = max 100 (min 599 input.status);
  request_id = safe_value (request_or input.request_id draws.request_id) draws.fallback_id 128;
  created_at = or_else input.created_at now;
}

-- `recordAdminAudit`.
unfoldable pub record_admin_audit : List AuditRow → AuditInput → AuditDraws → ℕ → List AuditRow
unfolding audit_row
record_admin_audit rows input draws now = audit_row input draws now ∷ rows

-- The rows in the order of the listing: `ORDER BY created_at DESC`.
unfoldable pub place : AuditRow → List AuditRow → List AuditRow
place r [] = r ∷ []
place r (x ∷ xs) =
    let rest = place r xs in if leb x.created_at r.created_at then r ∷ x ∷ xs else x ∷ rest

unfoldable pub newest_first : List AuditRow → List AuditRow
unfolding place
newest_first [] = []
newest_first (r ∷ rs) = place r (newest_first rs)

abbrev pub safe_before : Option ℕ → ℕ
safe_before none = max_safe_integer
safe_before (some t) = if leb 1 t && leb t max_safe_integer then t else max_safe_integer

-- `listAdminAudit`; `before` is none where it is no whole number.
unfoldable pub list_admin_audit : List AuditRow → ℕ → Option ℕ → List AuditRow
unfolding newest_first
list_admin_audit rows limit before =
    take (max 1 (min 200 limit))
      (newest_first (keep (λ r. ltb r.created_at (safe_before before)) rows))
