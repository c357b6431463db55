-- ===== src/LandingKeys/Preserved.antt =====
-- The whole migration of packages/control-plane/src/landing-key-rotation.ts.
use opus8_cf.Base.{
  ℕ, suc, ◌≡◌, refl, sym, ap, ◌∙◌, arith, true, false, not, List, [], ◌∷◌, Option, none, some, ltb,
  length, map, All, Text, truthy, count_where, Bool-cases, inl, inr, Result, ok, >>-eq-ok,
  >>=-eq-ok,
}
use opus8_cf.SecretBox.{Cipher, SecretSlot, previous_secret_configured}
use opus8_cf.SecretBox.RoundTrip.{IsCipher}
use opus8_cf.LandingKeys.{
  LandingRow, RawCredential, LandingKeyEnv, Reseal, RotationStatus, inspect_row, in_current,
  unreadable, reseals, run_batches, landing_credential_rotation_status, migrate_landing_credentials,
}
use opus8_cf.LandingKeys.Batches.{batches-all}
use opus8_cf.LandingKeys.Migrated.{
  DistinctRows, IsFilled, IsMoved, apply_all, run_reseals-map, reseals-IsMoved, moved-opens,
}

abbrev shown : Option (RawCredential × SecretSlot) → Option RawCredential
shown none = none
shown (some (c, slot)) = some c

-- The credential that a row holds, none where it is unreadable.
abbrev pub credential_in : Cipher RawCredential → LandingKeyEnv → LandingRow → Option RawCredential
credential_in cipher env r = shown (inspect_row cipher env r)

module _ (cipher : Cipher RawCredential) (env : LandingKeyEnv) (iv_of : Text → Text)
    (laws : IsCipher cipher IsFilled) (drawn : (id : Text) → truthy (iv_of id) ≡ true) where
  readable-cases :
      (o : Option (RawCredential × SecretSlot))
      → unreadable o ≡ false
      → (c : RawCredential) × (slot : SecretSlot) × (o ≡ some (c, slot))
  readable-cases none h = cc
  readable-cases (some (c, slot)) h = (c, slot, refl)

  All-current :
      (f : LandingRow → LandingRow) (rows : List LandingRow)
      → All (λ r. IsMoved cipher env iv_of r (f r)) rows
      → count_where (λ r. unreadable (inspect_row cipher env r)) rows ≡ 0
      → (map (credential_in cipher env) (map f rows) ≡ map (credential_in cipher env) rows)
        × (count_where (λ r. in_current (inspect_row cipher env r)) (map f rows)
            ≡ length (map f rows))
  unfolding count_where
  All-current f [] m h = (refl, refl)
  All-current f (r ∷ rows) m h = elim (Bool-cases (unreadable (inspect_row cipher env r))) [
    | inl bad ↦ absurd (ground arith)
    | inr good ↦
        let (c, slot, e) = readable-cases (inspect_row cipher env r) good in
        let opens = moved-opens cipher env iv_of laws drawn r (f r) c slot e m.0 in
        let (same, counted) = All-current f rows m.1 (ground arith) in
        (rw (opens, e, same) refl, rw (opens, counted) refl)
  ]

ok_parts :
    {E A B C : Type 0} {a a' : A} {b b' : B} {c c' : C}
    → ◌≡◌ {A = Result E (A × B × C)} (ok (a, b, c)) (ok (a', b', c'))
    → (a' ≡ a) × (b' ≡ b)
ok_parts h = ground arith

migrate_inv :
    (cipher : Cipher RawCredential) (env : LandingKeyEnv) (iv_of : Text → Text)
    (rows left : List LandingRow) (status : RotationStatus) (n : ℕ)
    → migrate_landing_credentials cipher env iv_of rows ≡ ok (left, status, n)
    → (ss : List Reseal) × (count_where (λ r. unreadable (inspect_row cipher env r)) rows ≡ 0)
      × (reseals cipher env iv_of rows ≡ ok ss)
      × (left ≡ map (apply_all ss) rows)
      × (status ≡ landing_credential_rotation_status cipher env left)
unfolding migrate_landing_credentials
migrate_inv cipher env iv_of rows left status n h =
    let (_, h₁) = >>-eq-ok (previous_secret_configured env.key env.previous_key) _ _ _ h in
    let (readable, h₂) =
      >>-eq-ok (not (ltb 0 (count_where (λ r. unreadable (inspect_row cipher env r)) rows))) _ _ _
        h₁ in
    let (ss, e, h₃) = >>=-eq-ok (reseals cipher env iv_of rows) _ _ h₂ in
    let ran = batches-all (suc (length ss)) 0 ss rows (omega arith) ∙ run_reseals-map ss rows in
    let answered = ok_parts h₃ in
    let same : left ≡ run_batches (suc (length ss)) 0 ss rows = answered.0 in
    (
      ss,
      ground arith,
      e,
      same ∙ ran,
      answered.1 ∙ ap (landing_credential_rotation_status cipher env) (sym same),
    )

-- A migration that ends well leaves every landing the credential that it had, in the rows' order, and
-- all of them under the current key. No two rows have the same id, the random bytes are not empty,
-- the encryption and the encoding give back what they are given, and so does JSON for credentials of
-- two strings that are not empty.
pub migrate-preserves :
    (cipher : Cipher RawCredential) (env : LandingKeyEnv) (iv_of : Text → Text)
    (rows left : List LandingRow) (status : RotationStatus) (n : ℕ)
    → IsCipher cipher IsFilled
    → ((id : Text) → truthy (iv_of id) ≡ true)
    → DistinctRows rows
    → migrate_landing_credentials cipher env iv_of rows ≡ ok (left, status, n)
    → (map (credential_in cipher env) left ≡ map (credential_in cipher env) rows)
      × (status.current ≡ length left)
unfolding landing_credential_rotation_status
migrate-preserves cipher env iv_of rows left status n laws drawn distinct h =
    let (ss, readable, e, moved, shown_status) =
      migrate_inv cipher env iv_of rows left status n h in
    let (same, counted) =
      All-current cipher env iv_of laws drawn (apply_all ss) rows
        (reseals-IsMoved cipher env iv_of rows ss distinct e) readable in
    rw (shown_status, moved) (same, counted)
