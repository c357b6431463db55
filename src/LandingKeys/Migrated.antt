-- ===== src/LandingKeys/Migrated.antt =====
-- What the migration of packages/control-plane/src/landing-key-rotation.ts makes of each row.
use opus8_cf.Base.{
  ◌≡◌, refl, sym, ap, ◌∙◌, subst, arith, Bool, true, false, List, [], ◌∷◌, Option, none, some, map,
  any, All, Text, truthy, text_eq, text_eq_refl, text_eq_comm, ◌⊎◌, update_where, Bool-cases,
  Result-cases, inl, inr, if◌then◌else◌, Result, ok, err,
}
use opus8_cf.SecretBox.{Cipher, SecretSlot, current, previous, seal_json, open_json_with_rotation}
use opus8_cf.SecretBox.RoundTrip.{IsCipher, seal-open}
use opus8_cf.LandingKeys.{
  LandingRow, RawCredential, LandingKeyEnv, Reseal, RotationError, valid_credential, landing_data,
  inspect_row, in_previous, reseal, reseals, prepend, resealed_row, run_reseal, run_reseals,
}

-- The statements on one row.
apply_one : Reseal → LandingRow → LandingRow
apply_one s r = if resealed_row s r then record r { credential_enc = s.sealed } else r

pub apply_all : List Reseal → LandingRow → LandingRow
unfolding apply_one
apply_all [] r = r
apply_all (s ∷ ss) r = apply_all ss (apply_one s r)

map-map :
    (f g : LandingRow → LandingRow) (rows : List LandingRow)
    → map f (map g rows) ≡ map (λ r. f (g r)) rows
map-map f g [] = refl
map-map f g (r ∷ rows) = ap (λ z. f (g r) ∷ z) (map-map f g rows)

run_reseal-map : (s : Reseal) (rows : List LandingRow) → run_reseal s rows ≡ map (apply_one s) rows
unfolding run_reseal update_where apply_one
run_reseal-map s [] = refl
run_reseal-map s (r ∷ rows) = ap (λ z. apply_one s r ∷ z) (run_reseal-map s rows)

map_id : (rows : List LandingRow) → map (λ r. r) rows ≡ rows
map_id [] = refl
map_id (r ∷ rows) = ap (λ z. r ∷ z) (map_id rows)

pub run_reseals-map :
    (ss : List Reseal) (rows : List LandingRow) → run_reseals ss rows ≡ map (apply_all ss) rows
unfolding run_reseals apply_all
run_reseals-map [] rows = sym (map_id rows)
run_reseals-map (s ∷ ss) rows =
    run_reseals-map ss (run_reseal s rows)
    ∙ (ap (map (apply_all ss)) (run_reseal-map s rows) ∙ map-map (apply_all ss) (apply_one s) rows)

-- A credential whose two fields are strings that are not empty.
abbrev pub IsFilled : RawCredential → Type 0
IsFilled c = valid_credential c ≡ true

-- No two rows have the same id.
abbrev has_row_id : Text → LandingRow → Bool
has_row_id id r = text_eq r.id id

abbrev pub DistinctRows : List LandingRow → Type 0
DistinctRows [] = Unit
DistinctRows (r ∷ rows) = (any (has_row_id r.id) rows ≡ false) × DistinctRows rows

abbrev for_id : Text → Reseal → Bool
for_id id s = text_eq s.id id

not_own : (s : Reseal) (r : LandingRow) → text_eq s.id r.id ≡ false → apply_one s r ≡ r
unfolding apply_one
not_own s r h = rw (text_eq_comm r.id s.id, h) refl

apply-other :
    (ss : List Reseal) (r : LandingRow) → any (for_id r.id) ss ≡ false → apply_all ss r ≡ r
unfolding apply_all apply_one
apply-other [] r h = refl
apply-other (s ∷ ss) r h = rw (not_own s r (ground arith)) (apply-other ss r (ground arith))

previous-cases :
    (o : Option (RawCredential × SecretSlot))
    → (in_previous o ≡ false) ⊎ ((c : RawCredential) × (o ≡ some (c, previous)))
previous-cases none = inl refl
previous-cases (some (c, current)) = inl refl
previous-cases (some (c, previous)) = inr (c, refl)

prepend_inv :
    (m : Result RotationError Reseal) (rest : Result RotationError (List Reseal)) (ss : List Reseal)
    → prepend m rest ≡ ok ss
    → (s : Reseal) × (ss' : List Reseal) × (m ≡ ok s) × (rest ≡ ok ss') × (ss ≡ s ∷ ss')
prepend_inv (ok s) (ok ss') ss h = (s, ss', refl, refl, ground arith)
prepend_inv (ok s) (err e) ss h = cc
prepend_inv (err e) rest ss h = cc

module _ (cipher : Cipher RawCredential) (env : LandingKeyEnv) (iv_of : Text → Text) where
  reseals-skip :
      (r : LandingRow) (rows : List LandingRow)
      → in_previous (inspect_row cipher env r) ≡ false
      → reseals cipher env iv_of (r ∷ rows) ≡ reseals cipher env iv_of rows
  unfolding reseals
  reseals-skip r rows h = ground arith

  reseals-next :
      (r : LandingRow) (rows : List LandingRow) (c : RawCredential)
      → inspect_row cipher env r ≡ some (c, previous)
      → reseals cipher env iv_of (r ∷ rows)
        ≡ prepend (reseal cipher env iv_of r c) (reseals cipher env iv_of rows)
  unfolding reseals
  reseals-next r rows c h = rw (reseals, h) refl

  reseal-id :
      (r : LandingRow) (c : RawCredential) (s : Reseal)
      → reseal cipher env iv_of r c ≡ ok s
      → (s.id ≡ r.id) × (s.before ≡ r.credential_enc)
  unfolding reseal
  reseal-id r c s h = ground arith

  -- A statement is about a row that was listed.
  reseals-listed :
      (rows : List LandingRow) (ss : List Reseal) (id : Text)
      → reseals cipher env iv_of rows ≡ ok ss
      → any (has_row_id id) rows ≡ false
      → any (for_id id) ss ≡ false
  unfolding reseals
  reseals-listed [] ss id h k = ground arith
  reseals-listed (r ∷ rows) ss id h k = elim (previous-cases (inspect_row cipher env r)) [
    | inl other ↦ reseals-listed rows ss id (sym (reseals-skip r rows other) ∙ h) (ground arith)
    | inr (c, e) ↦
        let (s, ss', m, rest, eq) =
          prepend_inv (reseal cipher env iv_of r c) (reseals cipher env iv_of rows) ss
            (sym (reseals-next r rows c e) ∙ h) in
        let below = reseals-listed rows ss' id rest (ground arith) in
        rw (eq, (reseal-id r c s m).0) (ground (arith, below))
  ]

  -- What the statements make of a row: it stays, or it is moved to the current key.
  pub data IsMoved (r : LandingRow) : LandingRow → Type 0 where
    stays : in_previous (inspect_row cipher env r) ≡ false → IsMoved r r
    moves :
        (c : RawCredential) (sealed : Text)
        → inspect_row cipher env r ≡ some (c, previous)
        → seal_json cipher env.key c (landing_data r.id) (iv_of r.id) ≡ ok sealed
        → IsMoved r (record r { credential_enc = sealed })

  apply-IsMoved :
      (s : Reseal) (ss : List Reseal) (rows : List LandingRow)
      → any (has_row_id s.id) rows ≡ false
      → All (λ r. IsMoved r (apply_all ss r)) rows
      → All (λ r. IsMoved r (apply_all (s ∷ ss) r)) rows
  unfolding apply_all
  apply-IsMoved s ss [] h m = tt
  apply-IsMoved s ss (r ∷ rows) h m = (
    subst (λ z. IsMoved r (apply_all ss z))
        (sym (not_own s r (rw (text_eq_comm s.id r.id) (ground arith)))) m.0,
    apply-IsMoved s ss rows (ground arith) m.1,
  )

  reseal-IsMoved :
      (r : LandingRow) (c : RawCredential) (s : Reseal)
      → inspect_row cipher env r ≡ some (c, previous)
      → reseal cipher env iv_of r c ≡ ok s
      → IsMoved r (record r { credential_enc = s.sealed })
  unfolding reseal
  reseal-IsMoved r c s e m =
      elim (Result-cases (seal_json cipher env.key c (landing_data r.id) (iv_of r.id))) [
        | inr (bad, b) ↦ absurd (ground arith)
        | inl (sealed, b) ↦
            let same : sealed ≡ s.sealed = ground arith in
            subst (λ z. IsMoved r (record r { credential_enc = z })) same (moves c sealed e b)
      ]

  own_reseal :
      (r : LandingRow) (c : RawCredential) (s : Reseal)
      → reseal cipher env iv_of r c ≡ ok s
      → apply_one s r ≡ record r { credential_enc = s.sealed }
  unfolding apply_one
  own_reseal r c s m =
      let (id, before) = reseal-id r c s m in
      rw (id, before, text_eq_refl r.id, text_eq_refl r.credential_enc) refl

  pub reseals-IsMoved :
      (rows : List LandingRow) (ss : List Reseal)
      → DistinctRows rows
      → reseals cipher env iv_of rows ≡ ok ss
      → All (λ r. IsMoved r (apply_all ss r)) rows
  unfolding apply_all
  reseals-IsMoved [] ss d h = tt
  reseals-IsMoved (r ∷ rows) ss d h = elim (previous-cases (inspect_row cipher env r)) [
    | inl other ↦
        let rest = sym (reseals-skip r rows other) ∙ h in
        (
          subst (IsMoved r) (sym (apply-other ss r (reseals-listed rows ss r.id rest d.0)))
              (stays other),
          reseals-IsMoved rows ss d.1 rest,
        )
    | inr (c, e) ↦
        let (s, ss', m, rest, eq) =
          prepend_inv (reseal cipher env iv_of r c) (reseals cipher env iv_of rows) ss
            (sym (reseals-next r rows c e) ∙ h) in
        let moved = record r { credential_enc = s.sealed } in
        let end : apply_all (s ∷ ss') r ≡ moved =
          ap (apply_all ss') (own_reseal r c s m)
          ∙ apply-other ss' moved (reseals-listed rows ss' r.id rest d.0) in
        subst (λ z. All (λ x. IsMoved x (apply_all z x)) (r ∷ rows)) (sym eq)
          (
            subst (IsMoved r) (sym end) (reseal-IsMoved r c s e m),
            apply-IsMoved s ss' rows (rw (reseal-id r c s m).0 d.0)
                (reseals-IsMoved rows ss' d.1 rest),
          )
  ]

  inspect-valid :
      (r : LandingRow) (c : RawCredential) (slot : SecretSlot)
      → inspect_row cipher env r ≡ some (c, slot)
      → valid_credential c ≡ true
  unfolding inspect_row
  inspect-valid r c slot e =
      elim (Result-cases (
        open_json_with_rotation cipher env.key env.previous_key r.credential_enc
          (landing_data r.id))) [
            | inr (bad, b) ↦ absurd (ground arith)
            | inl (opened, b) ↦ elim (Bool-cases (valid_credential opened.0)) [
              | inr invalid ↦ absurd (ground arith)
              | inl valid ↦ ground arith
            ]
          ]

  -- A row that is moved opens under the current key with the same credential.
  pub moved-opens :
      IsCipher cipher IsFilled
      → ((id : Text) → truthy (iv_of id) ≡ true)
      → (r r' : LandingRow) (c : RawCredential) (slot : SecretSlot)
      → inspect_row cipher env r ≡ some (c, slot)
      → IsMoved r r'
      → inspect_row cipher env r' ≡ some (c, current)
  unfolding inspect_row open_json_with_rotation
  moved-opens laws drawn r r' c current e (stays h) = e
  moved-opens laws drawn r r' c previous e (stays h) = absurd (ground arith)
  moved-opens laws drawn r r' c slot e (moves c' sealed e' b) =
      let opened =
        seal-open cipher IsFilled laws env.key c' (landing_data r.id) (iv_of r.id) sealed
          (inspect-valid r c' previous e') (drawn r.id) b in
      let same : c' ≡ c = ground arith in
      rw (inspect_row, open_json_with_rotation, opened, inspect-valid r c' previous e', same) refl
