-- ===== src/Enrollment/Distinct.antt =====
-- The removal of repeated secrets in `nodeAuthSecretCandidates` (packages/control-plane/src/node-
-- enrollment.ts).
use opus8_cf.Base.{
  ℕ, ◌≡◌, refl, ap, ◌∙◌, sym, Bool, true, false, List, [], ◌∷◌, ◌++◌, arith, if◌then◌else◌, map,
  Text, text_eq, text_eq_iff, text_eq_refl, includes, first_where, Bool-cases, inl, inr,
}
use opus8_cf.Enrollment.Fields.{Runtime}
use opus8_cf.Enrollment.Tables.{NodeDb, Roots, root_candidates, of_node}
use opus8_cf.Enrollment.Candidates.{
  Candidate, deduplicate_from, stored_values, issued_values, node_auth_secret_candidates,
}

abbrev pub secrets : List Candidate → List Text
secrets vs = map (λ v. v.secret) vs

-- No secret stands twice.
abbrev pub IsDistinct : List Text → Type 0
IsDistinct [] = Unit
IsDistinct (x ∷ xs) = (includes xs x ≡ false) × IsDistinct xs

seen_other :
    (seen : List Text) (x t : Text)
    → includes seen x ≡ true
    → includes seen t ≡ false
    → text_eq x t ≡ false
seen_other seen x t old h = elim (Bool-cases (text_eq x t)) [
  | inl same ↦ cc (ap (includes seen) ((text_eq_iff x t).0 same))
  | inr other ↦ other
]

skip :
    (v : Candidate) (t : Text) (vs : List Candidate)
    → text_eq v.secret t ≡ false
    → includes (secrets (v ∷ vs)) t ≡ includes (secrets vs) t
skip v t vs h = rw h refl

step :
    (v : Candidate) (t : Text) (vs : List Candidate) (seen : List Text)
    → includes seen t ≡ false
    → (includes (v.secret ∷ seen) t ≡ false
        → includes (secrets (deduplicate_from (v.secret ∷ seen) vs)) t ≡ includes (secrets vs) t)
    → includes (secrets (v ∷ deduplicate_from (v.secret ∷ seen) vs)) t
      ≡ includes (secrets (v ∷ vs)) t
step v t vs seen h ih = elim (Bool-cases (text_eq v.secret t)) [
  | inl same ↦ rw same refl
  | inr other ↦ rw other (ih (rw other h))
]

-- Beyond the secrets already seen, the same secrets are found before and after.
deduplicate-includes :
    (seen : List Text) (vs : List Candidate) (t : Text)
    → includes seen t ≡ false
    → includes (secrets (deduplicate_from seen vs)) t ≡ includes (secrets vs) t
unfolding deduplicate_from
deduplicate-includes seen [] t h = refl
deduplicate-includes seen (v ∷ vs) t h = elim (Bool-cases (includes seen v.secret)) [
  | inl old ↦
      rw (old, deduplicate_from)
        (deduplicate-includes seen vs t h ∙ sym (skip v t vs (seen_other seen v.secret t old h)))
  | inr new ↦
      rw (new, deduplicate_from) (step v t vs seen h (deduplicate-includes (v.secret ∷ seen) vs t))
]

deduplicate-fresh :
    (seen : List Text) (vs : List Candidate) (t : Text)
    → includes seen t ≡ true
    → includes (secrets (deduplicate_from seen vs)) t ≡ false
unfolding deduplicate_from
deduplicate-fresh seen [] t h = refl
deduplicate-fresh seen (v ∷ vs) t h = elim (Bool-cases (includes seen v.secret)) [
  | inl old ↦ rw (old, deduplicate_from) (deduplicate-fresh seen vs t h)
  | inr new ↦
      rw (new, deduplicate_from)
        (ground (arith, text_eq_iff v.secret t, deduplicate-fresh (v.secret ∷ seen) vs t))
]

deduplicate-IsDistinct :
    (seen : List Text) (vs : List Candidate) → IsDistinct (secrets (deduplicate_from seen vs))
unfolding deduplicate_from
deduplicate-IsDistinct seen [] = tt
deduplicate-IsDistinct seen (v ∷ vs) = elim (Bool-cases (includes seen v.secret)) [
  | inl old ↦ rw (old, deduplicate_from) (deduplicate-IsDistinct seen vs)
  | inr new ↦
      rw (new, deduplicate_from)
        (
          deduplicate-fresh (v.secret ∷ seen) vs v.secret (rw (text_eq_refl v.secret) refl),
          deduplicate-IsDistinct (v.secret ∷ seen) vs,
        )
]

-- The candidates of a node before the repeated ones are dropped.
abbrev pub raw_candidates : Runtime → Roots → NodeDb → Text → Bool → ℕ → List Candidate
raw_candidates rt roots db node_id allow now =
    stored_values rt node_id (root_candidates roots) (first_where (of_node node_id) db.credentials)
    ++ (if allow then issued_values rt node_id (root_candidates roots) db.enrollments now else [])

module _ (rt : Runtime) (roots : Roots) (db : NodeDb) (node_id : Text) (allow : Bool)
    (now : ℕ) where
  -- No secret is a candidate of a node twice.
  pub candidates-IsDistinct :
      IsDistinct (secrets (node_auth_secret_candidates rt roots db node_id allow now))
  unfolding node_auth_secret_candidates
  candidates-IsDistinct = deduplicate-IsDistinct [] _

  pub candidates-includes :
      (t : Text)
      → includes (secrets (node_auth_secret_candidates rt roots db node_id allow now)) t
        ≡ includes (secrets (raw_candidates rt roots db node_id allow now)) t
  unfolding node_auth_secret_candidates
  candidates-includes t = deduplicate-includes [] _ t refl

pub includes-append_left :
    (xs ys : List Candidate) (t : Text)
    → includes (secrets xs) t ≡ true
    → includes (secrets (xs ++ ys)) t ≡ true
includes-append_left [] ys t h = cc
includes-append_left (x ∷ xs) ys t h = ground (arith, includes-append_left xs ys t)

pub includes-append_right :
    (xs ys : List Candidate) (t : Text)
    → includes (secrets ys) t ≡ true
    → includes (secrets (xs ++ ys)) t ≡ true
includes-append_right [] ys t h = h
includes-append_right (x ∷ xs) ys t h = ground (arith, includes-append_right xs ys t)
