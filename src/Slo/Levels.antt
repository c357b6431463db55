-- ===== src/Slo/Levels.antt =====
-- What the status "ok" of packages/control-plane/src/operations-slo.ts says.
use opus8_cf.Base.{
  ℕ, ◌≤◌, ◌≡◌, refl, arith, Bool, true, false, ◌&&◌, List, [], ◌∷◌, ◌==◌, length, keep,
  length-keep-le, All, Bool-cases, inl, inr,
}
use opus8_cf.Maintenance.{RuntimeRow}
use opus8_cf.Slo.{
  ListedNode, is_enabled, seen_healthy, credential_isolated, slo_checks, operations_slo,
}

keep-All_of_length :
    {A : Type 0} (p : A → Bool) (xs : List A)
    → length xs ≤ length (keep p xs)
    → All (λ x. p x ≡ true) xs
keep-All_of_length p [] h = tt
keep-All_of_length p (x ∷ xs) h = elim (Bool-cases (p x)) [
  | inl good ↦ (good, keep-All_of_length p xs (ground arith))
  | inr bad ↦ absurd (ground (arith, length-keep-le p xs))
]

middle : (a b c d : Bool) → (a && (b && (c && d))) ≡ true → (b ≡ true) × (c ≡ true)
middle true true true d h = (refl, refl)
middle false b c d h = absurd (ground arith)
middle true false c d h = absurd (ground arith)
middle true true false d h = absurd (ground arith)

counted-le : (t : Bool) (a b : ℕ) → (t && a == b) ≡ true → b ≤ a
counted-le t a b h = ground arith

-- Where the service levels are said to be met, every enabled node was seen healthy within the last
-- twenty minutes, and is signed with a credential of its own and no other.
pub ok-AllIsolated :
    (nodes : List ListedNode) (rows : List RuntimeRow) (now : ℕ)
    → (operations_slo nodes rows now).ok ≡ true
    → All (λ n. seen_healthy now n ≡ true) (keep is_enabled nodes)
      × All (λ n. credential_isolated n ≡ true) (keep is_enabled nodes)
unfolding operations_slo slo_checks
ok-AllIsolated nodes rows now h =
    let enabled = keep is_enabled nodes in
    let counts = middle _ _ _ _ h in
    (
      keep-All_of_length (seen_healthy now) enabled (counted-le _ _ (length enabled) counts.0),
      keep-All_of_length credential_isolated enabled (counted-le _ _ (length enabled) counts.1),
    )
