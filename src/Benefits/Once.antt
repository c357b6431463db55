-- ===== src/Benefits/Once.antt =====
-- A claim of packages/control-plane/src/webmaster-benefit.ts is provisioned once, over any store that
-- keeps the contract of `WebmasterBenefitStore`.
use opus8_cf.Base.{
  ℕ, ◌≡◌, refl, sym, subst, ◌∙◌, arith, Bool, true, false, ◌&&◌, ◌||◌, List, [], ◌∷◌, ◌++◌, Option,
  some, leb, all, All, Text, lower, is_space, trim, split, split_from, trim_of_NoSpace, ok,
  or_throw, >>=-eq-ok, >>-eq-ok, or_throw-eq-ok, ok_injective, Bool-cases, Option-cases, inl, inr,
  ◌==◌,
}
use mathlib.Core.List.{reverse, reverse-cons}
use opus8_cf.Enrollment.Create.{max_safe_integer}
use opus8_cf.Benefits.{
  is_hex_digit, Provisioning, BenefitStore, BenefitDraws, invalid_claim_id, invalid_creation_time,
  claim_groups, normalize_external_claim_id, build_provisioning, after_create,
  provision_webmaster_benefit,
}

-- The contract: a provisioning of a benefit that the store says it has created is found in the state
-- that the creation leaves.
pub record IsStore {S : Type 0} (store : BenefitStore S) : Type 0 where
  pub created :
      (s s' : S) (id : Text) (draws : BenefitDraws) (now : ℕ) (p : Provisioning)
      → build_provisioning id draws now ≡ ok p
      → store.create_atomic s p ≡ ok (s', true)
      → store.get s' p.claim.external_claim_id ≡ some p

all-append : (p : ℕ → Bool) (s t : Text) → all p (s ++ t) ≡ (all p s && all p t)
all-append p [] t = refl
all-append p (c ∷ s) t = ground (arith, all-append p s t)

all-reverse : (p : ℕ → Bool) (s : Text) → all p (reverse s) ≡ all p s
all-reverse p [] = refl
all-reverse p (c ∷ s) =
    rw (reverse-cons c s, all-append p (reverse s) (c ∷ []), all-reverse p s) (ground arith)

-- What the parts of a split hold, the whole holds beside the separator.
split_from-all :
    (p : ℕ → Bool) (sep : ℕ) (cur s : Text)
    → all (all p) (split_from sep cur s) ≡ true
    → (all (λ c. c == sep || p c) s ≡ true) × (all p cur ≡ true)
unfolding split_from
split_from-all p sep cur [] h = (refl, rw (← all-reverse p cur) (ground arith))
split_from-all p sep cur (c ∷ s) h = elim (Bool-cases (c == sep)) [
  | inl own ↦
      let parts : (all p (reverse cur) && all (all p) (split_from sep [] s)) ≡ true =
        ground arith in
      let (rest, _) = split_from-all p sep [] s (ground arith) in
      (ground arith, rw (← all-reverse p cur) (ground arith))
  | inr other ↦
      let (rest, front) = split_from-all p sep (c ∷ cur) s (ground arith) in
      (ground arith, ground arith)
]

groups-hex : (gs : List Text) → claim_groups gs ≡ true → all (all is_hex_digit) gs ≡ true
groups-hex [] h = cc
groups-hex (a ∷ []) h = cc
groups-hex (a ∷ b ∷ []) h = cc
groups-hex (a ∷ b ∷ c ∷ []) h = cc
groups-hex (a ∷ b ∷ c ∷ d ∷ []) h = cc
groups-hex (a ∷ b ∷ c ∷ d ∷ e ∷ []) h = ground arith
groups-hex (a ∷ b ∷ c ∷ d ∷ e ∷ f ∷ gs) h = cc

abbrev is_claim_char : ℕ → Bool
is_claim_char c = c == b'-' || is_hex_digit c

lower-claim : (s : Text) → all is_claim_char s ≡ true → lower s ≡ s
lower-claim [] h = refl
lower-claim (c ∷ s) h = ground (arith, lower-claim s)

trim-claim : (s : Text) → all is_claim_char s ≡ true → All (λ c. is_space c ≡ false) s
trim-claim [] h = tt
trim-claim (c ∷ s) h = (ground arith, trim-claim s (ground arith))

-- An id that was normalized stays as it is.
normalized_again :
    (value id : Text)
    → normalize_external_claim_id value ≡ some id
    → normalize_external_claim_id id ≡ some id
unfolding normalize_external_claim_id split
normalized_again value id h = elim (Bool-cases (claim_groups (split b'-' (lower (trim value))))) [
  | inr bad ↦ absurd (ground arith)
  | inl good ↦
      let same : lower (trim value) ≡ id = ground arith in
      let groups = subst (λ z. claim_groups (split b'-' z) ≡ true) same good in
      let chars = (split_from-all is_hex_digit b'-' [] id (groups-hex (split b'-' id) groups)).0 in
      rw (trim_of_NoSpace id (trim-claim id chars), lower-claim id chars, groups) refl
]

some_injective : {a b : Text} → ◌≡◌ {A = Option Text} (some a) (some b) → a ≡ b
some_injective h = ground arith

-- What a provisioning that was built shows.
built :
    (id : Text) (draws : BenefitDraws) (now : ℕ) (p : Provisioning)
    → build_provisioning id draws now ≡ ok p
    → normalize_external_claim_id id ≡ some p.claim.external_claim_id
unfolding build_provisioning
built id draws now p h =
    let (claim_id, e, h₁) =
      >>=-eq-ok (or_throw (normalize_external_claim_id id) invalid_claim_id) _ p h in
    let (_, h₂) = >>-eq-ok (leb 1 now && leb now max_safe_integer) invalid_creation_time _ p h₁ in
    subst (λ z. normalize_external_claim_id id ≡ some z.claim.external_claim_id) (ok_injective h₂)
      (or_throw-eq-ok _ _ _ e)

module _ {S : Type 0} (store : BenefitStore S) (laws : IsStore store) where
  after_create-found :
      (s s' : S) (claim_id : Text) (draws : BenefitDraws) (now : ℕ) (candidate p : Provisioning)
      (fresh flag : Bool) (s₁ : S)
      → normalize_external_claim_id claim_id ≡ some claim_id
      → build_provisioning claim_id draws now ≡ ok candidate
      → store.create_atomic s candidate ≡ ok (s₁, flag)
      → after_create store claim_id candidate (s₁, flag) ≡ ok (s', p, fresh)
      → store.get s' claim_id ≡ some p
  unfolding after_create
  after_create-found s s' claim_id draws now candidate p fresh true s₁ n b c h =
      let same : candidate.claim.external_claim_id ≡ claim_id =
        some_injective (sym (built claim_id draws now candidate b) ∙ n) in
      let found = laws.created s s₁ claim_id draws now candidate b c in
      let answer = ok_injective h in
      subst (λ z. store.get z.0 claim_id ≡ some z.1) answer
        (subst (λ k. store.get s₁ k ≡ some candidate) same found)
  after_create-found s s' claim_id draws now candidate p fresh false s₁ n b c h =
      elim (Option-cases (store.get s₁ claim_id)) [
        | inl lost ↦ absurd (ground arith)
        | inr (winner, e) ↦
            subst (λ z. store.get z.0 claim_id ≡ some z.1)
              (ok_injective (rw (after_create, e) at h)) e
      ]

  provision-found :
      (meanwhile : S → S) (s s' : S) (id : Text) (draws : BenefitDraws) (now : ℕ) (p : Provisioning)
      (fresh : Bool)
      → provision_webmaster_benefit store meanwhile s id draws now ≡ ok (s', p, fresh)
      → (claim_id : Text) × (normalize_external_claim_id id ≡ some claim_id)
        × (store.get s' claim_id ≡ some p)
  unfolding provision_webmaster_benefit
  provision-found meanwhile s s' id draws now p fresh h =
      let (claim_id, e, h₁) =
        >>=-eq-ok (or_throw (normalize_external_claim_id id) invalid_claim_id) _ (s', p, fresh) h in
      let normal = or_throw-eq-ok _ _ _ e in
      (
        claim_id,
        normal,
        elim (Option-cases (store.get s claim_id)) [
          | inr (existing, x) ↦
              subst (λ z. store.get z.0 claim_id ≡ some z.1) (ok_injective (rw x at h₁)) x
          | inl missing ↦
              let (candidate, b, h₂) =
                >>=-eq-ok (build_provisioning claim_id draws now) _ (s', p, fresh)
                  (rw missing at h₁) in
              let ((s₁, flag), c, h₃) =
                >>=-eq-ok (store.create_atomic (meanwhile s) candidate) _ (s', p, fresh) h₂ in
              after_create-found (meanwhile s) s' claim_id draws now candidate p fresh flag s₁
                (normalized_again id claim_id normal) b c h₃
        ],
      )

-- A claim that was provisioned once, whether by this request or by another in between, is answered
-- with the same provisioning in the state that this left, and nothing is created again. The store finds
-- what it says it has created.
pub provision_again :
    {S : Type 0} (store : BenefitStore S)
    → IsStore store
    → (meanwhile meanwhile' : S → S) (s s' : S) (id : Text) (draws draws' : BenefitDraws)
      (now now' : ℕ) (p : Provisioning) (fresh : Bool)
    → provision_webmaster_benefit store meanwhile s id draws now ≡ ok (s', p, fresh)
    → provision_webmaster_benefit store meanwhile' s' id draws' now' ≡ ok (s', p, false)
unfolding provision_webmaster_benefit
provision_again store laws meanwhile meanwhile' s s' id draws draws' now now' p fresh h =
    let (claim_id, normal, found) =
      provision-found store laws meanwhile s s' id draws now p fresh h in
    rw (provision_webmaster_benefit, normal, found) refl
