-- ===== src/Transport/Laws.antt =====
-- `normalizeTransportPath` against a description of the paths that are safe to publish.
use opus8_cf.Base.{
  ℕ, ◌≤◌, ◌≡◌, refl, ◌≢◌, ◌↔◌, ◌⊎◌, inl, inr, Bool, true, false, List, [], ◌∷◌, ◌++◌, some, arith,
  Bool-cases, length, all, any, All, Text, codes, text_eq, text_eq_iff, trim, lower,
  starts_with_iff, has_text, has_text_iff, split, Value, str, is_space, trim_of_NoSpace, NoSpace,
}
use opus8_cf.Transport.{
  is_path_char, is_rooted, reserved_prefixes, under, is_dot_segment, check_path,
  normalize_transport_path, transport_path_max_length,
}

-- A path that may be published: it begins with a slash, is at most 128 long, is written in the
-- safe characters, holds no empty and no dot segment, and lies under no reserved prefix, whatever
-- the case of its letters.
pub record IsSafePath (p : Text) : Type 0 where
  pub rooted : (t : Text) × (p ≡ b'/' ∷ t)
  pub short : length p ≤ transport_path_max_length
  pub chars : All (λ c. is_path_char c ≡ true) p
  pub no_empty : (a b : Text) → p ≢ a ++ (codes "//" ++ b)
  pub no_dots : All (λ s. (s ≢ codes ".") × (s ≢ codes "..")) (split b'/' p)
  pub unreserved :
      All (λ r. (lower p ≢ r) × ((t : Text) → lower p ≢ (r ++ codes "/") ++ t)) reserved_prefixes

all-All {ℓ} : {A : Type ℓ} (p : A → Bool) (xs : List A) → all p xs ≡ true → All (λ x. p x ≡ true) xs
all-All p [] h = tt
all-All p (x ∷ xs) h = ground (arith, all-All p xs)

All-all {ℓ} : {A : Type ℓ} (p : A → Bool) (xs : List A) → All (λ x. p x ≡ true) xs → all p xs ≡ true
All-all p [] h = refl
All-all p (x ∷ xs) h = ground (arith, All-all p xs h.1)

-- A test that fails on every element, and what its failure means.
module _ {ℓ κ} {A : Type ℓ} (p : A → Bool) (P : A → Type κ) where
  any-false : ((x : A) → p x ≡ false → P x) → (xs : List A) → any p xs ≡ false → All P xs
  any-false f [] h = tt
  any-false f (x ∷ xs) h = (f x (ground arith), any-false f xs (ground arith))

  false-any : ((x : A) → P x → p x ≡ false) → (xs : List A) → All P xs → any p xs ≡ false
  false-any f [] h = refl
  false-any f (x ∷ xs) h = rw (f x h.0) (false-any f xs h.1)

under_iff :
    (path r : Text)
    → (under path r ≡ true) ↔ ((path ≡ r) ⊎ ((t : Text) × (path ≡ (r ++ codes "/") ++ t)))
unfolding under
under_iff path r = (
  λ h. elim (Bool-cases (text_eq path r)) [
    | inl same ↦ inl ((text_eq_iff path r).0 same)
    | inr other ↦ inr ((starts_with_iff path (r ++ codes "/")).0 (rw other at h))
  ],
  elim [
    | inl e ↦ ground (arith, text_eq_iff path r)
    | inr d ↦ rw ((starts_with_iff path (r ++ codes "/")).1 d) (ground arith)
  ],
)

under-false :
    (path r : Text)
    → under path r ≡ false
    → (path ≢ r) × ((t : Text) → path ≢ (r ++ codes "/") ++ t)
under-false path r h =
    ((λ e. cc ((under_iff path r).1 (inl e))), (λ t e. cc ((under_iff path r).1 (inr (t, e)))))

false-under :
    (path r : Text)
    → (path ≢ r) × ((t : Text) → path ≢ (r ++ codes "/") ++ t)
    → under path r ≡ false
false-under path r h = elim (Bool-cases (under path r)) [
  | inl yes_under ↦ elim ((under_iff path r).0 yes_under) [
    | inl e ↦ absurd (h.0 e)
    | inr (t, e) ↦ absurd (h.1 t e)
  ]
  | inr not_under ↦ not_under
]

dot_false : (s : Text) → is_dot_segment s ≡ false → (s ≢ codes ".") × (s ≢ codes "..")
unfolding is_dot_segment
dot_false s h = ground (arith, text_eq_iff s (codes "."), text_eq_iff s (codes ".."))

false_dot : (s : Text) → (s ≢ codes ".") × (s ≢ codes "..") → is_dot_segment s ≡ false
unfolding is_dot_segment
false_dot s h = ground (arith, text_eq_iff s (codes "."), text_eq_iff s (codes ".."))

-- The tests that an accepted path has passed.
check_path_tests :
    (p q : Text)
    → check_path p ≡ some q
    → (q ≡ p)
      × (length p ≤ transport_path_max_length)
      × (is_rooted p ≡ true)
      × (all is_path_char p ≡ true)
      × (has_text p (codes "//") ≡ false)
      × (any is_dot_segment (split b'/' p) ≡ false)
      × (any (under (lower p)) reserved_prefixes ≡ false)
unfolding check_path
check_path_tests p q h = ground arith

is_rooted-cons : (p : Text) → is_rooted p ≡ true → (t : Text) × (p ≡ b'/' ∷ t)
is_rooted-cons [] h = cc
is_rooted-cons (c ∷ p) h = (p, ground arith)

check_path_sound : (p q : Text) → check_path p ≡ some q → (q ≡ p) × IsSafePath p
check_path_sound p q h =
    let (same, short, rooted, chars, doubled, dots, reserved) = check_path_tests p q h in
    (
      same,
      record {
        rooted = is_rooted-cons p rooted;
        short = short;
        chars = all-All is_path_char p chars;
        no_empty = λ a b e. cc ((has_text_iff p (codes "//")).1 (a, b, e));
        no_dots = any-false is_dot_segment _ dot_false (split b'/' p) dots;
        unreserved =
            any-false (under (lower p)) _ (under-false (lower p)) reserved_prefixes reserved;
      },
    )

no_double : (p : Text) → IsSafePath p → has_text p (codes "//") ≡ false
no_double p s = elim (Bool-cases (has_text p (codes "//"))) [
  | inl found ↦ (let (a, b, e) = (has_text_iff p (codes "//")).0 found in absurd (s.no_empty a b e))
  | inr missing ↦ missing
]

check_path_complete : (p : Text) → IsSafePath p → check_path p ≡ some p
unfolding check_path
check_path_complete p s = ground (
  arith,
  s.rooted,
  s.short,
  All-all is_path_char p s.chars,
  no_double p s,
  false-any is_dot_segment _ false_dot (split b'/' p) s.no_dots,
  false-any (under (lower p)) _ (false-under (lower p)) reserved_prefixes s.unreserved,
)

path_char-not-space : (c : ℕ) → is_path_char c ≡ true → is_space c ≡ false
path_char-not-space c h = ground arith

IsSafePath-NoSpace : (p : Text) → All (λ c. is_path_char c ≡ true) p → NoSpace p
IsSafePath-NoSpace [] h = tt
IsSafePath-NoSpace (c ∷ p) h = (path_char-not-space c h.0, IsSafePath-NoSpace p h.1)

-- `normalizeTransportPath` accepts exactly the strings whose trimmed form is a safe path, and
-- returns that form.
pub normalize-eq-some_iff :
    (s p : Text) → (normalize_transport_path (str s) ≡ some p) ↔ ((p ≡ trim s) × IsSafePath p)
unfolding normalize_transport_path
normalize-eq-some_iff s p = (
  λ h. let (same, safe) = check_path_sound (trim s) p h in (same, rw same safe),
  λ (same, safe). rw (← same) (check_path_complete p safe),
)

-- Normalising a normalised path gives it back.
pub normalize_idempotent :
    (v : Value) (p : Text)
    → normalize_transport_path v ≡ some p
    → normalize_transport_path (str p) ≡ some p
unfolding normalize_transport_path
normalize_idempotent (str s) p h =
    let (same, safe) = (normalize-eq-some_iff s p).0 h in
    rw (trim_of_NoSpace p (IsSafePath-NoSpace p safe.chars)) (check_path_complete p safe)
normalize_idempotent _ p h = cc
